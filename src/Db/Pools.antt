-- ===== src/Db/Pools.antt =====
-- crates/db/src/lib.rs: the settings of the stores, and the lazy pools. That a URL is well-formed is
-- what sqlx and redis say; no connection is made before the first statement.
use rust_gameserver.Base.{ℕ, Bool, Bytes, Option, none, some, codes, if◌then◌else◌}
use rust_gameserver.Net.Consts.{from_secs}
use rust_gameserver.Redis.{Reply, done, failed}

pub record DatabaseConfig : Type 0 where
  pub mysql_url : Bytes
  pub mysql_max_connections : ℕ
  pub redis_url : Bytes
  pub broadcast_channel : Bytes

abbrev pub default : DatabaseConfig
default = record {
  mysql_url = codes "mysql://root@127.0.0.1:3306/gamedb";
  mysql_max_connections = 32;
  redis_url = codes "redis://127.0.0.1:6379";
  broadcast_channel = codes "server:notice";
}

pub record MySqlPool : Type 0 where
  pub url : Bytes
  pub max_connections : ℕ
  pub acquire_timeout : ℕ

-- `connect_lazy` only reads the URL.
unfoldable pub mysql_pool : (Bytes → Bool) → Bytes → ℕ → Option MySqlPool
mysql_pool is_url url max_connections =
    if is_url url
    then some
        (record { url = url; max_connections = max_connections; acquire_timeout = from_secs 5 })
    else none

pub record ConnectionManager : Type 0 where
  pub client_url : Bytes
  pub connection_timeout : ℕ
  pub response_timeout : ℕ

-- `new_lazy_with_config`; `accepts` is whether the client's settings are accepted.
unfoldable pub redis_manager : (Bytes → Bool) → Bytes → Option ConnectionManager
redis_manager accepts client_url =
    if accepts client_url
    then some (record {
      client_url = client_url;
      connection_timeout = from_secs 5;
      response_timeout = from_secs 5;
    })
    else none

-- `is_ok` of `SELECT 1` and of `PING`.
abbrev pub check_mysql : {D : Type 0} → (D → D × Reply (Unit {0})) → D → D × Bool
check_mysql select_one d =
    let (d', reply) = select_one d in (d', elim reply [ done _ ↦ Bool.true | failed ↦ Bool.false ])

abbrev pub check_redis : {R : Type 0} → (R → R × Reply Bytes) → R → R × Bool
check_redis ping r =
    let (r', reply) = ping r in (r', elim reply [ done _ ↦ Bool.true | failed ↦ Bool.false ])
