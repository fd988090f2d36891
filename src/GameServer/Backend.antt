-- ===== src/GameServer/Backend.antt =====
-- crates/game_server/src/backend.rs: the trait through which a session reaches the stores, and its
-- implementation. The SQL statements stay with the database, a parameter.
pub mod Take
use rust_gameserver.Base.{ℕ, ◌≡◌, refl, Bool, Option, none, some, ◌++◌, Bytes, arith}
use rust_gameserver.Proto.{ℤ}
use rust_gameserver.Redis.{Reply, done, failed, Redis}

pub record Backend (B : Type 0) : Type 0 where
  pub take_auth_token : B → Bytes → B × Reply (Option Bytes)
  pub save_score :
      B → (account_id : ℕ) (score kill_count survive_seconds : ℤ) → B × Reply (Unit {0})
  pub touch_last_login : B → ℕ → B × Reply (Unit {0})

-- The two statements that the game server runs.
pub record Sql (D : Type 0) : Type 0 where
  pub insert_score : D → ℕ → ℤ → ℤ → ℤ → D × Reply (Unit {0})
  pub update_last_login : D → ℕ → D × Reply (Unit {0})

pub record MySqlRedisBackend (D R : Type 0) : Type 0 where
  pub pool : D
  pub redis : R
  pub auth_token_prefix : Bytes

module _ {D R : Type 0} (sql : Sql D) (red : Redis R) where
  abbrev pub del_found : R → Bytes → Option Bytes → R × Reply (Option Bytes)
  del_found r key none = (r, done none)
  del_found r key (some v) =
      let (r', reply) = red.del r key in
      (r', elim reply [ done _ ↦ done (some v) | failed ↦ failed ])

  -- The script: `GET`, and if there is a value `DEL`; Redis runs it without interruption.
  unfoldable pub get_del : R → Bytes → R × Reply (Option Bytes)
  get_del r key = elim (red.get r key) [ done v ↦ del_found r key v | failed ↦ (r, failed) ]

  unfoldable pub take_auth_token :
      MySqlRedisBackend D R → Bytes → MySqlRedisBackend D R × Reply (Option Bytes)
  unfolding get_del
  take_auth_token b token =
      let (r, reply) = get_del b.redis (b.auth_token_prefix ++ token) in
      (record b { redis = r }, reply)

  unfoldable pub save_score :
      MySqlRedisBackend D R → ℕ → ℤ → ℤ → ℤ → MySqlRedisBackend D R × Reply (Unit {0})
  save_score b account_id score kill_count survive_seconds =
      let (d, reply) = sql.insert_score b.pool account_id score kill_count survive_seconds in
      (record b { pool = d }, reply)

  unfoldable pub touch_last_login :
      MySqlRedisBackend D R → ℕ → MySqlRedisBackend D R × Reply (Unit {0})
  touch_last_login b account_id =
      let (d, reply) = sql.update_last_login b.pool account_id in (record b { pool = d }, reply)

  unfoldable pub backend : Backend (MySqlRedisBackend D R)
  unfolding take_auth_token save_score touch_last_login
  backend = record {
    take_auth_token = take_auth_token;
    save_score = save_score;
    touch_last_login = touch_last_login;
  }
