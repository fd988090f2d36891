-- ===== src/LoginServer/Backend.antt =====
-- crates/login_server/src/backend.rs: the trait through which the login reaches the stores, and its
-- implementation. The SQL statements stay with the database, a parameter; so does the random UUID.
pub mod Issue
use rust_gameserver.Base.{ℕ, ◌++◌, ◌∷◌, Bool, true, false, Option, none, some, Bytes}
use rust_gameserver.Text.{display}
use rust_gameserver.Redis.{Reply, done, failed, Redis}

pub record AccountRow : Type 0 where
  pub account_id : ℕ
  pub user_id : Bytes
  pub password_hash : Bytes
  pub salt : Bytes
  -- 0 is normal, 1 is banned.
  pub status : ℕ

pub record Backend (B : Type 0) : Type 0 where
  pub find_account : B → Bytes → B × Reply (Option AccountRow)
  pub touch_last_login : B → ℕ → B × Reply (Unit {0})
  pub issue_auth_token : B → ℕ → Bytes → B × Reply (Option Bytes)

pub record Sql (D : Type 0) : Type 0 where
  pub select_account : D → Bytes → D × Reply (Option AccountRow)
  pub update_last_login : D → ℕ → D × Reply (Unit {0})

pub record MySqlRedisBackend (D R : Type 0) : Type 0 where
  pub pool : D
  pub redis : R
  pub auth_token_prefix : Bytes
  pub auth_token_ttl_seconds : ℕ

-- `format!("{account_id}:{user_id}")`
unfoldable pub token_value : ℕ → Bytes → Bytes
token_value account_id user_id = display account_id ++ b':' ∷ user_id

module _ {D R : Type 0} (sql : Sql D) (red : Redis R) where
  unfoldable pub find_account :
      MySqlRedisBackend D R → Bytes → MySqlRedisBackend D R × Reply (Option AccountRow)
  find_account b user_id =
      let (d, reply) = sql.select_account b.pool user_id in (record b { pool = d }, reply)

  unfoldable pub touch_last_login :
      MySqlRedisBackend D R → ℕ → MySqlRedisBackend D R × Reply (Unit {0})
  touch_last_login b account_id =
      let (d, reply) = sql.update_last_login b.pool account_id in (record b { pool = d }, reply)

  abbrev issued : Bytes → Reply Bool → Reply (Option Bytes)
  issued token (done true) = done (some token)
  issued token (done false) = done none
  issued token failed = failed

  -- `token` is the new UUID in hexadecimal.
  unfoldable pub issue_auth_token :
      Bytes → MySqlRedisBackend D R → ℕ → Bytes → MySqlRedisBackend D R × Reply (Option Bytes)
  issue_auth_token token b account_id user_id =
      let (r, reply) =
        red.set_ex b.redis (b.auth_token_prefix ++ token) (token_value account_id user_id)
          b.auth_token_ttl_seconds in
      (record b { redis = r }, issued token reply)

  unfoldable pub backend : Bytes → Backend (MySqlRedisBackend D R)
  unfolding find_account touch_last_login issue_auth_token
  backend token = record {
    find_account = find_account;
    touch_last_login = touch_last_login;
    issue_auth_token = issue_auth_token token;
  }
