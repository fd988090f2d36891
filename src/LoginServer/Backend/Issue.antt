-- ===== src/LoginServer/Backend/Issue.antt =====
-- What `issue_auth_token` of crates/login_server/src/backend.rs leaves in Redis.
use rust_gameserver.Base.{ℕ, ◌≡◌, Bool, true, false, ◌++◌, some, Bytes, arith}
use rust_gameserver.Redis.{Reply, done, failed, Redis}
use rust_gameserver.LoginServer.Backend.{
  Sql, MySqlRedisBackend, token_value, issue_auth_token, issued,
}

module _ {D R : Type 0} (sql : Sql D) (red : Redis R) where
  issued-inv :
      (token t : Bytes) (r : Reply Bool)
      → issued sql red token r ≡ done (some t)
      → (t ≡ token) × (r ≡ done true)
  issued-inv token t (done true) h = ground arith
  issued-inv token t (done false) h = cc
  issued-inv token t failed h = cc

  -- A token that the login server hands out is the new one, and Redis holds the account under it.
  pub issue_auth_token_stores :
      (token t : Bytes) (b : MySqlRedisBackend D R) (id : ℕ) (user : Bytes)
      → (issue_auth_token sql red token b id user).1 ≡ done (some t)
      → (t ≡ token)
        × (red.stored (issue_auth_token sql red token b id user).0.redis (b.auth_token_prefix ++ t)
            ≡ some (token_value id user))
  unfolding issue_auth_token
  issue_auth_token_stores token t b id user h =
      let put =
        red.set_ex b.redis (b.auth_token_prefix ++ token) (token_value id user)
          b.auth_token_ttl_seconds in
      let (e, ok) = issued-inv token t put.1 h in
      (
        e,
        rw e (
            red.set_stores b.redis (b.auth_token_prefix ++ token) (token_value id user)
              b.auth_token_ttl_seconds ok),
      )
