-- ===== src/LoginServer/Admin/Handlers/Login.antt =====
-- Who may log in to the interface for operators: `login` of
-- crates/login_server/src/admin/handlers.rs.
use rust_gameserver.Base.{
  ℕ, ◌≡◌, refl, inl, inr, Bool, true, false, ◌||◌, Option, none, some, Bytes, arith, is_empty,
  Bool-cases,
}
use rust_gameserver.Redis.{Reply, done, failed, Redis}
use rust_gameserver.Db.Password.{Crypto, Verdict, ok, err, client_hash, verify}
use rust_gameserver.LoginServer.Config.{AdminApiConfig}
use rust_gameserver.LoginServer.Admin.SessionKey.{SessionKeyStore, issue}
use rust_gameserver.LoginServer.Admin.Handlers.{
  AdminApiConfig, logged_in, Sql, login, contains, is_blank, after_select, after_verify,
  after_issue,
}

module _ {D R : Type 0} (sql : Sql D) (red : Redis R) (c : Crypto) where
  module _ (config : AdminApiConfig) (store : SessionKeyStore) (key : Bytes) where
    -- What a login of an operator has passed.
    abbrev pub Passed : Bool → D × R → Bytes → Bytes → Bytes → ℕ → Type 0
    Passed joins s user_id password k minutes =
        (is_blank user_id ≡ false)
        × (is_empty password ≡ false)
        × (contains config.admins user_id ≡ true)
        × (joins ≡ true)
        × (row : Bytes × Bytes) × ((sql.select_credentials s.0 user_id).1 ≡ done (some row))
        × (verify c (client_hash c password) row.0 row.1 ≡ ok true)
        × ((issue red store key s.1 user_id).1 ≡ done k)
        × (minutes ≡ config.session_key_ttl_minutes)

    after_issue-inv :
        (m : ℕ) (d : D) (x : R × Reply Bytes) (k : Bytes) (minutes : ℕ)
        → (after_issue sql red c m d x).1 ≡ logged_in k minutes
        → (x.1 ≡ done k) × (minutes ≡ m)
    after_issue-inv m d (r, done k') k minutes h = ground arith
    after_issue-inv m d (r, failed) k minutes h = cc

    after_verify-inv :
        (user_id : Bytes) (d : D) (r : R) (v : Verdict) (k : Bytes) (minutes : ℕ)
        → (after_verify sql red c config store key user_id d r v).1 ≡ logged_in k minutes
        → (v ≡ ok true)
          × ((issue red store key r user_id).1 ≡ done k)
          × (minutes ≡ config.session_key_ttl_minutes)
    after_verify-inv user_id d r (ok true) k minutes h =
        let (i, m) =
          after_issue-inv config.session_key_ttl_minutes d (issue red store key r user_id) k minutes
            h in
        (refl, i, m)
    after_verify-inv user_id d r (ok false) k minutes h = cc
    after_verify-inv user_id d r (err e) k minutes h = cc

    after_select-inv :
        (joins : Bool) (user_id password : Bytes) (r : R) (x : D × Reply (Option (Bytes × Bytes)))
        (k : Bytes) (minutes : ℕ)
        → (after_select sql red c joins config store key user_id password r x).1
          ≡ logged_in k minutes
        → (joins ≡ true)
          × (row : Bytes × Bytes) × (x.1 ≡ done (some row))
          × (verify c (client_hash c password) row.0 row.1 ≡ ok true)
          × ((issue red store key r user_id).1 ≡ done k)
          × (minutes ≡ config.session_key_ttl_minutes)
    after_select-inv true user_id password r (d, done (some (hash, salt))) k minutes h =
        let (v, i, m) =
          after_verify-inv user_id d r (verify c (client_hash c password) hash salt) k minutes h in
        (refl, (hash, salt), refl, v, i, m)
    after_select-inv false user_id password r (d, done (some row)) k minutes h = cc
    after_select-inv true user_id password r (d, done none) k minutes h = cc
    after_select-inv false user_id password r (d, done none) k minutes h = cc
    after_select-inv true user_id password r (d, failed) k minutes h = cc
    after_select-inv false user_id password r (d, failed) k minutes h = cc

    -- A session key is only handed out to an operator: the user id is not blank and is one of the
    -- configured admins, the password is not empty and is the one of that account, the key has been
    -- stored for the user, and its lifetime is the configured one.
    pub login-Passed :
        (joins : Bool) (s : D × R) (user_id password k : Bytes) (minutes : ℕ)
        → (login sql red c joins config store key s user_id password).1 ≡ logged_in k minutes
        → Passed joins s user_id password k minutes
    unfolding login
    login-Passed joins (d, r) user_id password k minutes h =
        elim (Bool-cases (is_blank user_id || is_empty password)) [
          | inl e ↦ absurd (ground arith)
          | inr e ↦ elim (Bool-cases (contains config.admins user_id)) [
            | inl a ↦
                let (j, row, f, v, i, m) =
                  after_select-inv joins user_id password r (sql.select_credentials d user_id) k
                    minutes (rw (e, a) at h) in
                (ground arith, ground arith, a, j, row, f, v, i, m)
            | inr a ↦ absurd (ground arith)
          ]
        ]
