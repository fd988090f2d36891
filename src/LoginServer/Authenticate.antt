-- ===== src/LoginServer/Authenticate.antt =====
-- The login task, `authenticate` of crates/login_server/src/session.rs. The semaphore only delays
-- the hash; whether the blocking task delivers its result is an argument.
pub mod Untouched
pub mod Issues
use rust_gameserver.Base.{
  ℕ, ◌≡◌, ◌≢◌, ◌⊎◌, refl, inl, inr, Bool, true, false, Option, none, some, Bytes, arith, ◌==◌, ◌↔◌,
  Bool-cases, if◌then◌else◌,
}
use rust_gameserver.Proto.{ℤ, pos}
use rust_gameserver.Redis.{Reply, done, failed}
use rust_gameserver.Db.Password.{Crypto, Verdict, ok, err, verify}
use rust_gameserver.LoginServer.Backend.{AccountRow, Backend}

pub data LoginErrorCode : Type 0 where
  success invalid_credentials banned server_error rate_limited : LoginErrorCode

abbrev pub to_i32 : LoginErrorCode → ℤ
to_i32 success = pos 0
to_i32 invalid_credentials = pos 1
to_i32 banned = pos 2
to_i32 server_error = pos 3
to_i32 rate_limited = pos 4

pub record Account : Type 0 where
  pub user_id : Bytes

pub data LoginOutcome : Type 0 where
  logged_in : (account : Account) (token : Bytes) → LoginOutcome
  failure : LoginErrorCode → LoginOutcome
  db_error : LoginOutcome

module _ {B : Type 0} (backend : Backend B) (c : Crypto) where
  abbrev pub after_issue : AccountRow → B × Reply (Option Bytes) → B × LoginOutcome
  after_issue row (b, done (some token)) = (b, logged_in (record { user_id = row.user_id }) token)
  after_issue row (b, done none) = (b, failure server_error)
  after_issue row (b, failed) = (b, failure server_error)

  abbrev pub after_touch : AccountRow → B × Reply (Unit {0}) → B × LoginOutcome
  after_touch row (b, done _) =
      after_issue row (backend.issue_auth_token b row.account_id row.user_id)
  after_touch row (b, failed) = (b, db_error)

  abbrev after_verify : AccountRow → B → Verdict → B × LoginOutcome
  after_verify row b (ok true) =
      if row.status == 1
      then (b, failure banned)
      else after_touch row (backend.touch_last_login b row.account_id)
  after_verify row b (ok false) = (b, failure invalid_credentials)
  after_verify row b (err e) = (b, db_error)

  -- `joins` is false if the blocking task fails.
  abbrev after_find : Bool → Bytes → B × Reply (Option AccountRow) → B × LoginOutcome
  after_find joins client_hash (b, done (some row)) =
      if joins
      then after_verify row b (verify c client_hash row.password_hash row.salt)
      else (b, db_error)
  after_find joins client_hash (b, done none) = (b, failure invalid_credentials)
  after_find joins client_hash (b, failed) = (b, db_error)

  unfoldable pub authenticate : Bool → B → Bytes → Bytes → B × LoginOutcome
  authenticate joins b user_id client_hash =
      after_find joins client_hash (backend.find_account b user_id)

  after_issue-inv :
      (row : AccountRow) (r : B × Reply (Option Bytes)) (a : Account) (token : Bytes)
      → (after_issue row r).1 ≡ logged_in a token
      → (r.1 ≡ done (some token)) × (a.user_id ≡ row.user_id)
  after_issue-inv row (b, done (some t)) a token h = ground arith
  after_issue-inv row (b, done none) a token h = cc
  after_issue-inv row (b, failed) a token h = cc

  after_touch-inv :
      (row : AccountRow) (r : B × Reply (Unit {0})) (a : Account) (token : Bytes)
      → (after_touch row r).1 ≡ logged_in a token
      → (r.1 ≡ done tt)
        × ((backend.issue_auth_token r.0 row.account_id row.user_id).1 ≡ done (some token))
        × (a.user_id ≡ row.user_id)
  after_touch-inv row (b, done u) a token h =
      let (i, e) =
        after_issue-inv row (backend.issue_auth_token b row.account_id row.user_id) a token h in
      (refl, i, e)
  after_touch-inv row (b, failed) a token h = cc

  -- What a login has passed: the account exists, its password is the given one, it is not banned,
  -- the time of the login has been written, and a token has been stored for it.
  abbrev pub Passed : Bool → B → Bytes → Bytes → Account → Bytes → Type 0
  Passed joins b user_id client_hash a token =
      let found = backend.find_account b user_id in
      (row : AccountRow) × (found.1 ≡ done (some row))
      × (joins ≡ true)
      × (verify c client_hash row.password_hash row.salt ≡ ok true)
      × (row.status ≢ 1)
      × ((backend.touch_last_login found.0 row.account_id).1 ≡ done tt)
      × ((backend.issue_auth_token (backend.touch_last_login found.0 row.account_id).0
            row.account_id row.user_id).1
          ≡ done (some token))
      × (a.user_id ≡ row.user_id)

  after_verify-inv :
      (row : AccountRow) (b : B) (v : Verdict) (a : Account) (token : Bytes)
      → (after_verify row b v).1 ≡ logged_in a token
      → (v ≡ ok true)
        × (row.status ≢ 1)
        × ((after_touch row (backend.touch_last_login b row.account_id)).1 ≡ logged_in a token)
  after_verify-inv row b (ok true) a token h = (refl, ground arith, ground arith)
  after_verify-inv row b (ok false) a token h = cc
  after_verify-inv row b (err e) a token h = cc

  after_find-inv :
      (joins : Bool) (client_hash : Bytes) (r : B × Reply (Option AccountRow)) (a : Account)
      (token : Bytes)
      → (after_find joins client_hash r).1 ≡ logged_in a token
      → (row : AccountRow) × (r.1 ≡ done (some row))
        × (joins ≡ true)
        × ((after_verify row r.0 (verify c client_hash row.password_hash row.salt)).1
            ≡ logged_in a token)
  after_find-inv true client_hash (b, done (some row)) a token h = (row, refl, refl, h)
  after_find-inv false client_hash (b, done (some row)) a token h = cc
  after_find-inv joins client_hash (b, done none) a token h = cc
  after_find-inv joins client_hash (b, failed) a token h = cc

  authenticate_sound :
      (joins : Bool) (b : B) (user_id client_hash : Bytes) (a : Account) (token : Bytes)
      → (authenticate joins b user_id client_hash).1 ≡ logged_in a token
      → Passed joins b user_id client_hash a token
  unfolding authenticate
  authenticate_sound joins b user_id client_hash a token h =
      let found = backend.find_account b user_id in
      let (row, f, j, e) = after_find-inv joins client_hash found a token h in
      let (v, s, t) =
        after_verify-inv row found.0 (verify c client_hash row.password_hash row.salt) a token e in
      let (d, i, u) =
        after_touch-inv row (backend.touch_last_login found.0 row.account_id) a token t in
      (row, f, j, v, s, d, i, u)

  after_issue-fwd :
      (row : AccountRow) (r : B × Reply (Option Bytes)) (a : Account) (token : Bytes)
      → r.1 ≡ done (some token)
      → a.user_id ≡ row.user_id
      → (after_issue row r).1 ≡ logged_in a token
  after_issue-fwd row (b, done (some t)) a token h u = ground arith
  after_issue-fwd row (b, done none) a token h u = absurd (cc)
  after_issue-fwd row (b, failed) a token h u = absurd (cc)

  after_touch-fwd :
      (row : AccountRow) (r : B × Reply (Unit {0})) (a : Account) (token : Bytes)
      → r.1 ≡ done tt
      → (backend.issue_auth_token r.0 row.account_id row.user_id).1 ≡ done (some token)
      → a.user_id ≡ row.user_id
      → (after_touch row r).1 ≡ logged_in a token
  after_touch-fwd row (b, done u) a token h i e =
      after_issue-fwd row (backend.issue_auth_token b row.account_id row.user_id) a token i e
  after_touch-fwd row (b, failed) a token h i e = absurd (cc)

  pub after_find-fwd :
      (joins : Bool) (client_hash : Bytes) (r : B × Reply (Option AccountRow)) (row : AccountRow)
      → r.1 ≡ done (some row)
      → joins ≡ true
      → verify c client_hash row.password_hash row.salt ≡ ok true
      → row.status ≢ 1
      → after_find joins client_hash r
        ≡ after_touch row (backend.touch_last_login r.0 row.account_id)
  after_find-fwd joins client_hash (b, done (some x)) row f j v s =
      let e : x ≡ row = ground arith in rw (j, e) (rw v (ground arith))
  after_find-fwd joins client_hash (b, done none) row f j v s = absurd (cc)
  after_find-fwd joins client_hash (b, failed) row f j v s = absurd (cc)

  authenticate_complete :
      (joins : Bool) (b : B) (user_id client_hash : Bytes) (a : Account) (token : Bytes)
      → Passed joins b user_id client_hash a token
      → (authenticate joins b user_id client_hash).1 ≡ logged_in a token
  unfolding authenticate
  authenticate_complete joins b user_id client_hash a token (row, f, j, v, s, d, i, u) =
      let found = backend.find_account b user_id in
      rw (after_find-fwd joins client_hash found row f j v s)
        (after_touch-fwd row (backend.touch_last_login found.0 row.account_id) a token d i u)

  -- A login succeeds, with this account and this token, exactly if it passes every check: the
  -- account exists and carries the user id, its password is the given one, it is not banned, the
  -- time of the login has been written, and the token has been stored.
  pub authenticate_iff :
      (joins : Bool) (b : B) (user_id client_hash : Bytes) (a : Account) (token : Bytes)
      → ((authenticate joins b user_id client_hash).1 ≡ logged_in a token)
        ↔ Passed joins b user_id client_hash a token
  authenticate_iff joins b user_id client_hash a token = (
    authenticate_sound joins b user_id client_hash a token,
    authenticate_complete joins b user_id client_hash a token,
  )
