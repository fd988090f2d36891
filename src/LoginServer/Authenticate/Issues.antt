-- ===== src/LoginServer/Authenticate/Issues.antt =====
-- What a successful login leaves in Redis: `authenticate` of crates/login_server/src/session.rs over
-- the stores of crates/login_server/src/backend.rs.
use rust_gameserver.Base.{◌≡◌, ◌≢◌, refl, ◌∙◌, ap, Bool, true, Option, none, some, Bytes}
use rust_gameserver.Redis.{Reply, done, failed}
use rust_gameserver.Db.Password.{Crypto, ok, verify}
use rust_gameserver.LoginServer.Backend.{AccountRow, Backend}
use rust_gameserver.LoginServer.Authenticate.{
  Account, logged_in, authenticate, authenticate_iff, after_issue, after_touch, after_find-fwd,
}

module _ {B : Type 0} (stores : Backend B) (c : Crypto) where
  after_issue_state :
      (row : AccountRow) (r : B × Reply (Option Bytes)) → (after_issue stores c row r).0 ≡ r.0
  after_issue_state row (b, done (some t)) = refl
  after_issue_state row (b, done none) = refl
  after_issue_state row (b, failed) = refl

  after_touch_state :
      (row : AccountRow) (r : B × Reply (Unit {0}))
      → r.1 ≡ done tt
      → (after_touch stores c row r).0 ≡ (stores.issue_auth_token r.0 row.account_id row.user_id).0
  after_touch_state row (b, done u) h =
      after_issue_state row (stores.issue_auth_token b row.account_id row.user_id)
  after_touch_state row (b, failed) h = absurd (cc)

  -- A login that succeeds leaves the stores as the issue of its token does.
  abbrev pub Issued : B → Bytes → Bytes → Account → Bytes → B → Type 0
  Issued b user_id client_hash a token last =
      (row : AccountRow) × ((stores.find_account b user_id).1 ≡ done (some row))
      × (verify c client_hash row.password_hash row.salt ≡ ok true)
      × (row.status ≢ 1)
      × (a.user_id ≡ row.user_id)
      × (let found = (stores.find_account b user_id).0 in
          let touched = (stores.touch_last_login found row.account_id).0 in
          let issued = stores.issue_auth_token touched row.account_id row.user_id in
          (issued.1 ≡ done (some token)) × (last ≡ issued.0))

  pub authenticate-Issued :
      (joins : Bool) (b : B) (user_id client_hash : Bytes) (a : Account) (token : Bytes)
      → (authenticate stores c joins b user_id client_hash).1 ≡ logged_in a token
      → Issued b user_id client_hash a token (authenticate stores c joins b user_id client_hash).0
  unfolding authenticate
  authenticate-Issued joins b user_id client_hash a token h =
      let (row, f, j, v, s, d, i, u) =
        (authenticate_iff stores c joins b user_id client_hash a token).0 h in
      let found = stores.find_account b user_id in
      let e = after_find-fwd stores c joins client_hash found row f j v s in
      let touched = stores.touch_last_login found.0 row.account_id in
      (row, f, v, s, u, (i, ap (λ r. r.0) e ∙ after_touch_state row touched d))
