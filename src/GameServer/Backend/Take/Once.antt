-- ===== src/GameServer/Backend/Take/Once.antt =====
-- Two takes of one token with anything in between: crates/game_server/src/backend.rs and the issue of
-- tokens in crates/login_server/src/backend.rs, over one Redis.
use rust_gameserver.Base.{
  ℕ, ◌≡◌, ◌≢◌, refl, ◌∙◌, ◌⊎◌, inl, inr, ◌++◌, Option, none, some, Bytes, arith, ap,
}
use rust_gameserver.Proto.{ℤ}
use rust_gameserver.Redis.{done, Redis}
use rust_gameserver.LoginServer.Backend.{issue_auth_token, token_value}
use rust_gameserver.LoginServer.Backend as Login
use rust_gameserver.GameServer.Backend.{
  Sql, MySqlRedisBackend, take_auth_token, save_score, touch_last_login, get_del, del_found,
}
use rust_gameserver.GameServer.Backend.Take.{Reply-cases, take_auth_token_takes}

module _ {D E R : Type 0} (lsql : Login.Sql D) (sql : Sql E) (red : Redis R) (key : Bytes) where
  abbrev B : Type 0
  B = MySqlRedisBackend E R

  -- What happens to the stores of the game server: a take of any token, a score, a logout, an issue
  -- by the login server under another key than `key`, and entries that expire.
  pub data Change (b : B) : B → Type 0 where
    takes : (token : Bytes) → Change b (take_auth_token sql red b token).0
    saves :
        (account_id : ℕ) (score kill_count survive_seconds : ℤ)
        → Change b (save_score sql red b account_id score kill_count survive_seconds).0
    touches : (account_id : ℕ) → Change b (touch_last_login sql red b account_id).0
    issues :
        (login : Login.MySqlRedisBackend D R) (uuid : Bytes) (account_id : ℕ) (user_id : Bytes)
        → login.redis ≡ b.redis
        → login.auth_token_prefix ++ uuid ≢ key
        → Change b
            (record b { redis = (issue_auth_token lsql red uuid login account_id user_id).0.redis })
    expires :
        (r : R)
        → ((j : Bytes) → (red.stored r j ≡ none) ⊎ (red.stored r j ≡ red.stored b.redis j))
        → Change b (record b { redis = r })

  pub data Changes (b : B) : B → Type 0 where
    here : Changes b b
    next : {c d : B} → Changes b c → Change c d → Changes b d

  -- The key holds nothing; the prefix is `p`.
  abbrev IsSpent : Bytes → B → Type 0
  IsSpent p b = (b.auth_token_prefix ≡ p) × (red.stored b.redis key ≡ none)

  get_del-spent :
      (r : R) (k : Bytes) → red.stored r key ≡ none → red.stored (get_del sql red r k).0 key ≡ none
  unfolding get_del
  get_del-spent r k e = elim (Reply-cases (red.get r k)) [
    | inl (o, g) ↦ rw (g, get_del) (found r k o e)
    | inr g ↦ rw (g, get_del) e
  ]
    where
      found :
          (r : R) (k : Bytes) (o : Option Bytes)
          → red.stored r key ≡ none
          → red.stored (del_found sql red r k o).0 key ≡ none
      found r k none e = e
      found r k (some v) e = ground (arith, red.del_only r k key)

  issue-spent :
      (login : Login.MySqlRedisBackend D R) (uuid : Bytes) (account_id : ℕ) (user_id : Bytes)
      → login.auth_token_prefix ++ uuid ≢ key
      → red.stored login.redis key ≡ none
      → red.stored (issue_auth_token lsql red uuid login account_id user_id).0.redis key ≡ none
  unfolding issue_auth_token
  issue-spent login uuid account_id user_id ne e =
      red.set_only login.redis (login.auth_token_prefix ++ uuid) (token_value account_id user_id)
        login.auth_token_ttl_seconds key ne
      ∙ e

  Change-IsSpent : (p : Bytes) (b c : B) → Change b c → IsSpent p b → IsSpent p c
  unfolding take_auth_token save_score touch_last_login
  Change-IsSpent p b c (takes token) (q, e) =
      (q, get_del-spent b.redis (b.auth_token_prefix ++ token) e)
  Change-IsSpent p b c (saves id x y z) v = v
  Change-IsSpent p b c (touches id) v = v
  Change-IsSpent p b c (issues login uuid id user same ne) (q, e) =
      (q, issue-spent login uuid id user ne (ap (λ r. red.stored r key) same ∙ e))
  Change-IsSpent p b c (expires r h) (q, e) = (q, ground (arith, h key))

  Changes-IsSpent : (p : Bytes) (b c : B) → Changes b c → IsSpent p b → IsSpent p c
  Changes-IsSpent p b c here v = v
  Changes-IsSpent p b c (next {c = m} r s) v = Change-IsSpent p m c s (Changes-IsSpent p b m r v)

-- A token is taken at most once: when a take has answered, a later one of the same token that
-- answers finds nothing, whatever takes, scores, logouts, expiries and issues of tokens under other
-- keys there are in between.
pub take_auth_token_once :
    {D E R : Type 0} (lsql : Login.Sql D) (sql : Sql E) (red : Redis R)
    (b c : MySqlRedisBackend E R) (token : Bytes) (v w : Option Bytes)
    → (take_auth_token sql red b token).1 ≡ done v
    → Changes lsql sql red (b.auth_token_prefix ++ token) (take_auth_token sql red b token).0 c
    → (take_auth_token sql red c token).1 ≡ done w
    → w ≡ none
take_auth_token_once lsql sql red b c token v w h r k =
    let b' = (take_auth_token sql red b token).0 in
    let same : b'.auth_token_prefix ≡ b.auth_token_prefix = unfold take_auth_token in refl in
    let gone = (take_auth_token_takes sql red b token v h).1 in
    let (q, e) =
      Changes-IsSpent lsql sql red (b.auth_token_prefix ++ token) b.auth_token_prefix b' c r
        (same, gone) in
    (take_auth_token_takes sql red c token w k).0 ∙ ap (λ p. red.stored c.redis (p ++ token)) q ∙ e
