-- ===== src/Handoff.antt =====
-- The hand-off of a login between the two servers through Redis: the token that the login server
-- stores (crates/login_server/src/backend.rs) and the game server takes
-- (crates/game_server/src/backend.rs and session.rs).
use rust_gameserver.Base.{
  ℕ, suc, ◌≤◌, ◌≡◌, ◌≢◌, refl, ◌∙◌, [], ◌∷◌, ◌++◌, Option, none, some, Bytes, All, arith, ap,
}
use rust_gameserver.Text.{max_u64, display, digits}
use rust_gameserver.Text.Split.{split_once-append}
use rust_gameserver.Text.Decimal.{parse_u64-display, IsDigit, digits-IsDigit}
use rust_gameserver.Redis.{done, Redis}
use rust_gameserver.LoginServer.Backend.{token_value, issue_auth_token}
use rust_gameserver.LoginServer.Backend.Issue.{issue_auth_token_stores}
use rust_gameserver.LoginServer.Backend as Login
use rust_gameserver.GameServer.Token.{Account, parse_token_value, parse_parts}
use rust_gameserver.Net.Cancellation.{Cancellation}
use rust_gameserver.Net.Outbox.{Channel}
use rust_gameserver.GameServer.Session.{State, take_token, token_taken, perform, on_inner}
use rust_gameserver.GameServer.Backend.{take_auth_token}
use rust_gameserver.GameServer.Backend.Take.{take_auth_token_takes}
use rust_gameserver.GameServer.Backend as Game

All-no-colon : (ds : Bytes) → All IsDigit ds → All (λ c. c ≢ b':') ds
All-no-colon [] h = tt
All-no-colon (d ∷ ds) h = (omega (arith, h.0), All-no-colon ds h.1)

display_no_colon : (n : ℕ) → All (λ c. c ≢ b':') (display n)
unfolding display
display_no_colon n = All-no-colon (digits (suc n) n) (digits-IsDigit (suc n) n)

-- The value that the login server stores for an account parses to this account on the game server,
-- for every 64-bit id and every user id, one with colons too.
pub parse_token_value-token_value :
    (id : ℕ) (user : Bytes)
    → id ≤ max_u64
    → parse_token_value (token_value id user) ≡ some (record { account_id = id; user_id = user })
unfolding parse_token_value token_value
parse_token_value-token_value id user h =
    ap parse_parts (split_once-append b':' (display id) user (display_no_colon id))
    ∙ rw (parse_u64-display id h, parse_parts) refl

module _ {D E R : Type 0} (lsql : Login.Sql D) (gsql : Game.Sql E) (red : Redis R) where
  -- The game server takes, under a token that the login server has handed out, exactly the account
  -- that it was issued for, if the two agree on the key prefix, Redis still holds under the key
  -- what it held after the issue, and the take does not fail. The token is then used up.
  pub take-issue :
      (token t : Bytes) (login : Login.MySqlRedisBackend D R) (game : Game.MySqlRedisBackend E R)
      (id : ℕ) (user : Bytes) (v : Option Bytes)
      → id ≤ max_u64
      → (issue_auth_token lsql red token login id user).1 ≡ done (some t)
      → game.auth_token_prefix ≡ login.auth_token_prefix
      → red.stored game.redis (game.auth_token_prefix ++ t)
        ≡ red.stored
            (issue_auth_token lsql red token login id user).0.redis
            (game.auth_token_prefix ++ t)
      → (take_auth_token gsql red game t).1 ≡ done v
      → (v ≡ some (token_value id user))
        × (parse_token_value (token_value id user)
            ≡ some (record { account_id = id; user_id = user }))
        × (red.stored (take_auth_token gsql red game t).0.redis (game.auth_token_prefix ++ t)
            ≡ none)
  take-issue token t login game id user v h i p kept k =
      let (_, put) = issue_auth_token_stores lsql red token t login id user i in
      let (got, gone) = take_auth_token_takes gsql red game t v k in
      (got ∙ kept ∙ (rw p put), parse_token_value-token_value id user h, gone)

module _ {D E R Token Store C : Type 0} (lsql : Login.Sql D) (gsql : Game.Sql E) (red : Redis R)
    (can : Cancellation Token Store) (ch : Channel C) where
  pub performs :
      (game : Game.MySqlRedisBackend E R) (t : Bytes) (v : Option Bytes)
      → (take_auth_token gsql red game t).1 ≡ done v
      → (perform (Game.backend gsql red) game (take_token t)).1 ≡ token_taken v
  unfolding perform Game.backend
  performs game t v h = rw h refl

  logs_in :
      (now : ℕ) (s : State Token Store C) (value : Bytes) (a : Account)
      → parse_token_value value ≡ some a
      → (on_inner can ch now s (token_taken (some value))).0.account ≡ some a
  unfolding on_inner
  logs_in now s value a e = rw e refl

  -- A session of the game server whose lookup of a token that the login server has handed out is
  -- done becomes authenticated as exactly the account that the token was issued for, and the token
  -- is used up, if the two servers agree on the key prefix, Redis still holds under the key what it
  -- held after the issue, and the lookup does not fail.
  pub connect-issue :
      (token t : Bytes) (login : Login.MySqlRedisBackend D R) (game : Game.MySqlRedisBackend E R)
      (id : ℕ) (user : Bytes) (v : Option Bytes) (now : ℕ) (s : State Token Store C)
      → id ≤ max_u64
      → (issue_auth_token lsql red token login id user).1 ≡ done (some t)
      → game.auth_token_prefix ≡ login.auth_token_prefix
      → red.stored game.redis (game.auth_token_prefix ++ t)
        ≡ red.stored
            (issue_auth_token lsql red token login id user).0.redis
            (game.auth_token_prefix ++ t)
      → (take_auth_token gsql red game t).1 ≡ done v
      → ((on_inner can ch now s (perform (Game.backend gsql red) game (take_token t)).1).0.account
          ≡ some (record { account_id = id; user_id = user }))
        × (red.stored (take_auth_token gsql red game t).0.redis (game.auth_token_prefix ++ t)
            ≡ none)
  connect-issue token t login game id user v now s h i p kept k =
      let (value, parses, gone) =
        take-issue lsql gsql red token t login game id user v h i p kept k in
      (
        rw (performs game t v k, value)
            (logs_in now s (token_value id user) (record { account_id = id; user_id = user })
              parses),
        gone,
      )
