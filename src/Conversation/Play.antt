-- ===== src/Conversation/Play.antt =====
-- A client of crates/dummy_client/src/client.rs from its connection to the login server to the game:
-- the sessions and stores of both servers and Redis between them.
use rust_gameserver.Base.{
  ℕ, ◌≤◌, ◌≡◌, ◌≢◌, refl, subst, sym, ◌∙◌, ap, true, false, Bool, List, [], ◌∷◌, ◌++◌, map, Option,
  none, some, Bytes, is_empty,
}
use rust_gameserver.Proto.{MessageWrapper, login_request, game_connect_request}
use rust_gameserver.Text.{max_u64}
use rust_gameserver.Redis.{Redis, done}
use rust_gameserver.Db.Password.{Crypto, ok, verify}
use rust_gameserver.Net.Cancellation.{Cancellation}
use rust_gameserver.Net.Registry.{Registry}
use rust_gameserver.Net.Outbox.{Channel, ControlFlow, continue}
use rust_gameserver.LoginServer.Backend.{
  AccountRow, token_value, find_account, touch_last_login, issue_auth_token,
}
use rust_gameserver.LoginServer.Backend as Login
use rust_gameserver.LoginServer.Authenticate.{Account, LoginOutcome, logged_in}
use rust_gameserver.LoginServer.Authenticate.Issues.{authenticate-Issued}
use rust_gameserver.LoginServer.Session.{Work}
use rust_gameserver.LoginServer.Session.Loop as LoginLoop
use rust_gameserver.LoginServer.Serve as LoginServe
use rust_gameserver.GameServer.Token.{parse_token_value}
use rust_gameserver.GameServer.Backend.{take_auth_token}
use rust_gameserver.GameServer.Backend as Game
use rust_gameserver.GameServer.Session.{State, take_token, token_taken, perform, on_inner}
use rust_gameserver.GameServer.Session.Loop as GameLoop
use rust_gameserver.GameServer.Serve as GameServe
use rust_gameserver.DummyClient.Counters.{Counters, on_login_started, on_moved_to_game}
use rust_gameserver.DummyClient.Client.{
  LoginPoll, GamePoll, receives, token, login_phase, game_phase, game_loop, run,
}
use rust_gameserver.Handoff.{take-issue, performs}
use rust_gameserver.Conversation.Login.{work, client_logs_in}
use rust_gameserver.Conversation.Login as AtLogin
use rust_gameserver.Conversation.Enter.{client_enters}
use rust_gameserver.Conversation.Enter as AtGame

-- The client receives all that a session has sent, and can send itself.
abbrev pub login_polls : List MessageWrapper → List LoginPoll
login_polls ms = map (λ m. receives m true) ms

abbrev pub game_polls : List MessageWrapper → List GamePoll
game_polls ms = map (λ m. receives m true) ms

-- A client that receives these messages from the login server and then these from the game server
-- sends the login request, ends its login with the token `t`, sends this token, and is counted as
-- moved to the game and still running.
abbrev pub IsPlaying :
    (add : ℕ → ℕ → ℕ) (counters : Counters) (user_id client_hash t : Bytes)
    (from_login from_game : List MessageWrapper)
    → Type 0
IsPlaying add counters user_id client_hash t from_login from_game =
    (login_phase user_id client_hash (login_polls from_login)
      ≡ record { sent = login_request user_id client_hash ∷ []; ended = token t })
    × ((game_phase add t true (game_polls from_game)).sent ≡ game_connect_request t ∷ [])
    × (run add counters user_id client_hash (login_polls from_login) true (game_polls from_game)
        ≡ (on_moved_to_game (on_login_started counters), none))

replies-IsPlaying :
    (add : ℕ → ℕ → ℕ) (counters : Counters) (user_id client_hash t : Bytes)
    → IsPlaying add counters user_id client_hash t (AtLogin.replies t) AtGame.replies
unfolding run login_phase game_phase game_loop
replies-IsPlaying add counters user_id client_hash t = (refl, refl, refl)

-- The row is that of the account of `user_id`, with this password, and not banned.
abbrev pub IsPlayer :
    {D R : Type 0}
    → Login.Sql D
    → Crypto
    → Login.MySqlRedisBackend D R
    → Bytes
    → Bytes
    → AccountRow
    → Type 0
IsPlayer sql c login user_id client_hash row =
    ((sql.select_account login.pool user_id).1 ≡ done (some row))
    × (verify c client_hash row.password_hash row.salt ≡ ok true)
    × (row.status ≢ 1)

-- The token of a login that has succeeded, once the game server has looked it up.
module _ {D E R : Type 0} (lsql : Login.Sql D) (gsql : Game.Sql E) (red : Redis R) (c : Crypto)
    (joins : Login.MySqlRedisBackend D R → Work → Bool) (uuid : Bytes) where
  -- The login of `user_id` against the stores of the login server.
  abbrev pub performed :
      Login.MySqlRedisBackend D R → Bytes → Bytes → Login.MySqlRedisBackend D R × LoginOutcome
  performed login user_id client_hash =
      LoginServe.perform (Login.backend lsql red uuid) c joins login (work user_id client_hash)

  performed-IsPlayer :
      (login : Login.MySqlRedisBackend D R) (game : Game.MySqlRedisBackend E R)
      (user_id client_hash t : Bytes) (a : Account) (v : Option Bytes)
      → (performed login user_id client_hash).1 ≡ logged_in a t
      → ((row : AccountRow)
          → (lsql.select_account login.pool user_id).1 ≡ done (some row)
          → row.account_id ≤ max_u64)
      → game.auth_token_prefix ≡ login.auth_token_prefix
      → red.stored game.redis (game.auth_token_prefix ++ t)
        ≡ red.stored (performed login user_id client_hash).0.redis (game.auth_token_prefix ++ t)
      → (take_auth_token gsql red game t).1 ≡ done v
      → (row : AccountRow) × IsPlayer lsql c login user_id client_hash row
        × (v ≡ some (token_value row.account_id row.user_id))
        × (parse_token_value (token_value row.account_id row.user_id)
            ≡ some (record { account_id = row.account_id; user_id = row.user_id }))
        × (red.stored (take_auth_token gsql red game t).0.redis (game.auth_token_prefix ++ t)
            ≡ none)
  unfolding LoginServe.perform Login.backend find_account touch_last_login
  performed-IsPlayer login game user_id client_hash t a v h ids p kept k =
      let w = work user_id client_hash in
      let (row, f, verified, s, u, (i, e)) =
        authenticate-Issued (Login.backend lsql red uuid) c (joins login w) login user_id
          client_hash a t h in
      let found = (find_account lsql red login user_id).0 in
      let touched = (touch_last_login lsql red found row.account_id).0 in
      let stored = kept ∙ ap (λ b. red.stored b.redis (game.auth_token_prefix ++ t)) e in
      let (value, parses, gone) =
        take-issue lsql gsql red uuid t touched game row.account_id row.user_id v (ids row f) i p
          stored k in
      (row, (f, verified, s), value, parses, gone)

module _ {D E R : Type 0} (lsql : Login.Sql D) (gsql : Game.Sql E) (red : Redis R) (c : Crypto)
    (joins : Login.MySqlRedisBackend D R → Work → Bool) (uuid : Bytes) {Token Store C : Type 0}
    (can : Cancellation Token Store) (ch : Channel C) where
  -- The session of the game server gets the result of looking up the token.
  abbrev pub entered :
      ℕ
      → ℕ
      → C
      → Registry Token
      → Store
      → Game.MySqlRedisBackend E R
      → Bytes
      → State Token Store C × ControlFlow
  entered session_id now tx r st game t =
      on_inner can ch now (AtGame.requested can ch session_id now tx r st t)
        (perform (Game.backend gsql red) game (take_token t)).1

  entered-answered :
      (session_id now : ℕ) (tx : C) (r : Registry Token) (st : Store)
      (game : Game.MySqlRedisBackend E R) (t : Bytes) (v : Option Bytes) (value : Bytes)
      → (take_auth_token gsql red game t).1 ≡ done v
      → v ≡ some value
      → entered session_id now tx r st game t
        ≡ AtGame.answered can ch session_id now tx r st t value
  entered-answered session_id now tx r st game t v value k e =
      ap (λ m. on_inner can ch now (AtGame.requested can ch session_id now tx r st t) m)
        (performs lsql gsql red can ch game t v k ∙ ap token_taken e)

  -- A client that logs in gets into the game as the account whose password it has. Let a login with
  -- the client's user id and hash succeed at the login server, with a token `t` that is not empty;
  -- let the id of the account be a 64-bit number, the two servers agree on the key prefix, Redis
  -- still hold under the key what the login left there, and the lookup by the game server not fail;
  -- let both sessions start with an empty channel and be able to send. Then the row that the
  -- database finds for the user id has this password and no ban; the session of the game server is
  -- authenticated as its account; the token is used up; and the client, which receives exactly what
  -- the two sessions have sent, has sent its login request and then this token, and is counted as
  -- moved to the game and still running. (Neither the client's user id nor its hash is empty.)
  pub client_plays :
      (login : Login.MySqlRedisBackend D R) (game : Game.MySqlRedisBackend E R)
      (user_id client_hash t : Bytes) (a : Account) (v : Option Bytes) (l_id l_now g_id g_now : ℕ)
      (l_tx g_tx : C) (l_r g_r : Registry Token) (l_st g_st : Store) (add : ℕ → ℕ → ℕ)
      (counters : Counters)
      → (performed lsql gsql red c joins uuid login user_id client_hash).1 ≡ logged_in a t
      → ((row : AccountRow)
          → (lsql.select_account login.pool user_id).1 ≡ done (some row)
          → row.account_id ≤ max_u64)
      → game.auth_token_prefix ≡ login.auth_token_prefix
      → red.stored game.redis (game.auth_token_prefix ++ t)
        ≡ red.stored
            (performed lsql gsql red c joins uuid login user_id client_hash).0.redis
            (game.auth_token_prefix ++ t)
      → (take_auth_token gsql red game t).1 ≡ done v
      → is_empty user_id ≡ false
      → is_empty client_hash ≡ false
      → is_empty t ≡ false
      → ch.sent l_tx ≡ []
      → ch.sent g_tx ≡ []
      → (LoginServe.greet can ch (LoginLoop.new_session can ch l_id l_now l_tx)).1 ≡ continue
      → (AtLogin.answered can ch l_id l_now l_tx l_r l_st user_id client_hash a t).1 ≡ continue
      → (GameServe.greet can ch (GameLoop.new_session can ch g_id g_now g_tx)).1 ≡ continue
      → (entered g_id g_now g_tx g_r g_st game t).1 ≡ continue
      → (row : AccountRow) × IsPlayer lsql c login user_id client_hash row
        × ((entered g_id g_now g_tx g_r g_st game t).0.account
            ≡ some (record { account_id = row.account_id; user_id = row.user_id }))
        × (red.stored (take_auth_token gsql red game t).0.redis (game.auth_token_prefix ++ t)
            ≡ none)
        × IsPlaying add counters user_id client_hash t
            (ch.sent
              (AtLogin.answered can ch l_id l_now l_tx l_r l_st user_id client_hash a t).0.outbox)
            (ch.sent (entered g_id g_now g_tx g_r g_st game t).0.outbox)
  client_plays login game user_id client_hash t a v l_id l_now g_id g_now l_tx g_tx l_r g_r l_st
        g_st add counters h ids p kept k u f n le ge lg la gg ga =
      let (row, player, e, parses, gone) =
        performed-IsPlayer lsql gsql red c joins uuid login game user_id client_hash t a v h ids p
          kept k in
      let value = token_value row.account_id row.user_id in
      let same = entered-answered g_id g_now g_tx g_r g_st game t v value k e in
      let (_, _, l_sent, _) =
        client_logs_in can ch l_id l_now l_tx l_r l_st user_id client_hash a t u f lg la in
      let (_, account, g_sent, _) =
        client_enters can ch g_id g_now g_tx g_r g_st add t value
          (record { account_id = row.account_id; user_id = row.user_id }) n parses gg
          (ap (λ r. r.1) (sym same) ∙ ga) in
      let l_ms = l_sent ∙ ap (λ ms. ms ++ AtLogin.replies t) le in
      let g_ms = ap (λ r. ch.sent r.0.outbox) same ∙ g_sent ∙ ap (λ ms. ms ++ AtGame.replies) ge in
      let plays =
        subst
          (λ ms.
            IsPlaying add counters user_id client_hash t ms
              (ch.sent (entered g_id g_now g_tx g_r g_st game t).0.outbox))
          (sym l_ms)
          (subst (λ ms. IsPlaying add counters user_id client_hash t (AtLogin.replies t) ms)
            (sym g_ms) (replies-IsPlaying add counters user_id client_hash t)) in
      (row, player, ap (λ r. r.0.account) same ∙ account, gone, plays)
