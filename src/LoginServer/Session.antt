-- ===== src/LoginServer/Session.antt =====
-- crates/login_server/src/session.rs: one task for each connection, which owns the session's state.
-- A handler takes the time and the state, and returns the state and whether the loop goes on. A
-- login that the source hands to another task is noted in `spawned`; its outcome comes back as an
-- inner message.
pub mod RateLimit
pub mod Protocol
pub mod Context
pub mod Loop
pub mod Task
use rust_gameserver.Base.{
  ℕ, ◌+◌, ◌-◌, ◌%◌, Bool, true, false, not, ◌||◌, List, [], ◌∷◌, ◌++◌, Option, none, some, Bytes,
  is_some, is_empty, leb, if◌then◌else◌,
}
use rust_gameserver.Proto.{
  ℤ, pos, Payload, MessageWrapper, keep_alive_request, login_request, login_response,
  error_response,
}
use rust_gameserver.Net.Consts.{from_secs, u32_mod}
use rust_gameserver.Net.Cancellation.{Cancellation}
use rust_gameserver.Net.Registry.{Registry}
use rust_gameserver.Net.Registry as Registries
use rust_gameserver.Net.Outbox.{Channel, ControlFlow, continue, break, send_flow}
use rust_gameserver.LoginServer.Authenticate.{
  LoginErrorCode, success, invalid_credentials, rate_limited, to_i32, Account, LoginOutcome,
  logged_in, failure, db_error,
}

abbrev pub login_attempts_per_window : ℕ
login_attempts_per_window = 5

abbrev pub login_attempt_window : ℕ
login_attempt_window = from_secs 60

abbrev pub db_error_code : ℤ
db_error_code = pos 3

-- The future that `on_login_request` spawns: `authenticate` on these.
pub record Work : Type 0 where
  pub user_id : Bytes
  pub password_hash : Bytes

pub record Session (C : Type 0) : Type 0 where
  pub session_id : ℕ
  pub outbox : C
  pub account : Option Account
  pub last_keep_alive : ℕ
  pub login_window : Option ℕ
  pub login_attempts : ℕ

-- A session with what it shares and what it has spawned, oldest first.
pub record State (Token Store C : Type 0) : Type 0 where
  pub session : Session C
  pub open session use *
  pub registry : Registry Token
  pub tokens : Store
  pub spawned : List Work

abbrev window_over : Option ℕ → ℕ → Bool
window_over none now = true
window_over (some start) now = leb login_attempt_window (now - start)

-- In a build without overflow checks the count of attempts wraps.
unfoldable pub try_consume_login_attempt : {C : Type 0} → ℕ → Session C → Session C × Bool
try_consume_login_attempt now s =
    let fresh = window_over s.login_window now in
    let window = if fresh then some now else s.login_window in
    let attempts = ((if fresh then 0 else s.login_attempts) + 1) % u32_mod in
    (
      record s { login_window = window; login_attempts = attempts },
      leb attempts login_attempts_per_window,
    )

module _ {Token Store C : Type 0} (can : Cancellation Token Store) (ch : Channel C) where
  abbrev pub send : State Token Store C → Payload → State Token Store C × ControlFlow
  send s payload =
      let (outbox, flow) = send_flow ch s.outbox payload in
      (record s { session = record s.session { outbox = outbox } }, flow)

  abbrev send_login_failure :
      State Token Store C → LoginErrorCode → State Token Store C × ControlFlow
  send_login_failure s code = send s (login_response false (to_i32 code) [])

  -- What follows the attempt, by whether it is within the limit.
  abbrev after_attempt :
      State Token Store C → Bytes → Bytes → Bool → State Token Store C × ControlFlow
  after_attempt s user_id password_hash false = send_login_failure s rate_limited
  after_attempt s user_id password_hash true =
      if is_empty user_id || is_empty password_hash
      then send_login_failure s invalid_credentials
      else (
        record s {
          spawned = s.spawned ++ record { user_id = user_id; password_hash = password_hash } ∷ [];
        },
        continue,
      )

  unfoldable pub on_login_request :
      ℕ → State Token Store C → Bytes → Bytes → State Token Store C × ControlFlow
  unfolding try_consume_login_attempt
  on_login_request now s user_id password_hash =
      if is_some s.account
      then send_login_failure s invalid_credentials
      else (let (session, within) = try_consume_login_attempt now s.session in
          after_attempt (record s { session = session }) user_id password_hash within)

  abbrev gated : State Token Store C → State Token Store C × ControlFlow
  gated s = if not (is_some s.account) then (s, break) else (s, continue)

  unfoldable pub on_remote :
      ℕ → State Token Store C → Option Payload → State Token Store C × ControlFlow
  unfolding on_login_request
  on_remote now s (some (login_request user_id password_hash)) =
      on_login_request now s user_id password_hash
  on_remote now s (some keep_alive_request) =
      (record s { session = record s.session { last_keep_alive = now } }, continue)
  on_remote now s payload = gated s

  -- The kick of an older session of the user comes before the response.
  unfoldable pub on_login_outcome :
      ℕ → State Token Store C → LoginOutcome → State Token Store C × ControlFlow
  on_login_outcome now s (logged_in account token) =
      let (registry, tokens) =
        Registries.authenticate can s.registry s.tokens s.session_id account.user_id in
      send
        (record s {
          session = record s.session { account = some account; last_keep_alive = now };
          registry = registry;
          tokens = tokens;
        })
        (login_response true (to_i32 success) token)
  on_login_outcome now s (failure code) = send_login_failure s code
  on_login_outcome now s db_error = send s (error_response db_error_code)
