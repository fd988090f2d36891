-- ===== src/GameServer/Session.antt =====
-- crates/game_server/src/session.rs: one task for each connection, which owns the session's state.
-- A handler takes the time and the state, and returns the state and whether the loop goes on. Work
-- that the source hands to another task is noted in `spawned`; its result comes back as an inner
-- message. The registry and the kick tokens are shared with the other sessions.
pub mod Loop
pub mod Protocol
pub mod Context
pub mod Gate
pub mod Turn
pub mod Task
pub mod Spawn
use rust_gameserver.Base.{
  ℕ, ◌+◌, ◌≡◌, Bool, true, false, not, ◌||◌, List, [], ◌∷◌, ◌++◌, Option, none, some, Bytes,
  is_some, is_empty, if◌then◌else◌,
}
use rust_gameserver.Proto.{
  ℤ, pos, Payload, MessageWrapper, connected_response, keep_alive_request, enter_world_request,
  enter_world_response, error_response, game_over_report, game_over_response, move_request,
  move_response, game_connect_request, game_connect_response,
}
use rust_gameserver.Net.Cancellation.{Cancellation}
use rust_gameserver.Net.Registry.{Registry, authenticate}
use rust_gameserver.Net.Outbox.{Channel, ControlFlow, continue, break, send_flow}
use rust_gameserver.Redis.{Reply, done, failed}
use rust_gameserver.GameServer.Token.{Account, parse_token_value}
use rust_gameserver.GameServer.Backend.{Backend}

abbrev pub db_error_code : ℤ
db_error_code = pos 3

pub data GameConnectErrorCode : Type 0 where
  success invalid_token : GameConnectErrorCode

abbrev pub to_i32 : GameConnectErrorCode → ℤ
to_i32 success = pos 0
to_i32 invalid_token = pos 1

abbrev pub is_success : GameConnectErrorCode → Bool
is_success success = true
is_success invalid_token = false

pub data InnerMessage : Type 0 where
  token_taken : Option Bytes → InnerMessage
  score_saved db_error : InnerMessage

-- The futures that `spawn_inner` is given.
pub data Work : Type 0 where
  take_token : (token : Bytes) → Work
  save : (account_id : ℕ) (score kill_count survive_seconds : ℤ) → Work

abbrev token_message : Reply (Option Bytes) → InnerMessage
token_message (done value) = token_taken value
token_message failed = db_error

abbrev saved_message : Reply (Unit {0}) → InnerMessage
saved_message (done _) = score_saved
saved_message failed = db_error

unfoldable pub perform : {B : Type 0} → Backend B → B → Work → B × InnerMessage
perform backend b (take_token token) =
    let (b', reply) = backend.take_auth_token b token in (b', token_message reply)
perform backend b (save account_id score kill_count survive_seconds) =
    let (b', reply) = backend.save_score b account_id score kill_count survive_seconds in
    (b', saved_message reply)

pub record Session (C : Type 0) : Type 0 where
  pub session_id : ℕ
  pub outbox : C
  pub account : Option Account
  pub last_keep_alive : ℕ
  -- 0 is the lobby.
  pub world_id : ℕ
  -- The bit patterns of two `f32`.
  pub position : ℕ × ℕ

-- A session with what it shares and what it has spawned, oldest first.
pub record State (Token Store C : Type 0) : Type 0 where
  pub session : Session C
  pub open session use *
  pub registry : Registry Token
  pub tokens : Store
  pub spawned : List Work

module _ {Token Store C : Type 0} (can : Cancellation Token Store) (ch : Channel C) where
  abbrev send : State Token Store C → Payload → State Token Store C × ControlFlow
  send s payload =
      let (outbox, flow) = send_flow ch s.outbox payload in
      (record s { session = record s.session { outbox = outbox } }, flow)

  abbrev spawn_inner : State Token Store C → Work → State Token Store C
  spawn_inner s work = record s { spawned = s.spawned ++ work ∷ [] }

  abbrev send_game_connect :
      State Token Store C → GameConnectErrorCode → State Token Store C × ControlFlow
  send_game_connect s code = send s (game_connect_response (is_success code) (to_i32 code))

  unfoldable pub on_game_connect_request :
      State Token Store C → Bytes → State Token Store C × ControlFlow
  on_game_connect_request s token =
      if is_some s.account || is_empty token
      then send_game_connect s invalid_token
      else (spawn_inner s (take_token token), continue)

  unfoldable pub on_game_over_report :
      State Token Store C → ℤ → ℤ → ℤ → State Token Store C × ControlFlow
  on_game_over_report s score kill_count survive_seconds = elim s.account [
    | none ↦ (s, continue)
    | some a ↦ (spawn_inner s (save a.account_id score kill_count survive_seconds), continue)
  ]

  -- The messages that are handled only after authentication.
  unfoldable pub on_authenticated_remote :
      State Token Store C → Option Payload → State Token Store C × ControlFlow
  unfolding on_game_over_report
  on_authenticated_remote s (some (move_request x y)) =
      send (record s { session = record s.session { position = (x, y) } }) (move_response true x y)
  on_authenticated_remote s (some (enter_world_request world_id)) =
      send (record s { session = record s.session { world_id = world_id } })
        (enter_world_response true)
  on_authenticated_remote s (some (game_over_report score kill_count survive_seconds)) =
      on_game_over_report s score kill_count survive_seconds
  on_authenticated_remote s other = (s, continue)

  abbrev gated : State Token Store C → Option Payload → State Token Store C × ControlFlow
  gated s payload =
      if not (is_some s.account) then (s, break) else on_authenticated_remote s payload

  unfoldable pub on_remote :
      ℕ → State Token Store C → Option Payload → State Token Store C × ControlFlow
  unfolding on_game_connect_request on_authenticated_remote
  on_remote now s (some (game_connect_request auth_token)) = on_game_connect_request s auth_token
  on_remote now s (some keep_alive_request) =
      (record s { session = record s.session { last_keep_alive = now } }, continue)
  on_remote now s payload = gated s payload

  -- The kick of an older session of the user comes before the response.
  unfoldable pub on_authenticated :
      ℕ → State Token Store C → Account → State Token Store C × ControlFlow
  on_authenticated now s account =
      let (registry, tokens) = authenticate can s.registry s.tokens s.session_id account.user_id in
      send_game_connect
        (record s {
          session = record s.session { account = some account; last_keep_alive = now };
          registry = registry;
          tokens = tokens;
        })
        success

  abbrev parse_value : Option Bytes → Option Account
  parse_value none = none
  parse_value (some value) = parse_token_value value

  abbrev on_token : ℕ → State Token Store C → Option Account → State Token Store C × ControlFlow
  on_token now s (some account) = on_authenticated now s account
  on_token now s none = send_game_connect s invalid_token

  unfoldable pub on_inner :
      ℕ → State Token Store C → InnerMessage → State Token Store C × ControlFlow
  unfolding on_authenticated
  on_inner now s (token_taken value) = on_token now s (parse_value value)
  on_inner now s score_saved = send s (game_over_response true)
  on_inner now s db_error = send s (error_response db_error_code)
