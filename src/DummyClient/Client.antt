-- ===== src/DummyClient/Client.antt =====
-- crates/dummy_client/src/client.rs: one client, from its login to the end of its game. The order in
-- which `select!` finds its branches ready is the order of the polls; whether a message that the
-- client answers with could be sent is part of the poll. `f32` values are their bit patterns, and
-- their addition is an argument.
pub mod Protocol
use rust_gameserver.Base.{
  ℕ, ◌≡◌, Bool, true, false, List, [], ◌∷◌, ◌++◌, Option, none, some, Bytes, if◌then◌else◌,
}
use rust_gameserver.Proto.{
  ℤ, Payload, MessageWrapper, connected_response, keep_alive_request, login_request, login_response,
  game_connect_request, game_connect_response, move_request,
}
use rust_gameserver.DummyClient.Counters.{
  Phase, login_server, game_server, Counters, on_login_started, on_moved_to_game, on_disconnected,
}

pub data Finished : Type 0 where
  disconnected : Phase → Finished
  game_connect_failed shutdown : Finished

pub data LoginPoll : Type 0 where
  stops lost : LoginPoll
  receives : MessageWrapper → (sends : Bool) → LoginPoll

pub data LoginEnd : Type 0 where
  waiting : LoginEnd
  token : Bytes → LoginEnd
  finished : Finished → LoginEnd

-- What was sent, oldest first, and how the phase ended. `waiting` is a phase that still waits after
-- the polls given.
pub record LoginTrace : Type 0 where
  pub sent : List Payload
  pub ended : LoginEnd

abbrev login_end : LoginEnd → LoginTrace
login_end e = record { sent = []; ended = e }

abbrev login_sent : Payload → LoginTrace → LoginTrace
login_sent p t = record t { sent = p ∷ t.sent }

unfoldable pub login_phase : (user_id client_hash : Bytes) → List LoginPoll → LoginTrace
login_phase user_id client_hash [] = login_end waiting
login_phase user_id client_hash (stops ∷ ps) = login_end (finished shutdown)
login_phase user_id client_hash (lost ∷ ps) = login_end (finished (disconnected login_server))
login_phase user_id client_hash (receives m sends ∷ ps) =
    let rest = login_phase user_id client_hash ps in
    elim m.payload [
      | some (connected_response _) ↦
          if sends
          then login_sent (login_request user_id client_hash) rest
          else login_end (finished (disconnected login_server))
      | some (login_response true _ auth_token) ↦ login_end (token auth_token)
      | _ ↦ rest
    ]

pub data GamePoll : Type 0 where
  stops lost : GamePoll
  receives : MessageWrapper → (sends : Bool) → GamePoll
  ticks : (sends : Bool) → GamePoll
  moved : (dx dy : ℕ) (sends : Bool) → GamePoll

-- `authenticated`: the keep-alive interval is there.
pub record GameClient : Type 0 where
  pub authenticated : Bool
  pub x : ℕ
  pub y : ℕ

pub record GameTrace : Type 0 where
  pub sent : List Payload
  pub ended : Option Finished

abbrev game_end : Option Finished → GameTrace
game_end e = record { sent = []; ended = e }

-- The rest of the loop after an attempt to send.
abbrev after_send : Bool → Payload → GameTrace → GameTrace
after_send true p t = record t { sent = p ∷ t.sent }
after_send false p t = game_end (some (disconnected game_server))

module _ (add : ℕ → ℕ → ℕ) (auth_token : Bytes) where
  unfoldable pub game_loop : GameClient → List GamePoll → GameTrace
  game_loop c [] = game_end none
  game_loop c (stops ∷ ps) = game_end (some shutdown)
  game_loop c (lost ∷ ps) = game_end (some (disconnected game_server))
  game_loop c (receives m sends ∷ ps) =
      let rest = game_loop c ps in
      let begun = game_loop (record c { authenticated = true }) ps in
      elim m.payload [
        | some (connected_response _) ↦ after_send sends (game_connect_request auth_token) rest
        | some (game_connect_response true _) ↦ begun
        | _ ↦ rest
      ]
  game_loop c (ticks sends ∷ ps) =
      let rest = game_loop c ps in
      if c.authenticated then after_send sends keep_alive_request rest else rest
  game_loop c (moved dx dy sends ∷ ps) =
      let x = add c.x dx in
      let y = add c.y dy in
      let rest = game_loop c ps in
      let there = game_loop (record c { x = x; y = y }) ps in
      if c.authenticated then after_send sends (move_request x y) there else rest

  unfoldable pub game_phase : (connects : Bool) → List GamePoll → GameTrace
  unfolding game_loop
  game_phase connects ps =
      if connects
      then game_loop (record { authenticated = false; x = 0; y = 0 }) ps
      else game_end (some game_connect_failed)

abbrev after_game : Counters → GameTrace → Counters × Option Finished
after_game c t = elim t.ended [
  | none ↦ (c, none)
  | some f ↦ (on_disconnected c game_server, some f)
]

abbrev after_login :
    (ℕ → ℕ → ℕ) → Counters → Bool → List GamePoll → LoginEnd → Counters × Option Finished
after_login add c connects games waiting = (c, none)
after_login add c connects games (finished f) = (on_disconnected c login_server, some f)
after_login add c connects games (token t) =
    after_game (on_moved_to_game c) (game_phase add t connects games)

-- The client as a whole, with the counters; `none` is a client that is still running.
unfoldable pub run :
    (ℕ → ℕ → ℕ)
    → Counters
    → (user_id client_hash : Bytes) → List LoginPoll
    → (connects : Bool) → List GamePoll
    → Counters × Option Finished
unfolding login_phase game_phase
run add c user_id client_hash logins connects games =
    after_login add (on_login_started c) connects games
      (login_phase user_id client_hash logins).ended
