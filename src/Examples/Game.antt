-- ===== src/Examples/Game.antt =====
-- crates/game_server at concrete inputs, and the hand-off from crates/login_server.
use rust_gameserver.Base.{
  ℕ, ◌≡◌, ◌≢◌, refl, false, List, [], ◌∷◌, Option, none, some, Bytes, ℕ_discrete, is_some, arith,
}
use rust_gameserver.Base.Map.{get, insert, remove as delete}
use rust_gameserver.Proto.{
  pos, MessageWrapper, connected_response, keep_alive_request, game_connect_request, move_request,
}
use rust_gameserver.Text.{split_once, parse_u64, scan}
use rust_gameserver.Net.Registry.{Registry, default, register, remove}
use rust_gameserver.Net.Registry.Lookup.{session, holder}
use rust_gameserver.Net.Registry.Exclusive.{
  Op, authenticates, registers, disconnects, run as run_ops,
}
use rust_gameserver.Net.Outbox.{break, wrap, send, send_flow}
use rust_gameserver.Net.SelectLoop.{Poll, pending, received, closed, turn, turns, event_loop, Frame}
use rust_gameserver.GameServer.Token.{Account, parse_token_value}
use rust_gameserver.GameServer.Logout.{
  record_logout, record_logout_lem, backoffs, recorded, failing,
}
use rust_gameserver.GameServer.Session.{State, InnerMessage, token_taken, on_remote, on_inner}
use rust_gameserver.GameServer.Session.Loop.{handlers, start, run, Left, shared}
use rust_gameserver.GameServer.Session.Protocol.{Answers, on_remote-Answers}
use rust_gameserver.GameServer.Session.Gate.{
  played, ByToken, unauthenticated_stays_in_lobby, authenticated-ByToken,
}
use rust_gameserver.GameServer.Session.Turn.{duplicate_login_ends_session}
use rust_gameserver.Examples.Params.{flags, queue}

abbrev ann : Account
ann = record { account_id = 7; user_id = 97 ∷ [] }

abbrev value : Bytes
value = 55 ∷ 58 ∷ 97 ∷ []

value_parses : parse_token_value value ≡ some ann
unfolding parse_token_value split_once parse_u64 scan
value_parses = refl

record_logout_lem_example :
    record_logout 0 (failing ∷ failing ∷ record { fails = false; shutdown = false } ∷ [])
    ≡ record { ended = recorded; calls = 3; delays = backoffs 0 2 }
record_logout_lem_example =
    record_logout_lem 2 0 (record { fails = false; shutdown = false }) [] (omega arith) refl

abbrev Polls : Type 0
Polls = List (Poll InnerMessage (Op ℕ))

abbrev begun : State ℕ (List ℕ) (List MessageWrapper)
begun = start flags queue 1 10 5 [] default []

on_remote-Answers_example :
    Answers flags queue
      (is_some begun.account)
      (some (game_connect_request []))
      begun
      (on_remote flags queue 6 begun (some (game_connect_request [])))
on_remote-Answers_example = on_remote-Answers flags queue 6 begun (some (game_connect_request []))

abbrev poll : ℕ → Frame → Option InnerMessage → Poll InnerMessage (Op ℕ)
poll now frame inner = record { now = now; others = []; frame = frame; inner = inner }

-- A move before authentication.
abbrev early : Polls
early =
    poll 6 (received (wrap keep_alive_request)) none
    ∷ poll 7 (received (wrap (move_request 1 2))) none
    ∷ []

early_account : (played flags queue 10 10 1 5 [] default [] early).account ≡ none
unfolding event_loop turns turn start send_flow send on_remote run_ops register
early_account = refl

unauthenticated_stays_in_lobby_example :
    ((played flags queue 10 10 1 5 [] default [] early).world_id ≡ 0)
    × ((played flags queue 10 10 1 5 [] default [] early).position ≡ (0, 0))
unauthenticated_stays_in_lobby_example =
    unauthenticated_stays_in_lobby flags queue 10 10 1 5 [] default [] early early_account

abbrev login : Polls
login = poll 6 pending (some (token_taken (some value))) ∷ []

login_account : (played flags queue 10 10 1 5 [] default [] login).account ≡ some ann
unfolding event_loop turns turn start send_flow send on_inner run_ops parse_token_value split_once
    parse_u64 scan register
login_account = refl

authenticated-ByToken_example : ByToken flags queue 10 10 login ann
authenticated-ByToken_example =
    authenticated-ByToken flags queue 10 10 1 5 [] default [] login ann login_account

-- Session 1 stands for the user, and session 2 logs in.
abbrev table : Registry ℕ
table = record {
  sessions =
      (1, record { user_id = some ann.user_id; kick = 10 })
      ∷ (2, record { user_id = none; kick = 20 })
      ∷ [];
  authenticated = (ann.user_id, 1) ∷ [];
}

abbrev playing : State ℕ (List ℕ) (List MessageWrapper)
playing = record begun { registry = table }

abbrev taken_over : Poll InnerMessage (Op ℕ)
taken_over = record {
  now = 8;
  others = disconnects 2 ∷ authenticates 2 ann.user_id ∷ registers 3 30 ∷ [];
  frame = received (wrap keep_alive_request);
  inner = none;
}

table_entry : session table 1 ≡ some (record { user_id = some ann.user_id; kick = 10 })
unfolding get ℕ_discrete
table_entry = refl

table-holder : holder table ann.user_id ≡ some 1
unfolding get
table-holder = ground arith

playing_entry :
    session playing.registry playing.session_id
    ≡ some (record { user_id = some ann.user_id; kick = 10 })
unfolding start
playing_entry = table_entry

playing_holder : holder playing.registry ann.user_id ≡ some playing.session_id
unfolding start
playing_holder = table-holder

other_session : 2 ≢ playing.session_id
unfolding start
other_session = ground arith

duplicate_login_ends_session_example :
    (turn (handlers flags queue 10 10) playing taken_over).1 ≡ break
duplicate_login_ends_session_example =
    duplicate_login_ends_session flags queue 10 10 playing taken_over 2 ann.user_id
      (record { user_id = some ann.user_id; kick = 10 }) (disconnects 2 ∷ []) (registers 3 30 ∷ [])
      playing_entry refl playing_holder other_session refl (tt, tt)

quiet : flags.is_cancelled 10 (shared flags queue playing []).tokens ≡ false
unfolding start run_ops
quiet = refl

abbrev left : Left flags queue
left = record {
  state = record {
    session = record {
      session_id = 1;
      outbox = wrap (connected_response (pos 0)) ∷ [];
      account = none;
      last_keep_alive = 5;
      world_id = 0;
      position = (0, 0);
    };
    registry = default;
    tokens = [];
    spawned = [];
  };
  logout = none;
}

ends : run flags queue 1 10 10 5 [] default [] (poll 6 closed none ∷ []) [] ≡ some left
unfolding run turn send_flow send run_ops register remove get insert delete ℕ_discrete
ends = refl
