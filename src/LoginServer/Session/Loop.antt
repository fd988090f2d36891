-- ===== src/LoginServer/Session/Loop.antt =====
-- The event loop and the task of crates/login_server/src/session.rs.
use rust_gameserver.Base.{ℕ, ◌+◌, Bool, true, false, List, [], Option, none, some}
use rust_gameserver.Proto.{pos, connected_response}
use rust_gameserver.Net.Cancellation.{Cancellation}
use rust_gameserver.Net.Registry.{Registry, register, remove}
use rust_gameserver.Net.Registry.Exclusive.{Op, run as run_ops}
use rust_gameserver.Net.Outbox.{Channel}
use rust_gameserver.Net.SelectLoop.{Handlers, Poll, turns, event_loop}
use rust_gameserver.LoginServer.Authenticate.{Account, LoginOutcome}
use rust_gameserver.LoginServer.Session.{State, Session, send, on_remote, on_login_outcome}

-- Only an authenticated session has a keep-alive deadline.
abbrev keep_alive_deadline : Option Account → ℕ → ℕ → Option ℕ
keep_alive_deadline none last_keep_alive timeout = none
keep_alive_deadline (some _) last_keep_alive timeout = some (last_keep_alive + timeout)

module _ {Token Store C : Type 0} (can : Cancellation Token Store) (ch : Channel C) where
  -- The shared state as a pass finds it.
  abbrev pub shared : State Token Store C → List (Op Token) → State Token Store C
  shared s ops =
      let (registry, tokens) = run_ops can (s.registry, s.tokens) ops in
      record s { registry = registry; tokens = tokens }

  abbrev pub handlers : Token → ℕ → Handlers (State Token Store C) LoginOutcome (Op Token)
  handlers kick timeout = record {
    shared = shared;
    kicked = λ s. can.is_cancelled kick s.tokens;
    send_connected = λ s. send can ch s (connected_response (pos 0));
    on_remote = on_remote can ch;
    on_inner = on_login_outcome can ch;
    keep_alive_deadline = λ s. keep_alive_deadline s.account s.last_keep_alive timeout;
  }

  abbrev pub new_session : ℕ → ℕ → C → Session C
  new_session session_id now outbox = record {
    session_id = session_id;
    outbox = outbox;
    account = none;
    last_keep_alive = now;
    login_window = none;
    login_attempts = 0;
  }

  -- The session as `run` makes it, registered under its id.
  unfoldable pub start : ℕ → Token → ℕ → C → Registry Token → Store → State Token Store C
  start session_id kick now outbox registry tokens = record {
    session = new_session session_id now outbox;
    registry = register registry session_id kick;
    tokens = tokens;
    spawned = [];
  }

  abbrev pub finish : State Token Store C × Bool → Option (State Token Store C)
  finish (s, false) = none
  finish (s, true) = some (record s { registry = remove s.registry s.session_id })

  -- `none` is a session that is still running after the polls given.
  unfoldable pub run :
      ℕ
      → Token
      → ℕ
      → ℕ
      → C
      → Registry Token
      → Store
      → List (Poll LoginOutcome (Op Token))
      → Option (State Token Store C)
  unfolding start event_loop turns
  run session_id kick timeout now outbox registry tokens ps =
      finish
        (event_loop (handlers kick timeout) (start session_id kick now outbox registry tokens) ps)
