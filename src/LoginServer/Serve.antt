-- ===== src/LoginServer/Serve.antt =====
-- `serve` of crates/login_server/src/lib.rs over the tasks of crates/login_server/src/session.rs.
pub mod Task
pub mod Sessions
use rust_gameserver.Db.Password.{Crypto}
use rust_gameserver.LoginServer.Backend.{Backend}
use rust_gameserver.Base.{Bool, ℕ, List, [], Option, none, some, Bytes}
use rust_gameserver.Proto.{pos, connected_response}
use rust_gameserver.Net.Cancellation.{Cancellation}
use rust_gameserver.Net.Registry.{Registry}
use rust_gameserver.Net.Registry.Exclusive.{Op}
use rust_gameserver.Net.Outbox.{Channel, ControlFlow, send_flow}
use rust_gameserver.Net.SelectLoop.{Poll, turn}
use rust_gameserver.Net.Server.Interface.{Passed, Backing}
use rust_gameserver.LoginServer.Authenticate.{Account, LoginOutcome, authenticate}
use rust_gameserver.LoginServer.Session.{Session, Work}
use rust_gameserver.LoginServer.Session.Loop.{handlers}

abbrev pub user_of : Option Account → Option Bytes
user_of none = none
user_of (some a) = some a.user_id

module _ {Token Store C : Type 0} (can : Cancellation Token Store) (ch : Channel C) where
  -- What the event loop sends first.
  unfoldable pub greet : Session C → Session C × ControlFlow
  greet x =
      let (outbox, flow) = send_flow ch x.outbox (connected_response (pos 0)) in
      (record x { outbox = outbox }, flow)

  -- One pass of the event loop of a session whose keep-alive timeout is `timeout`.
  unfoldable pub pass :
      ℕ
      → Token
      → Registry Token
      → Store
      → Session C
      → Poll LoginOutcome (Op Token)
      → Passed Token Store (Session C) Work
  pass timeout kick r st x p =
      let (s, flow) =
        turn (handlers can ch kick timeout)
          (record { session = x; registry = r; tokens = st; spawned = [] }) p in
      record {
        own = s.session;
        registry = s.registry;
        tokens = s.tokens;
        work = s.spawned;
        flow = flow;
      }

-- The spawned login. `joins` tells whether the blocking task that hashes delivers its result.
unfoldable pub perform :
    {B : Type 0} → Backend B → Crypto → (B → Work → Bool) → B → Work → B × LoginOutcome
perform backend c joins b w = authenticate backend c (joins b w) b w.user_id w.password_hash

-- What the tasks do to the stores; a session writes nothing behind its loop.
unfoldable pub backing :
    {B C : Type 0}
    → Backend B
    → Crypto
    → (B → Work → Bool)
    → Backing B (Session C) Work LoginOutcome
unfolding perform
backing backend c joins = record { perform = perform backend c joins; logout = λ x. none }
