-- ===== src/GameServer/Serve.antt =====
-- `serve` of crates/game_server/src/lib.rs over the tasks of crates/game_server/src/session.rs.
pub mod Task
pub mod Sessions
pub mod Tokens
pub mod Logout
use rust_gameserver.Base.{ℕ, Bool, true, false, List, [], Option, none, some, Bytes}
use rust_gameserver.Proto.{pos, connected_response}
use rust_gameserver.Net.Cancellation.{Cancellation}
use rust_gameserver.Net.Registry.{Registry}
use rust_gameserver.Net.Registry.Exclusive.{Op}
use rust_gameserver.Net.Outbox.{Channel, ControlFlow, send_flow}
use rust_gameserver.Net.SelectLoop.{Poll, turn}
use rust_gameserver.Net.Server.Interface.{Passed, Backing}
use rust_gameserver.GameServer.Token.{Account}
use rust_gameserver.GameServer.Session.{Session, InnerMessage, Work, perform}
use rust_gameserver.GameServer.Backend.{Backend}
use rust_gameserver.Redis.{Reply, done, failed}
use rust_gameserver.GameServer.Session.Loop.{handlers}

abbrev pub user_of : Option Account → Option Bytes
user_of none = none
user_of (some a) = some a.user_id

abbrev is_done : Reply (Unit {0}) → Bool
is_done (done _) = true
is_done failed = false

-- One attempt of `record_logout`.
abbrev pub logout_of : {B : Type 0} → Backend B → Option Account → Option (B → B × Bool)
logout_of backend none = none
logout_of backend (some a) =
    some (λ b. let (b', reply) = backend.touch_last_login b a.account_id in (b', is_done reply))

-- What the tasks do to the stores.
unfoldable pub backing : {B C : Type 0} → Backend B → Backing B (Session C) Work InnerMessage
backing backend = record { perform = perform backend; logout = λ x. logout_of backend x.account }

module _ {Token Store C : Type 0} (can : Cancellation Token Store) (ch : Channel C) where
  -- What the event loop sends first.
  unfoldable pub greet : Session C → Session C × ControlFlow
  greet x =
      let (outbox, flow) = send_flow ch x.outbox (connected_response (pos 0)) in
      (record x { outbox = outbox }, flow)

  -- One pass of the event loop of a session whose keep-alive timeout is `timeout`.
  unfoldable pub pass :
      ℕ
      → Token
      → Registry Token
      → Store
      → Session C
      → Poll InnerMessage (Op Token)
      → Passed Token Store (Session C) Work
  pass timeout kick r st x p =
      let (s, flow) =
        turn (handlers can ch kick timeout)
          (record { session = x; registry = r; tokens = st; spawned = [] }) p in
      record {
        own = s.session;
        registry = s.registry;
        tokens = s.tokens;
        work = s.spawned;
        flow = flow;
      }
