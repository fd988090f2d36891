-- ===== src/Net/Outbox.antt =====
-- crates/net/src/outbox.rs: the sending half of a session. The bounded channel to the writer task is
-- tokio's, so it is the parameter `Channel`.
pub mod Sent
pub mod Writer
pub mod Handle
use rust_gameserver.Base.{
  ℕ, ◌≡◌, ◌≢◌, refl, ◌⊎◌, inl, inr, List, [], ◌∷◌, ◌++◌, Option, none, some, arith,
}
use rust_gameserver.Proto.{ℤ, pos, Payload, MessageWrapper}

pub data TrySend : Type 0 where
  accepted full closed : TrySend

-- `mpsc::Sender<MessageWrapper>`, with what `try_send` documents: it appends the message, or refuses
-- it and leaves the channel as it was. `sent` is what the channel has accepted, oldest first.
pub record Channel (C : Type 0) : Type 0 where
  pub try_send : C → MessageWrapper → C × TrySend
  pub sent : C → List MessageWrapper
  pub accepts :
      (c : C) (m : MessageWrapper)
      → (try_send c m).1 ≡ accepted
      → sent (try_send c m).0 ≡ sent c ++ m ∷ []
  pub refuses :
      (c : C) (m : MessageWrapper) → (try_send c m).1 ≢ accepted → sent (try_send c m).0 ≡ sent c

pub data SendResult : Type 0 where
  ok : SendResult
  send_queue_full : SendResult

pub data ControlFlow : Type 0 where
  continue break : ControlFlow

pub flow-cases : (f : ControlFlow) → (f ≡ continue) ⊎ (f ≡ break)
flow-cases continue = inl refl
flow-cases break = inr refl

abbrev pub wrap : Payload → MessageWrapper
wrap payload = record { message_size = pos 0; payload = some payload }

module _ {C : Type 0} (ch : Channel C) where
  abbrev send_result : TrySend → SendResult
  send_result accepted = ok
  send_result full = send_queue_full
  send_result closed = send_queue_full

  unfoldable pub send : C → Payload → C × SendResult
  send tx payload = let (tx', r) = ch.try_send tx (wrap payload) in (tx', send_result r)

  abbrev flow_of : SendResult → ControlFlow
  flow_of ok = continue
  flow_of send_queue_full = break

  unfoldable pub send_flow : C → Payload → C × ControlFlow
  send_flow tx payload = let (tx', r) = send tx payload in (tx', flow_of r)
