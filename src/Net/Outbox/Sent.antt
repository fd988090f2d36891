-- ===== src/Net/Outbox/Sent.antt =====
-- What crates/net/src/outbox.rs hands to the writer task.
use rust_gameserver.Base.{◌≡◌, ◌⊎◌, [], ◌∷◌, ◌++◌, arith}
use rust_gameserver.Proto.{Payload}
use rust_gameserver.Net.Outbox.{Channel, continue, break, send, send_flow, wrap}

-- A message is handed over exactly when the loop may go on.
pub send_flow_lem :
    {C : Type 0} (ch : Channel C) (tx : C) (p : Payload)
    → (((send_flow ch tx p).1 ≡ continue)
        × (ch.sent (send_flow ch tx p).0 ≡ ch.sent tx ++ wrap p ∷ []))
      ⊎ (((send_flow ch tx p).1 ≡ break) × (ch.sent (send_flow ch tx p).0 ≡ ch.sent tx))
unfolding send_flow send
send_flow_lem ch tx p = ground (arith, ch.accepts tx (wrap p), ch.refuses tx (wrap p))
