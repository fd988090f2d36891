-- ===== src/Conversation.antt =====
-- A client of crates/dummy_client/src/client.rs and the sessions of the two servers that it talks to:
-- each side's messages are what the other receives.
pub mod Login
pub mod Enter
pub mod Play
use rust_gameserver.Base.{◌≡◌, inl, inr, [], ◌∷◌, ◌++◌}
use rust_gameserver.Proto.{Payload}
use rust_gameserver.Net.Outbox.{Channel, continue, wrap, send_flow}
use rust_gameserver.Net.Outbox.Sent.{send_flow_lem}

-- A message that goes through is the last in the channel.
pub sent_through :
    {C : Type 0} (ch : Channel C) (tx : C) (p : Payload)
    → (send_flow ch tx p).1 ≡ continue
    → ch.sent (send_flow ch tx p).0 ≡ ch.sent tx ++ wrap p ∷ []
sent_through ch tx p h = elim (send_flow_lem ch tx p) [ inl (f, e) ↦ e | inr (f, e) ↦ absurd (cc) ]
