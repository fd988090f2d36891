-- ===== src/Net/Outbox/Writer/Order.antt =====
-- The order of what the writer of crates/net/src/outbox.rs hands to the socket.
use rust_gameserver.Base.{◌≡◌, ◌⊎◌, Bool, true, false, List, ◌++◌}
use rust_gameserver.Proto.{MessageWrapper}
use rust_gameserver.Net.Cancellation.{Cancellation}
use rust_gameserver.Net.Outbox.Writer.{Sink}

module _ {K : Type 0} (sink : Sink K) where
  -- The sink is as a write that failed has left it.
  abbrev pub HasFailed : K → Type 0
  HasFailed k' =
      (k : K) × (((m : MessageWrapper) × (sink.feed k m ≡ (k', false)))
        ⊎ (sink.flush k ≡ (k', false)))

  -- What was fed is all of a list, or, after an error, a part of it from its front.
  abbrev pub Fed : K → List MessageWrapper → K × Bool → Type 0
  Fed k ms r =
      ((r.1 ≡ true) × (sink.fed r.0 ≡ sink.fed k ++ ms))
      ⊎ ((r.1 ≡ false)
          × HasFailed r.0
          × (front : List MessageWrapper) × (back : List MessageWrapper) × (ms ≡ front ++ back)
          × (sink.fed r.0 ≡ sink.fed k ++ front))
