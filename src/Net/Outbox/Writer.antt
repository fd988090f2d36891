-- ===== src/Net/Outbox/Writer.antt =====
-- The writer task, `write_loop` of crates/net/src/outbox.rs. `FramedWrite` is tokio's, so it is the
-- parameter `Sink`.
pub mod Order
use rust_gameserver.Base.{
  ℕ, ◌≡◌, refl, sym, ◌∙◌, ◌⊎◌, inl, inr, Bool, true, false, List, [], ◌∷◌, ◌++◌, append_assoc,
  append-nil, arith, Bool-cases, if◌then◌else◌, ap,
}
use rust_gameserver.Proto.{MessageWrapper}
use rust_gameserver.Net.Cancellation.{Cancellation}

-- `feed` and `flush`, which tell whether they succeeded; `fed` is what was fed without an error.
pub record Sink (K : Type 0) : Type 0 where
  pub feed : K → MessageWrapper → K × Bool
  pub flush : K → K × Bool
  pub fed : K → List MessageWrapper
  pub feeds :
      (k : K) (m : MessageWrapper) → (feed k m).1 ≡ true → fed (feed k m).0 ≡ fed k ++ m ∷ []
  pub rejects : (k : K) (m : MessageWrapper) → (feed k m).1 ≡ false → fed (feed k m).0 ≡ fed k
  pub flush_keeps : (k : K) → fed (flush k).0 ≡ fed k

-- What `recv` brings and what `try_recv` then finds.
pub record Batch : Type 0 where
  pub first : MessageWrapper
  pub more : List MessageWrapper

abbrev pub in_batch : Batch → List MessageWrapper
in_batch b = b.first ∷ b.more

abbrev pub queued : List Batch → List MessageWrapper
queued [] = []
queued (b ∷ bs) = in_batch b ++ queued bs

module _ {K : Type 0} (sink : Sink K) where
  unfoldable pub feed_all : K → List MessageWrapper → K × Bool
  feed_all k [] = (k, true)
  feed_all k (m ∷ ms) =
      let (k', fine) = sink.feed k m in
      let rest = feed_all k' ms in if fine then rest else (k', false)

  -- The list ends when the channel is closed.
  unfoldable pub write_batches : K → List Batch → K × Bool
  unfolding feed_all
  write_batches k [] = (k, true)
  write_batches k (b ∷ bs) =
      let (fed_k, fine) = feed_all k (in_batch b) in
      let (k', flushed) = sink.flush fed_k in
      let rest = write_batches k' bs in
      if fine then if flushed then rest else (k', false) else (fed_k, false)

  unfoldable pub write_loop :
      {Token Store : Type 0} → Cancellation Token Store → Token → Store → K → List Batch → K × Store
  unfolding write_batches
  write_loop can kick st k bs =
      let (k', fine) = write_batches k bs in (k', if fine then st else can.cancel kick st)
