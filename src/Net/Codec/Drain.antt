-- ===== src/Net/Codec/Drain.antt =====
-- The receive loop that `FramedRead` runs over the decoder of crates/net/src/codec.rs: append what
-- has arrived, then decode until the decoder waits or fails.
use rust_gameserver.Base.{
  ℕ, zero, suc, ◌<◌, ◌≡◌, refl, List, [], ◌∷◌, ◌++◌, Option, none, some, Bytes, length,
  length-append, arith, ap, ◌∙◌, inl, inr, ◌⊎◌,
}
use rust_gameserver.Proto.{MessageWrapper}
use rust_gameserver.Net.Stats.{Stats}
use rust_gameserver.Net.Codec.{Prost, CodecError, DecodeResult, ok, err, Decoded, decode_frame}
use rust_gameserver.Net.Codec.Prefix.{decode_frame-append, decode_frame_waits, decode_frame_sound}

pub record Drained : Type 0 where
  pub messages : List MessageWrapper
  pub src : Bytes
  pub stats : Stats
  pub error : Option CodecError

abbrev pub after_messages : List MessageWrapper → Drained → Drained
after_messages ms d = record d { messages = ms ++ d.messages }

module _ (p : Prost) where
  -- One more round for each byte is enough.
  unfoldable pub drain : ℕ → Bytes → Stats → Drained
  drain zero src st = record { messages = []; src = src; stats = st; error = none }
  drain (suc fuel) src st =
      let d = decode_frame p src st in
      elim d.result [
        | ok (some m) ↦ after_messages (m ∷ []) (drain fuel d.src d.stats)
        | ok none ↦ record { messages = []; src = d.src; stats = d.stats; error = none }
        | err e ↦ record { messages = []; src = d.src; stats = d.stats; error = some e }
      ]

  result-cases :
      (r : DecodeResult)
      → (r ≡ ok none)
        ⊎ ((m : MessageWrapper) × (r ≡ ok (some m)))
        ⊎ ((e : CodecError) × (r ≡ err e))
  result-cases (ok none) = inl refl
  result-cases (ok (some m)) = inr (inl (m, refl))
  result-cases (err e) = inr (inr (e, refl))

  shrinks :
      (src : Bytes) (st : Stats) (m : MessageWrapper)
      → (decode_frame p src st).result ≡ ok (some m)
      → length (decode_frame p src st).src < length src
  shrinks src st m h =
      let found = decode_frame_sound p src st m h in
      omega (arith, ap length found.3, length-append found.2 (decode_frame p src st).src)

  pub drain-none :
      (f : ℕ) (src : Bytes) (st : Stats)
      → (decode_frame p src st).result ≡ ok none
      → drain (suc f) src st ≡ record { messages = []; src = src; stats = st; error = none }
  unfolding drain
  drain-none f src st h = rw (h, drain) (ground (arith, decode_frame_waits p src st h))

  pub drain-some :
      (f : ℕ) (src : Bytes) (st : Stats) (m : MessageWrapper)
      → (decode_frame p src st).result ≡ ok (some m)
      → drain (suc f) src st
        ≡ after_messages
            (m ∷ [])
            (drain f (decode_frame p src st).src (decode_frame p src st).stats)
  unfolding drain
  drain-some f src st m h = rw (h, drain)

  drain_err :
      (f : ℕ) (src : Bytes) (st : Stats) (e : CodecError)
      → (decode_frame p src st).result ≡ err e
      → drain (suc f) src st ≡ record {
        messages = [];
        src = (decode_frame p src st).src;
        stats = (decode_frame p src st).stats;
        error = some e;
      }
  unfolding drain
  drain_err f src st e h = rw (h, drain)

  -- Fuel above the number of bytes makes no difference.
  pub drain_fuel :
      (f g : ℕ) (src : Bytes) (st : Stats)
      → length src < f
      → length src < g
      → drain f src st ≡ drain g src st
  drain_fuel zero g src st lf lg = absurd (omega arith)
  drain_fuel (suc f) zero src st lf lg = absurd (omega arith)
  drain_fuel (suc f) (suc g) src st lf lg = elim (result-cases (decode_frame p src st).result) [
    | inl h ↦ rw (drain-none f src st h, drain-none g src st h)
    | inr (inl (m, h)) ↦
        rw (drain-some f src st m h, drain-some g src st m h)
          (ap (after_messages (m ∷ [])) (
            drain_fuel f g (decode_frame p src st).src (decode_frame p src st).stats
              (omega (arith, shrinks src st m h)) (omega (arith, shrinks src st m h))))
    | inr (inr (e, h)) ↦ rw (drain_err f src st e h, drain_err g src st e h)
  ]

  append_some :
      (f g h : ℕ) (src more : Bytes) (st : Stats) (m : MessageWrapper)
      → (decode_frame p src st).result ≡ ok (some m)
      → (let d = decode_frame p src st in
          drain g (d.src ++ more) d.stats
          ≡ after_messages
              (drain f d.src d.stats).messages
              (drain h ((drain f d.src d.stats).src ++ more) (drain f d.src d.stats).stats))
      → drain (suc g) (src ++ more) st
        ≡ after_messages
            (drain (suc f) src st).messages
            (drain h ((drain (suc f) src st).src ++ more) (drain (suc f) src st).stats)
  append_some f g h src more st m r ih =
      let a = decode_frame-append p src more st (λ n. cc) in
      let left = drain-some g (src ++ more) st m (ap (λ (d : Decoded). d.result) a ∙ r) in
      rw (left, a, drain-some f src st m r) (ap (after_messages (m ∷ [])) ih)

  -- Draining what has arrived, and then what is left with the bytes that arrive next, is draining
  -- all of it at once.
  pub drain-append :
      (f g h : ℕ) (src more : Bytes) (st : Stats)
      → length src < f
      → length (src ++ more) < g
      → length ((drain f src st).src ++ more) < h
      → (drain f src st).error ≡ none
      → drain g (src ++ more) st
        ≡ after_messages
            (drain f src st).messages
            (drain h ((drain f src st).src ++ more) (drain f src st).stats)
  drain-append zero g h src more st lf lg lh e = absurd (omega arith)
  drain-append (suc f) zero h src more st lf lg lh e = absurd (omega arith)
  drain-append (suc f) (suc g) h src more st lf lg lh e =
      elim (result-cases (decode_frame p src st).result) [
        | inl r ↦
            rw (drain-none f src st r)
              (drain_fuel (suc g) h (src ++ more) st lg (rw (drain-none f src st r) at lh))
        | inr (inl (m, r)) ↦
            let d = decode_frame p src st in
            append_some f g h src more st m r (
              drain-append f g h d.src more d.stats (omega (arith, shrinks src st m r))
                (omega
                  (arith, shrinks src st m r, length-append src more, length-append d.src more))
                (rw (drain-some f src st m r) at lh) (rw (drain-some f src st m r) at e))
        | inr (inr (x, r)) ↦ absurd (cc (drain_err f src st x r))
      ]

  pub append_err :
      (f g : ℕ) (src more : Bytes) (st : Stats) (e : CodecError)
      → length src < f
      → length (src ++ more) < g
      → (drain f src st).error ≡ some e
      → drain g (src ++ more) st ≡ record (drain f src st) { src = (drain f src st).src ++ more }
  append_err zero g src more st e lf lg h = absurd (omega arith)
  append_err (suc f) zero src more st e lf lg h = absurd (omega arith)
  append_err (suc f) (suc g) src more st e lf lg h =
      elim (result-cases (decode_frame p src st).result) [
        | inl r ↦ absurd (cc (drain-none f src st r))
        | inr (inl (m, r)) ↦
            let d = decode_frame p src st in
            let a = decode_frame-append p src more st (λ n. cc) in
            let ih =
              append_err f g d.src more d.stats e (omega (arith, shrinks src st m r))
                (omega
                  (arith, shrinks src st m r, length-append src more, length-append d.src more))
                (rw (drain-some f src st m r) at h) in
            rw
              (
                drain-some g (src ++ more) st m (ap (λ (x : Decoded). x.result) a ∙ r),
                a,
                drain-some f src st m r,
              )
              (ap (after_messages (m ∷ [])) ih)
        | inr (inr (x, r)) ↦
            let a = decode_frame-append p src more st (λ n. cc) in
            rw (
              drain_err g (src ++ more) st x (ap (λ (y : Decoded). y.result) a ∙ r),
              a,
              drain_err f src st x r,
            )
      ]
