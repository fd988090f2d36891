-- ===== src/Net/Codec/Chunks.antt =====
-- Frames over a connection whose bytes arrive in chunks: crates/net/src/codec.rs under `FramedRead`.
use rust_gameserver.Base.{
  ℕ, zero, suc, ◌<◌, ◌≡◌, refl, List, [], ◌∷◌, ◌++◌, Option, none, some, Bytes, length,
  length-append, append_assoc, append-nil, arith, ap, All, ◌∙◌, inl, inr, Option-cases,
}
use rust_gameserver.Proto.{MessageWrapper}
use rust_gameserver.Net.Stats.{Stats, increment_received}
use rust_gameserver.Net.Codec.{Prost, CodecError, decode_frame, Decoded}
use rust_gameserver.Net.Codec.RoundTrip.{IsSendable, frame, decode_frame-frame}
use rust_gameserver.Net.Codec.Drain.{
  Drained, drain, after_messages, drain_fuel, drain-append, append_err, drain-some,
}

abbrev pub Outcome : Type 0
Outcome = List MessageWrapper × Option CodecError

abbrev pub outcome : Drained → Outcome
outcome d = (d.messages, d.error)

abbrev prefixed : List MessageWrapper → Outcome → Outcome
prefixed ms o = (ms ++ o.0, o.1)

abbrev pub concat : List Bytes → Bytes
concat [] = []
concat (c ∷ cs) = c ++ concat cs

abbrev pub frames : Prost → List MessageWrapper → Bytes
frames p [] = []
frames p (m ∷ ms) = frame p m ++ frames p ms

module _ (p : Prost) where
  -- Chunks as they arrive from the socket; at its end the decoder is asked once more. (What
  -- `decode_eof` says of bytes that are left over then is not part of this: like the end of the
  -- stream it ends the session.)
  unfoldable pub receive : List Bytes → Bytes → Stats → Drained
  receive [] buf st = drain p (suc (length buf)) buf st
  receive (chunk ∷ chunks) buf st =
      let d = drain p (suc (length (buf ++ chunk))) (buf ++ chunk) st in
      let rest = receive chunks d.src d.stats in
      elim d.error [ none ↦ after_messages d.messages rest | some e ↦ d ]

  receive-none :
      (c : Bytes) (cs : List Bytes) (buf : Bytes) (st : Stats)
      → (let d = drain p (suc (length (buf ++ c))) (buf ++ c) st in
          d.error ≡ none
          → receive (c ∷ cs) buf st ≡ after_messages d.messages (receive cs d.src d.stats))
  unfolding receive
  receive-none c cs buf st h = rw (h, receive)

  receive-some :
      (c : Bytes) (cs : List Bytes) (buf : Bytes) (st : Stats) (e : CodecError)
      → (let d = drain p (suc (length (buf ++ c))) (buf ++ c) st in
          d.error ≡ some e → receive (c ∷ cs) buf st ≡ d)
  unfolding receive drain
  receive-some c cs buf st e h = rw (h, receive)

  drain-frames :
      (ms : List MessageWrapper) (fuel : ℕ) (st : Stats)
      → All (IsSendable p) ms
      → length (frames p ms) < fuel
      → outcome (drain p fuel (frames p ms) st) ≡ (ms, none)
  drain-frames ms zero st s h = absurd (omega arith)
  drain-frames [] (suc fuel) st s h = unfold drain decode_frame in refl
  drain-frames (m ∷ ms) (suc fuel) st s h =
      let a = decode_frame-frame p m (frames p ms) st s.0 in
      rw (drain-some p fuel (frames p (m ∷ ms)) st m (ap (λ (d : Decoded). d.result) a), a)
        (ap (prefixed (m ∷ [])) (
          drain-frames ms fuel (increment_received st) s.1
            (omega (arith, length-append (frame p m) (frames p ms)))))

  -- However the bytes of a connection are cut into chunks, the same messages come out, and the same
  -- error ends the connection, as if all of them had arrived at once.
  pub receive-drain :
      (chunks : List Bytes) (buf : Bytes) (st : Stats) (fuel : ℕ)
      → length (buf ++ concat chunks) < fuel
      → outcome (receive chunks buf st) ≡ outcome (drain p fuel (buf ++ concat chunks) st)
  receive-drain [] buf st fuel h = rw append-nil (
      unfold receive in
      (ap outcome (drain_fuel p (suc (length buf)) fuel buf st (omega arith) (rw append-nil at h))))
  receive-drain (c ∷ cs) buf st fuel h =
      let chunk = buf ++ c in
      let d = drain p (suc (length chunk)) chunk st in
      let all : length (chunk ++ concat cs) < fuel = rw append_assoc h in
      let rest = d.src ++ concat cs in
      elim (Option-cases d.error) [
        | inl e ↦
            rw
              (
                receive-none c cs buf st e,
                ← append_assoc buf c (concat cs),
                drain-append p (suc (length chunk)) fuel (suc (length rest)) chunk (concat cs) st
                    (omega arith) all (omega arith) e,
              )
              (ap (prefixed d.messages)
                (receive-drain cs d.src d.stats (suc (length rest)) (omega arith)))
        | inr (x, e) ↦ rw (
          receive-some c cs buf st x e,
          ← append_assoc buf c (concat cs),
          append_err p (suc (length chunk)) fuel chunk (concat cs) st x (omega arith) all e,
        )
      ]

  -- Any number of messages, each with a body of 1 to 8190 bytes, sent as frames and cut into chunks
  -- anywhere, come out in order and complete, with no error and nothing left over in the buffer.
  pub receive-frames :
      (ms : List MessageWrapper) (chunks : List Bytes) (st : Stats)
      → All (IsSendable p) ms
      → concat chunks ≡ frames p ms
      → outcome (receive chunks [] st) ≡ (ms, none)
  receive-frames ms chunks st s e =
      receive-drain chunks [] st (suc (length (concat chunks))) (omega arith)
      ∙ rw e (drain-frames ms (suc (length (frames p ms))) st s (omega arith))
