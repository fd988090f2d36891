-- ===== src/Net/Codec/Sender.antt =====
-- Messages sent through the encoder of crates/net/src/codec.rs, received by its decoder.
use rust_gameserver.Base.{
  ◌≤◌, ◌≡◌, refl, sym, ◌∙◌, inl, inr, List, [], ◌∷◌, ◌++◌, append_assoc, append-nil, none, Bytes,
  leb, if◌then◌else◌, All, arith, ap, Bool-cases,
}
use rust_gameserver.Proto.{MessageWrapper}
use rust_gameserver.Net.Consts.{max_message_body_size}
use rust_gameserver.Net.Stats.{Stats, increment_sent}
use rust_gameserver.Net.Codec.{Prost, IsEncodable, encode_frame}
use rust_gameserver.Net.Codec.RoundTrip.{IsSendable, frame, encode_frame_lem}
use rust_gameserver.Net.Codec.Chunks.{frames, concat, outcome, receive, receive-frames}

module _ (p : Prost) where
  -- The writer hands each message to the encoder; the buffer stands for what the socket is sent.
  unfoldable pub send_all : List MessageWrapper → Bytes → Stats → Bytes × Stats
  send_all [] dst st = (dst, st)
  send_all (m ∷ ms) dst st = let (dst', st') = encode_frame p m dst st in send_all ms dst' st'

  -- Prost reads the message back, and its body is not empty.
  abbrev pub IsWhole : MessageWrapper → Type 0
  IsWhole m = IsEncodable p m × (1 ≤ p.encoded_len m)

  -- The messages whose bodies are not too long.
  unfoldable pub fitting : List MessageWrapper → List MessageWrapper
  fitting [] = []
  fitting (m ∷ ms) =
      if leb (p.encoded_len m) max_message_body_size then m ∷ fitting ms else fitting ms

  fitting-IsSendable : (ms : List MessageWrapper) → All IsWhole ms → All (IsSendable p) (fitting ms)
  unfolding fitting
  fitting-IsSendable [] h = tt
  fitting-IsSendable (m ∷ ms) h = elim (Bool-cases (leb (p.encoded_len m) max_message_body_size)) [
    | inl e ↦
        rw e (
          record { encodable = h.0.0; low = h.0.1; high = ground arith },
          fitting-IsSendable ms h.1,
        )
    | inr e ↦ rw e (fitting-IsSendable ms h.1)
  ]

  send_all_step :
      (m : MessageWrapper) (ms : List MessageWrapper) (dst : Bytes) (st : Stats) (dst' : Bytes)
      (st' : Stats)
      → encode_frame p m dst st ≡ (dst', st')
      → (send_all (m ∷ ms) dst st).0 ≡ (send_all ms dst' st').0
  unfolding send_all
  send_all_step m ms dst st dst' st' e = ap (λ (r : Bytes × Stats). (send_all ms r.0 r.1).0) e

  send_all-frames :
      (ms : List MessageWrapper) (dst : Bytes) (st : Stats)
      → (send_all ms dst st).0 ≡ dst ++ frames p (fitting ms)
  unfolding send_all fitting
  send_all-frames [] dst st = sym (append-nil dst)
  send_all-frames (m ∷ ms) dst st =
      let ih = send_all-frames ms in
      let (long, short) = encode_frame_lem p m dst st in
      elim (Bool-cases (leb (p.encoded_len m) max_message_body_size)) [
        | inl e ↦
            send_all_step m ms dst st (dst ++ frame p m) (increment_sent st) (short (ground arith))
            ∙ ih (dst ++ frame p m) (increment_sent st)
            ∙ append_assoc dst (frame p m) (frames p (fitting ms))
            ∙ rw e refl
        | inr e ↦ send_all_step m ms dst st dst st (long (ground arith)) ∙ ih dst st ∙ rw e refl
      ]

  -- Messages that are sent through the encoder and arrive in chunks that are cut anywhere come out
  -- of the decoder in order and complete, except those with a body of more than 8190 bytes, which
  -- the encoder has dropped; there is no error. No message has an empty body, and prost reads each
  -- back.
  pub receive-send_all :
      (ms : List MessageWrapper) (chunks : List Bytes) (sent received : Stats)
      → All IsWhole ms
      → concat chunks ≡ (send_all ms [] sent).0
      → outcome (receive p chunks [] received) ≡ (fitting ms, none)
  receive-send_all ms chunks sent received h e =
      receive-frames p (fitting ms) chunks received (fitting-IsSendable ms h)
        (e ∙ send_all-frames ms [] sent)
