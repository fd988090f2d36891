-- ===== src/Net/Codec/RoundTrip.antt =====
-- The encoder of crates/net/src/codec.rs against its decoder.
use rust_gameserver.Base.{
  ℕ, ◌+◌, ◌≤◌, ◌<◌, ◌≡◌, ◌≢◌, refl, [], ◌∷◌, ◌++◌, none, some, Bytes, length, take-append,
  drop-append, length-append, length_pos, ◌%◌, ◌/◌, arith,
}
use rust_gameserver.Proto.{MessageWrapper}
use rust_gameserver.Net.Consts.{max_message_body_size}
use rust_gameserver.Net.Stats.{Stats, increment_received, increment_sent}
use rust_gameserver.Net.Codec.{
  Prost, IsEncodable, ok, from_le_bytes, to_le_bytes, decode_body, decode_frame, encode_frame,
}

-- The bytes of a message that fits.
abbrev pub frame : Prost → MessageWrapper → Bytes
frame p m = to_le_bytes (p.encoded_len m) ++ p.encode m

-- What the codec carries: prost reads it back, and its body is not empty and not too long.
pub record IsSendable (p : Prost) (m : MessageWrapper) : Type 0 where
  pub encodable : IsEncodable p m
  pub low : 1 ≤ p.encoded_len m
  pub high : p.encoded_len m ≤ max_message_body_size

module _ (p : Prost) where
  -- A message whose body is longer than 8190 bytes is dropped: the encoder reports success, writes
  -- nothing and counts nothing. Any other message is appended as one frame, and counted.
  pub encode_frame_lem :
      (m : MessageWrapper) (dst : Bytes) (st : Stats)
      → (max_message_body_size < p.encoded_len m → encode_frame p m dst st ≡ (dst, st))
        × (p.encoded_len m ≤ max_message_body_size
            → encode_frame p m dst st ≡ (dst ++ frame p m, increment_sent st))
  unfolding encode_frame
  encode_frame_lem m dst st = (λ h. ground arith, λ h. ground arith)

  decode_body-frame :
      (m : MessageWrapper) (b0 b1 : ℕ) (rest : Bytes) (st : Stats)
      → IsSendable p m
      → decode_body p (p.encoded_len m) (b0 ∷ b1 ∷ (p.encode m ++ rest)) st
        ≡ record { result = ok (some m); src = rest; stats = increment_received st }
  unfolding decode_body
  decode_body-frame m b0 b1 rest st s = rw s.encodable.announced (
      ground (
        arith,
        s.encodable.announced,
        s.low,
        s.high,
        take-append (p.encode m) rest,
        drop-append (p.encode m) rest,
        length-append (p.encode m) rest,
        s.encodable.read_back,
      ))

  -- The decoder reads back the frame of a message, whatever follows it in the buffer, and leaves
  -- what follows.
  pub decode_frame-frame :
      (m : MessageWrapper) (rest : Bytes) (st : Stats)
      → IsSendable p m
      → decode_frame p (frame p m ++ rest) st
        ≡ record { result = ok (some m); src = rest; stats = increment_received st }
  unfolding decode_frame
  decode_frame-frame m rest st s =
      let n : ℕ = p.encoded_len m in
      let e : from_le_bytes (n % 256) (n / 256) ≡ n = omega arith in
      rw e (decode_body-frame m (n % 256) (n / 256) rest st s)

  decode_body-partial :
      (n : ℕ) (src : Bytes) (st : Stats)
      → 1 ≤ n
      → n ≤ max_message_body_size
      → length src < 2 + n
      → (decode_body p n src st).result ≡ ok none
  unfolding decode_body
  decode_body-partial n src st l h s = ground arith

  -- A proper prefix of a frame is no frame yet: the decoder waits.
  pub decode_frame-partial :
      (m : MessageWrapper) (seen missing : Bytes) (st : Stats)
      → IsSendable p m
      → frame p m ≡ seen ++ missing
      → missing ≢ []
      → (decode_frame p seen st).result ≡ ok none
  unfolding decode_frame
  decode_frame-partial m [] missing st s e h = refl
  decode_frame-partial m (b0 ∷ []) missing st s e h = refl
  decode_frame-partial m (b0 ∷ b1 ∷ seen) missing st s e h =
      let n : ℕ = p.encoded_len m in
      let e0 : n % 256 ≡ b0 = cc in
      let e1 : n / 256 ≡ b1 = cc in
      let e2 : p.encode m ≡ seen ++ missing = cc in
      let long : length (p.encode m) ≡ length seen + length missing =
        rw e2 (length-append seen missing) in
      let header : from_le_bytes b0 b1 ≡ n = omega arith in
      rw header (
        decode_body-partial n (b0 ∷ b1 ∷ seen) st s.low s.high
          (omega (arith, length_pos missing h, s.encodable.announced)))
