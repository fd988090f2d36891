-- ===== src/Net/Codec/Prefix.antt =====
-- How the decoder of crates/net/src/codec.rs behaves on parts of the input.
use rust_gameserver.Base.{
  ℕ, ◌+◌, ◌≤◌, ◌≡◌, ◌≢◌, refl, [], ◌∷◌, ◌++◌, none, some, Bytes, length, take, drop, take-append_le,
  drop-append_le, length-append, length-take, take-append-drop, arith,
}
use rust_gameserver.Proto.{MessageWrapper}
use rust_gameserver.Net.Consts.{max_message_body_size}
use rust_gameserver.Net.Stats.{Stats, increment_received}
use rust_gameserver.Net.Codec.{
  Prost, ProstResult, decoded, failed, ok, from_le_bytes, after_body, decode_body, decode_frame,
  header_size,
}

module _ (p : Prost) where
  after_body-append :
      (r : ProstResult) (rest more : Bytes) (st : Stats)
      → after_body p r (rest ++ more) st ≡ record (after_body p r rest st) { src = rest ++ more }
  after_body-append (decoded m) rest more st = refl
  after_body-append (failed e) rest more st = refl

  after_body-src :
      (r : ProstResult) (rest : Bytes) (st : Stats) → (after_body p r rest st).src ≡ rest
  after_body-src (decoded m) rest st = refl
  after_body-src (failed e) rest st = refl

  after_body-ne-none :
      (r : ProstResult) (rest : Bytes) (st : Stats) → (after_body p r rest st).result ≢ ok none
  after_body-ne-none (decoded m) rest st = λ e. cc
  after_body-ne-none (failed e) rest st = λ e. cc

  decode_body-append :
      (n : ℕ) (b0 b1 : ℕ) (src more : Bytes) (st : Stats)
      → (decode_body p n (b0 ∷ b1 ∷ src) st).result ≢ ok none
      → decode_body p n (b0 ∷ b1 ∷ (src ++ more)) st ≡ record (decode_body p n (b0 ∷ b1 ∷ src) st) {
        src = (decode_body p n (b0 ∷ b1 ∷ src) st).src ++ more;
      }
  unfolding decode_body
  decode_body-append n b0 b1 src more st h = ground (
    arith,
    length-append src more,
    take-append_le n src more,
    drop-append_le n src more,
    after_body-append (p.decode (take n src)) (drop n src) more st,
    after_body-src (p.decode (take n src)) (drop n src) st,
  )

  -- Bytes that arrive later change neither a message nor an error that the decoder has reached:
  -- they are left behind it in the buffer.
  pub decode_frame-append :
      (src more : Bytes) (st : Stats)
      → (decode_frame p src st).result ≢ ok none
      → decode_frame p (src ++ more) st
        ≡ record (decode_frame p src st) { src = (decode_frame p src st).src ++ more }
  unfolding decode_frame
  decode_frame-append [] more st h = absurd (h refl)
  decode_frame-append (b0 ∷ []) more st h = absurd (h refl)
  decode_frame-append (b0 ∷ b1 ∷ src) more st h =
      decode_body-append (from_le_bytes b0 b1) b0 b1 src more st h

  decode_body_waits :
      (n : ℕ) (src : Bytes) (st : Stats)
      → (decode_body p n src st).result ≡ ok none
      → decode_body p n src st ≡ record { result = ok none; src = src; stats = st }
  unfolding decode_body
  decode_body_waits n src st h = ground (
    arith,
    after_body-ne-none (p.decode (take n (drop header_size src))) (drop n (drop header_size src))
        st,
  )

  -- While a frame is incomplete the decoder asks for more and keeps every byte.
  pub decode_frame_waits :
      (src : Bytes) (st : Stats)
      → (decode_frame p src st).result ≡ ok none
      → decode_frame p src st ≡ record { result = ok none; src = src; stats = st }
  unfolding decode_frame
  decode_frame_waits [] st h = refl
  decode_frame_waits (b0 ∷ []) st h = refl
  decode_frame_waits (b0 ∷ b1 ∷ src) st h =
      decode_body_waits (from_le_bytes b0 b1) (b0 ∷ b1 ∷ src) st h

  after_body-inv :
      (r : ProstResult) (rest : Bytes) (st : Stats) (m : MessageWrapper)
      → (after_body p r rest st).result ≡ ok (some m)
      → r ≡ decoded m
  after_body-inv (decoded x) rest st m h = ground arith
  after_body-inv (failed e) rest st m h = cc

  decode_body-inv :
      (n : ℕ) (src : Bytes) (st : Stats) (m : MessageWrapper)
      → (decode_body p n src st).result ≡ ok (some m)
      → (1 ≤ n)
        × (n ≤ max_message_body_size)
        × (header_size + n ≤ length src)
        × (p.decode (take n (drop header_size src)) ≡ decoded m)
        × (decode_body p n src st ≡ record {
          result = ok (some m);
          src = drop n (drop header_size src);
          stats = increment_received st;
        })
  unfolding decode_body
  decode_body-inv n src st m h =
      let inv =
        after_body-inv (p.decode (take n (drop header_size src))) (drop n (drop header_size src)) st
          m in
      (ground arith, ground arith, ground arith, ground (arith, inv), ground (arith, inv))

  -- A message comes from one whole frame at the front of the buffer: a header that announces between
  -- 1 and 8190 bytes, that many bytes, which prost reads as the message, and what stays behind them.
  -- One packet is counted.
  pub decode_frame_sound :
      (src : Bytes) (st : Stats) (m : MessageWrapper)
      → (decode_frame p src st).result ≡ ok (some m)
      → (b0 : ℕ) × (b1 : ℕ) × (body : Bytes) × (src
          ≡ b0 ∷ b1 ∷ (body ++ (decode_frame p src st).src))
        × (length body ≡ from_le_bytes b0 b1)
        × (1 ≤ length body)
        × (length body ≤ max_message_body_size)
        × (p.decode body ≡ decoded m)
        × ((decode_frame p src st).stats ≡ increment_received st)
  unfolding decode_frame
  decode_frame_sound [] st m h = cc
  decode_frame_sound (b0 ∷ []) st m h = cc
  decode_frame_sound (b0 ∷ b1 ∷ src) st m h =
      let n : ℕ = from_le_bytes b0 b1 in
      let (low, high, fits, reads, e) = decode_body-inv n (b0 ∷ b1 ∷ src) st m h in
      let long : length (take n src) ≡ n = length-take n src (omega arith) in
      (
        b0,
        b1,
        take n src,
        rw (e, take-append-drop n src),
        long,
        omega arith,
        omega arith,
        reads,
        rw e,
      )
