-- ===== src/Net/Codec.antt =====
-- crates/net/src/codec.rs: `[2 bytes little-endian body length][protobuf MessageWrapper]` frames.
-- The protobuf code is generated by prost, so it is the parameter `Prost`.
pub mod Prefix
pub mod RoundTrip
pub mod Drain
pub mod Chunks
pub mod Sender
use rust_gameserver.Base.{
  ℕ, ◌+◌, ◌*◌, ◌/◌, ◌%◌, ◌≡◌, ◌||◌, [], ◌∷◌, ◌++◌, Option, none, some, Bytes, length, take, drop,
  ltb, ◌==◌, if◌then◌else◌,
}
use rust_gameserver.Proto.{MessageWrapper}
use rust_gameserver.Net.Consts.{max_message_body_size, u16_mod}
use rust_gameserver.Net.Stats.{Stats, increment_received, increment_sent}

pub data DecodeError : Type 0 where
  malformed : DecodeError

pub data ProstResult : Type 0 where
  decoded : MessageWrapper → ProstResult
  failed : DecodeError → ProstResult

-- `Message::{encoded_len, encode, decode}` of the generated type.
pub record Prost : Type 0 where
  pub encoded_len : MessageWrapper → ℕ
  pub encode : MessageWrapper → Bytes
  pub decode : Bytes → ProstResult

-- What prost documents of a message: its length is announced, and it is read back.
pub record IsEncodable (p : Prost) (m : MessageWrapper) : Type 0 where
  pub announced : p.encoded_len m ≡ length (p.encode m)
  pub read_back : p.decode (p.encode m) ≡ decoded m

-- `CodecError::Io` comes from the socket, not from the codec.
pub data CodecError : Type 0 where
  invalid_length : ℕ → CodecError
  decode : DecodeError → CodecError

pub data DecodeResult : Type 0 where
  ok : Option MessageWrapper → DecodeResult
  err : CodecError → DecodeResult

abbrev pub header_size : ℕ
header_size = 2

abbrev pub from_le_bytes : ℕ → ℕ → ℕ
from_le_bytes b0 b1 = b0 + 256 * b1

abbrev pub to_le_bytes : ℕ → Bytes
to_le_bytes n = n % 256 ∷ n / 256 ∷ []

-- The buffer is consumed in place: the result is what is left in it.
pub record Decoded : Type 0 where
  pub result : DecodeResult
  pub src : Bytes
  pub stats : Stats

module _ (p : Prost) where
  abbrev pub after_body : ProstResult → Bytes → Stats → Decoded
  after_body (decoded m) rest st = record {
    result = ok (some m);
    src = rest;
    stats = increment_received st;
  }
  after_body (failed e) rest st = record { result = err (decode e); src = rest; stats = st }

  -- `src.reserve` changes the capacity only.
  unfoldable pub decode_body : ℕ → Bytes → Stats → Decoded
  decode_body body_size src st =
      if body_size == 0 || ltb max_message_body_size body_size
      then record { result = err (invalid_length body_size); src = src; stats = st }
      else if ltb (length src) (header_size + body_size)
      then record { result = ok none; src = src; stats = st }
      else after_body (p.decode (take body_size (drop header_size src)))
          (drop body_size (drop header_size src)) st

  unfoldable pub decode_frame : Bytes → Stats → Decoded
  decode_frame [] st = record { result = ok none; src = []; stats = st }
  decode_frame (b0 ∷ []) st = record { result = ok none; src = b0 ∷ []; stats = st }
  decode_frame (b0 ∷ b1 ∷ src) st = decode_body (from_le_bytes b0 b1) (b0 ∷ b1 ∷ src) st

  unfoldable pub encode_frame : MessageWrapper → Bytes → Stats → Bytes × Stats
  encode_frame m dst st =
      if ltb max_message_body_size (p.encoded_len m)
      then (dst, st)
      else (dst ++ (to_le_bytes (p.encoded_len m % u16_mod) ++ p.encode m), increment_sent st)
