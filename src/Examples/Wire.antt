-- ===== src/Examples/Wire.antt =====
-- The codec of crates/net/src/codec.rs at concrete inputs.
use rust_gameserver.Base.{◌≡◌, refl, List, [], ◌∷◌, none, some, Bytes, arith}
use rust_gameserver.Net.Stats.{Stats}
use rust_gameserver.Net.Codec.{decode_frame, decode_body, encode_frame, ok}
use rust_gameserver.Net.Codec.Chunks.{receive, receive-drain, outcome, concat}
use rust_gameserver.Net.Codec.Drain.{drain}
use rust_gameserver.Net.Codec.Sender.{send_all, fitting, receive-send_all}
use rust_gameserver.Examples.Params.{prost, ping, notice, ping-IsEncodable, notice-IsEncodable}

abbrev zeros : Stats
zeros = record { received = 0; sent = 0 }

abbrev wire : List Bytes
wire = (2 ∷ 0 ∷ 58 ∷ []) ∷ (0 ∷ 2 ∷ []) ∷ (0 ∷ 50 ∷ 0 ∷ []) ∷ []

sent_wire : concat wire ≡ (send_all prost (ping ∷ notice ∷ []) [] zeros).0
unfolding send_all encode_frame
sent_wire = refl

receive-send_all_example :
    outcome (receive prost wire [] zeros) ≡ (fitting prost (ping ∷ notice ∷ []), none)
receive-send_all_example =
    receive-send_all prost (ping ∷ notice ∷ []) wire zeros zeros
      ((ping-IsEncodable, omega arith), ((notice-IsEncodable, omega arith), tt)) sent_wire

receive-drain_example :
    outcome (receive prost wire [] zeros) ≡ outcome (drain prost 9 (concat wire) zeros)
receive-drain_example = receive-drain prost wire [] zeros 9 (omega arith)

whole : (decode_frame prost (2 ∷ 0 ∷ 58 ∷ 0 ∷ 2 ∷ []) zeros).result ≡ ok (some ping)
unfolding decode_frame decode_body
whole = refl
