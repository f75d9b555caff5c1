-- ===== src/Packet/Tests.antt =====
-- The header of a packet of application data, and one of the unknown type.
use gloo.Prelude.{ℕ, ◌≡◌, refl, List, [], ◌∷◌, drop, arith, some}
use gloo.Packet.{
  Header, application, unknown, start_ack, header_size, to_bytes, from_bytes, from_slice,
}
use gloo.Packet.Roundtrip.{header_roundtrip, unknown_is_start_ack}

abbrev data_header : Header
data_header = record {
  ty = application;
  pkt_num = 258;
  priority = 3;
  offset = 1350;
  pkt_length = 1000;
}

abbrev odd_header : Header
odd_header = record { ty = unknown; pkt_num = 1; priority = 0; offset = 0; pkt_length = 0 }

abbrev room : List ℕ
room =
    0 ∷ 0 ∷ 0 ∷ 0 ∷ 0 ∷ 0 ∷ 0 ∷ 0 ∷ 0 ∷ 0 ∷ 0 ∷ 0 ∷ 0 ∷ 0 ∷ 0 ∷ 0 ∷ 0 ∷ 0 ∷ 0 ∷ 0 ∷ 0 ∷ 0 ∷ 0 ∷ 0
    ∷ 0 ∷ 0 ∷ 42 ∷ []

header_roundtrip_example :
    (packet : List ℕ) × (to_bytes data_header room ≡ some packet)
    × (from_bytes packet ≡ some data_header)
    × (from_slice packet ≡ some data_header)
    × (drop header_size packet ≡ drop header_size room)
header_roundtrip_example =
    header_roundtrip data_header room
      (record { num = omega arith; byte = omega arith; off = omega arith; len = omega arith })
      (λ e. cc) (omega arith)

unknown_is_start_ack_example :
    (packet : List ℕ) × (to_bytes odd_header room ≡ some packet)
    × (from_bytes packet ≡ some (record odd_header { ty = start_ack }))
    × (from_slice packet ≡ some (record odd_header { ty = start_ack }))
unknown_is_start_ack_example =
    unknown_is_start_ack odd_header room
      (record { num = omega arith; byte = omega arith; off = omega arith; len = omega arith }) refl
      (omega arith)
