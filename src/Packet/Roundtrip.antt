-- ===== src/Packet/Roundtrip.antt =====
-- A header that is written into a packet is read back from it.
use mathlib.Core.List.{append_assoc}
use gloo.Prelude.{
  ℕ, ◌+◌, ◌-◌, ◌^◌, ◌≤◌, ◌<◌, ◌≡◌, ◌≢◌, refl, ap, ◌∙◌, true, false, List, [], ◌∷◌, ◌++◌, some,
  arith, leb, ltb, drop, length, length-append, length-drop, drop-append_ge, drop-drop,
  take-append_length,
}
use gloo.Packet.{
  PacketType, retry, handshake, application, elicit_ack, ack, stop, fin, start_ack, unknown, Header,
  header_size, type_byte, type_of_byte, le_bytes, or_bytes, load, put, to_bytes, get_u8, from_bytes,
  get_u64, from_slice,
}
use gloo.Packet.Words.{load-le_bytes, or_bytes-le_bytes}

-- The fields fit their C++ types.
pub record IsHeader (h : Header) : Type 0 where
  pub num : h.pkt_num < 2 ^ 64
  pub byte : h.priority < 2 ^ 8
  pub off : h.offset < 2 ^ 64
  pub len : h.pkt_length < 2 ^ 64

-- The layout of a header.
unfoldable pub layout : Header → List ℕ
unfolding le_bytes
layout h =
    (((type_byte h.ty ∷ le_bytes 8 0 h.pkt_num) ++ h.priority ∷ []) ++ le_bytes 8 0 h.offset)
    ++ le_bytes 8 0 h.pkt_length

-- Writing right behind what has been written.
put_next :
    (written rest bytes : List ℕ) (position : ℕ)
    → length written ≡ position
    → length bytes ≤ length rest
    → put (written ++ rest) position bytes ≡ some ((written ++ bytes) ++ drop (length bytes) rest)
unfolding put
put_next written rest bytes position at_end room =
    let fits : leb (position + length bytes) (length (written ++ rest)) ≡ true =
      ground (arith, length-append written rest) in
    let left : length written + length bytes - length written ≡ length bytes = omega arith in
    rw
      (
        fits,
        ← at_end,
        take-append_length written rest,
        drop-append_ge (length written + length bytes) written rest (omega arith),
        left,
        append_assoc written bytes (drop (length bytes) rest),
      )
      refl

to_bytes-layout :
    (h : Header) (out : List ℕ)
    → header_size ≤ length out
    → to_bytes h out ≡ some (layout h ++ drop header_size out)
unfolding to_bytes layout le_bytes
to_bytes-layout h out room =
    let a = type_byte h.ty ∷ [] in
    let b = a ++ le_bytes 8 0 h.pkt_num in
    let c = b ++ h.priority ∷ [] in
    let d = c ++ le_bytes 8 0 h.offset in
    let r = λ (n : ℕ). length-drop n out in
    rw
      (
        put_next [] out a 0 refl (omega arith),
        put_next a (drop 1 out) (le_bytes 8 0 h.pkt_num) 1 refl (omega (arith, r 1)),
        drop-drop 1 8 out,
        put_next b (drop 9 out) (h.priority ∷ []) 9 refl (omega (arith, r 9)),
        drop-drop 9 1 out,
        put_next c (drop 10 out) (le_bytes 8 0 h.offset) 10 refl (omega (arith, r 10)),
        drop-drop 10 8 out,
        put_next d (drop 18 out) (le_bytes 8 0 h.pkt_length) 18 refl (omega (arith, r 18)),
        drop-drop 18 8 out,
      )
      refl

type_of_byte-type_byte : (t : PacketType) → t ≢ unknown → type_of_byte (type_byte t) ≡ t
unfolding type_of_byte type_byte
type_of_byte-type_byte retry h = refl
type_of_byte-type_byte handshake h = refl
type_of_byte-type_byte application h = refl
type_of_byte-type_byte elicit_ack h = refl
type_of_byte-type_byte ack h = refl
type_of_byte-type_byte stop h = refl
type_of_byte-type_byte fin h = refl
type_of_byte-type_byte start_ack h = refl
type_of_byte-type_byte unknown h = absurd (h refl)

-- What both readers make of a layout: its fields, and a type that the byte of the type decides.
read_layout :
    (h : Header) (rest : List ℕ)
    → IsHeader h
    → (from_bytes (layout h ++ rest) ≡ some (record h { ty = type_of_byte (type_byte h.ty) }))
      × (from_slice (layout h ++ rest) ≡ some (record h { ty = type_of_byte (type_byte h.ty) }))
unfolding layout from_bytes from_slice get_u64 get_u8 le_bytes load or_bytes
read_layout h rest v =
    let long : ltb (length (layout h ++ rest)) header_size ≡ false = ground arith in
    (
      rw long (λ i. some (record h {
        ty = type_of_byte (type_byte h.ty);
        pkt_num = load-le_bytes h.pkt_num v.num i;
        offset = load-le_bytes h.offset v.off i;
        pkt_length = load-le_bytes h.pkt_length v.len i;
      })),
      rw long (λ i. some (record h {
        ty = type_of_byte (type_byte h.ty);
        pkt_num = or_bytes-le_bytes h.pkt_num v.num i;
        offset = or_bytes-le_bytes h.offset v.off i;
        pkt_length = or_bytes-le_bytes h.pkt_length v.len i;
      })),
    )

layout-drop : (h : Header) (rest : List ℕ) → drop header_size (layout h ++ rest) ≡ rest
unfolding layout le_bytes
layout-drop h rest = refl

-- A header that is written into a packet with room for it is read back by both readers as it was,
-- but for one of the unknown type; what follows it in the packet stays.
pub header_roundtrip :
    (h : Header) (out : List ℕ)
    → IsHeader h
    → h.ty ≢ unknown
    → header_size ≤ length out
    → (packet : List ℕ) × (to_bytes h out ≡ some packet)
      × (from_bytes packet ≡ some h)
      × (from_slice packet ≡ some h)
      × (drop header_size packet ≡ drop header_size out)
header_roundtrip h out v known room =
    let rest = drop header_size out in
    let read = read_layout h rest v in
    let same : record h { ty = type_of_byte (type_byte h.ty) } ≡ h =
      λ i. record h { ty = type_of_byte-type_byte h.ty known i } in
    (
      layout h ++ rest,
      to_bytes-layout h out room,
      read.0 ∙ ap some same,
      read.1 ∙ ap some same,
      layout-drop h rest,
    )

-- A header of the unknown type is read back as a start acknowledgement.
pub unknown_is_start_ack :
    (h : Header) (out : List ℕ)
    → IsHeader h
    → h.ty ≡ unknown
    → header_size ≤ length out
    → (packet : List ℕ) × (to_bytes h out ≡ some packet)
      × (from_bytes packet ≡ some (record h { ty = start_ack }))
      × (from_slice packet ≡ some (record h { ty = start_ack }))
unfolding type_byte type_of_byte
unknown_is_start_ack h out v e room =
    let rest = drop header_size out in
    let read = read_layout h rest v in
    let lost : type_of_byte (type_byte h.ty) ≡ start_ack = ap (λ t. type_of_byte (type_byte t)) e in
    let seen : record h { ty = type_of_byte (type_byte h.ty) } ≡ record h { ty = start_ack } =
      λ i. record h { ty = lost i } in
    (layout h ++ rest, to_bytes-layout h out room, read.0 ∙ ap some seen, read.1 ∙ ap some seen)
