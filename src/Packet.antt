-- ===== src/Packet.antt =====
-- gloo/packet.h: the packets of dmludp, on a little-endian machine.
pub mod Words
pub mod Roundtrip
mod Tests
use gloo.Prelude.{
  ℕ, zero, suc, ◌+◌, ◌*◌, ◌/◌, ◌^◌, Bool, true, false, List, [], ◌∷◌, ◌++◌, Option, none, some, u8,
  u64, ltb, leb, ◌==◌, if◌then◌else◌, bit_or, take, drop, length,
}

-- `enum Type`.
pub data PacketType : Type 0 where
  retry handshake application elicit_ack ack stop fin start_ack unknown : PacketType

pub record Header : Type 0 where
  pub ty : PacketType
  pub pkt_num : ℕ
  pub priority : ℕ
  pub offset : ℕ
  pub pkt_length : ℕ

-- `Header::len`.
abbrev pub header_size : ℕ
header_size = 26

-- The type in `to_bytes`.
unfoldable pub type_byte : PacketType → ℕ
type_byte retry = 0x01
type_byte handshake = 0x02
type_byte application = 0x03
type_byte elicit_ack = 0x04
type_byte ack = 0x05
type_byte stop = 0x06
type_byte fin = 0x07
type_byte start_ack = 0x08
type_byte unknown = 0x09

-- The type in `from_slice` and `from_bytes`: the last test, `first = 0x08`, assigns and always holds.
unfoldable pub type_of_byte : ℕ → PacketType
type_of_byte first =
    if first == 0x01
    then retry
    else if first == 0x02
    then handshake
    else if first == 0x03
    then application
    else if first == 0x04
    then elicit_ack
    else if first == 0x05
    then ack
    else if first == 0x06
    then stop
    else if first == 0x07
    then fin
    else start_ack

-- The loop of `put_u64`: `n` more bytes of the word, from byte `i` on.
unfoldable pub le_bytes : ℕ → ℕ → ℕ → List ℕ
le_bytes zero i input = []
le_bytes (suc n) i input = u8 (input / 2 ^ (i * 8)) ∷ le_bytes n (suc i) input

-- The loop of `get_u64`.
unfoldable pub or_bytes : List ℕ → ℕ → ℕ → ℕ
or_bytes [] i value = value
or_bytes (b ∷ bs) i value = or_bytes bs (suc i) (bit_or (u64 (b * 2 ^ (i * 8))) value)

-- What a load of a word reads on a little-endian machine.
unfoldable pub load : List ℕ → ℕ
load [] = 0
load (b ∷ bs) = b + 2 ^ 8 * load bs

-- A write into a vector; one past its end throws or is undefined.
unfoldable pub put : List ℕ → ℕ → List ℕ → Option (List ℕ)
put vec position bytes =
    if leb (position + length bytes) (length vec)
    then some (take position vec ++ (bytes ++ drop (position + length bytes) vec))
    else none

infixl 5 ◌>>=◌
abbrev ◌>>=◌ : {A B : Type 0} → Option A → (A → Option B) → Option B
o >>= f = elim o [ none ↦ none | some a ↦ f a ]

-- `Header::to_bytes`.
unfoldable pub to_bytes : Header → List ℕ → Option (List ℕ)
unfolding put le_bytes type_byte
to_bytes h out = do
  a ← put out 0 (type_byte h.ty ∷ [])
  b ← put a 1 (le_bytes 8 0 h.pkt_num)
  c ← put b 9 (h.priority ∷ [])
  d ← put c 10 (le_bytes 8 0 h.offset)
  put d 18 (le_bytes 8 0 h.pkt_length)

-- `vec[position]`, for a position in the vector.
unfoldable pub get_u8 : List ℕ → ℕ → ℕ
get_u8 [] position = 0
get_u8 (b ∷ bs) zero = b
get_u8 (b ∷ bs) (suc position) = get_u8 bs position

-- `Header::from_bytes`; reading a vector that is too short is undefined.
unfoldable pub from_bytes : List ℕ → Option Header
unfolding get_u8 load
from_bytes b =
    if ltb (length b) header_size
    then none
    else some (record {
      ty = type_of_byte (get_u8 b 0);
      pkt_num = load (take 8 (drop 1 b));
      priority = get_u8 b 9;
      offset = load (take 8 (drop 10 b));
      pkt_length = load (take 8 (drop 18 b));
    })

-- `Header::get_u64`.
unfoldable pub get_u64 : List ℕ → ℕ → ℕ
unfolding or_bytes
get_u64 vec start = or_bytes (take 8 (drop start vec)) 0 0

-- `Header::from_slice`.
unfoldable pub from_slice : List ℕ → Option Header
unfolding get_u8 get_u64
from_slice b =
    if ltb (length b) header_size
    then none
    else some (record {
      ty = type_of_byte (get_u8 b 0);
      pkt_num = get_u64 b 1;
      priority = get_u8 b 9;
      offset = get_u64 b 10;
      pkt_length = get_u64 b 18;
    })
