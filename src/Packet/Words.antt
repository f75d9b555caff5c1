-- ===== src/Packet/Words.antt =====
-- Words of eight bytes: what `put_u64` writes, a load and `get_u64` read back.
use gloo.Prelude.{
  ℕ, ◌+◌, ◌*◌, ◌/◌, ◌%◌, ◌^◌, ◌<◌, ◌≡◌, refl, ◌∙◌, arith, u8, u64, bit_or, bit_or-shifted,
}
use gloo.Packet.{le_bytes, or_bytes, load}

pub load-le_bytes : (x : ℕ) → x < 2 ^ 64 → load (le_bytes 8 0 x) ≡ x
unfolding load le_bytes
load-le_bytes x h = omega arith

-- One round of `get_u64` adds a byte above those that are there.
or_round :
    (k x low value next : ℕ)
    → u8 (x / 2 ^ k) * 2 ^ k < 2 ^ 64
    → value ≡ low
    → low < 2 ^ k
    → u8 (x / 2 ^ k) * 2 ^ k + low ≡ next
    → bit_or (u64 (u8 (x / 2 ^ k) * 2 ^ k)) value ≡ next
or_round k x low value next fits e small sum =
    let same : u64 (u8 (x / 2 ^ k) * 2 ^ k) ≡ u8 (x / 2 ^ k) * 2 ^ k = omega arith in
    rw (same, e) (bit_or-shifted k (u8 (x / 2 ^ k)) low small ∙ sum)

pub or_bytes-le_bytes : (x : ℕ) → x < 2 ^ 64 → or_bytes (le_bytes 8 0 x) 0 0 ≡ x
unfolding or_bytes le_bytes
or_bytes-le_bytes x h =
    let a = or_round 0 x 0 0 (x % 2 ^ 8) (omega arith) refl (omega arith) (omega arith) in
    let b = or_round 8 x (x % 2 ^ 8) _ (x % 2 ^ 16) (omega arith) a (omega arith) (omega arith) in
    let c = or_round 16 x (x % 2 ^ 16) _ (x % 2 ^ 24) (omega arith) b (omega arith) (omega arith) in
    let d = or_round 24 x (x % 2 ^ 24) _ (x % 2 ^ 32) (omega arith) c (omega arith) (omega arith) in
    let e = or_round 32 x (x % 2 ^ 32) _ (x % 2 ^ 40) (omega arith) d (omega arith) (omega arith) in
    let f = or_round 40 x (x % 2 ^ 40) _ (x % 2 ^ 48) (omega arith) e (omega arith) (omega arith) in
    let g = or_round 48 x (x % 2 ^ 48) _ (x % 2 ^ 56) (omega arith) f (omega arith) (omega arith) in
    or_round 56 x (x % 2 ^ 56) _ x (omega arith) g (omega arith) (omega arith)
