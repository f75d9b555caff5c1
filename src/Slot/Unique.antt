-- ===== src/Slot/Unique.antt =====
-- Two operations share a slot number only when they are the same one.
use gloo.Prelude.{ℕ, ◌+◌, ◌*◌, ◌^◌, ◌<◌, ◌≡◌, ◌↔◌, none, some, arith, bit_or-shifted, bit_and-ones}
use gloo.Slot.{Slot, build, add, to_u64}

-- The base is a sum: the prefix and the tag keep clear of each other and of the low 24 bits.
build-base :
    (prefix tag : ℕ)
    → prefix < 2 ^ 8
    → tag < 2 ^ 32
    → (build prefix tag).base ≡ prefix * 2 ^ 56 + tag * 2 ^ 24
unfolding build
build-base prefix tag p t =
    ground (arith, bit_and-ones 32 tag, bit_or-shifted 56 prefix (tag * 2 ^ 24) (omega arith))

to_u64-add :
    (prefix tag i : ℕ) {s : Slot}
    → prefix < 2 ^ 8
    → tag < 2 ^ 32
    → i < 2 ^ 8
    → add (build prefix tag) i ≡ some s
    → to_u64 s ≡ prefix * 2 ^ 56 + tag * 2 ^ 24 + i
unfolding add build to_u64
to_u64-add prefix tag i p t h e = ground (arith, build-base prefix tag)

-- The slot number of an operation determines the collective's prefix, its tag and the
-- operation's index.
pub slot_unique :
    (p q t u i j : ℕ) {s r : Slot}
    → p < 2 ^ 8
    → q < 2 ^ 8
    → t < 2 ^ 32
    → u < 2 ^ 32
    → i < 2 ^ 8
    → j < 2 ^ 8
    → add (build p t) i ≡ some s
    → add (build q u) j ≡ some r
    → to_u64 s ≡ to_u64 r
    → (p ≡ q) × (t ≡ u) × (i ≡ j)
slot_unique p q t u i j hp hq ht hu hi hj es er e =
    omega (arith, to_u64-add p t i hp ht hi es, to_u64-add q u j hq hu hj er)

-- Adding to a slot fails exactly when the sum leaves the 8 bits of the collective.
pub add_fails_iff :
    (s : Slot) (i : ℕ) → s.delta < 2 ^ 8 → i < 2 ^ 8 → (add s i ≡ none) ↔ (0xff < s.delta + i)
unfolding add
add_fails_iff s i h k = (λ e. ground arith, λ e. ground arith)
