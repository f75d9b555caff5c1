-- ===== src/Collective/Layout/Owner.antt =====
-- The blocks lie one after the other, and every address in just one of them.
use gloo.Prelude.{
  ℕ, zero, suc, ◌≡◌, refl, ap, ◌+◌, ◌-◌, ◌^◌, ◌≤◌, ◌<◌, inl, inr, List, [], ◌∷◌, u64, lt→ltb,
  le→ltb, length, lt-or_le, arith,
}
use gloo.Collective.Layout.{offsets, entry, before, total, owner}
use native.Mathlib.Nat.{mod-eq_of_lt}

unwrapped : (n : ℕ) → n < 2 ^ 64 → u64 n ≡ n
unwrapped n h = mod-eq_of_lt h

-- While the whole fits in 64 bits, the running offset is the bytes before.
entry-offsets :
    (k : ℕ) (ls : List ℕ) (i : ℕ)
    → k + total ls < 2 ^ 64
    → i < length ls
    → entry (offsets k ls) i ≡ k + before ls i
unfolding offsets before total
entry-offsets k [] i h hi = absurd (omega arith)
entry-offsets k (l ∷ ls) zero h hi = omega arith
entry-offsets k (l ∷ ls) (suc i) h hi =
    rw (unwrapped (k + l) (omega arith))
      (omega (arith, entry-offsets (k + l) ls i (omega arith) (omega arith)))

pub entry-offsets_start :
    (ls : List ℕ) (i : ℕ) → total ls < 2 ^ 64 → i < length ls → entry (offsets 0 ls) i ≡ before ls i
entry-offsets_start ls i h hi = omega (arith, entry-offsets 0 ls i (omega arith) hi)

pub before_step :
    (ls : List ℕ) (i j : ℕ) → i < j → j < length ls → before ls i + entry ls i ≤ before ls j
unfolding before
before_step [] i j h hj = absurd (omega arith)
before_step (l ∷ ls) i zero h hj = absurd (omega arith)
before_step (l ∷ ls) zero (suc j) h hj = omega arith
before_step (l ∷ ls) (suc i) (suc j) h hj =
    omega (arith, before_step ls i j (omega arith) (omega arith))

pub owner_lt : (ls : List ℕ) (a : ℕ) → a < total ls → owner ls a < length ls
unfolding owner total
owner_lt [] a h = absurd (omega arith)
owner_lt (l ∷ ls) a h = elim (lt-or_le a l) [
  | inl b ↦ rw (lt→ltb a l b) (omega arith)
  | inr g ↦ rw (le→ltb a l g) (omega (arith, owner_lt ls (a - l) (omega arith)))
]

pub owner_region :
    (ls : List ℕ) (a : ℕ)
    → a < total ls
    → (before ls (owner ls a) ≤ a) × (a < before ls (owner ls a) + entry ls (owner ls a))
unfolding owner total before
owner_region [] a h = absurd (omega arith)
owner_region (l ∷ ls) a h = elim (lt-or_le a l) [
  | inl b ↦ rw (lt→ltb a l b) (omega arith, omega arith)
  | inr g ↦ rw (le→ltb a l g) (
    omega (arith, owner_region ls (a - l) (omega arith)),
    omega (arith, owner_region ls (a - l) (omega arith)),
  )
]

pub owner_unique :
    (ls : List ℕ) (i a : ℕ)
    → i < length ls
    → before ls i ≤ a
    → a < before ls i + entry ls i
    → owner ls a ≡ i
unfolding owner before
owner_unique [] i a hi lo up = absurd (omega arith)
owner_unique (l ∷ ls) zero a hi lo up = rw (lt→ltb a l (omega arith)) refl
owner_unique (l ∷ ls) (suc i) a hi lo up =
    rw (le→ltb a l (omega arith))
      (ap suc (owner_unique ls i (a - l) (omega arith) (omega arith) (omega arith)))
