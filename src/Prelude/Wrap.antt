-- ===== src/Prelude/Wrap.antt =====
-- Remainders of sums that pass the modulus once at most: `(size + rank + k) % size`.
use Prim.Native.Nat.{ℕ, ◌+◌, ◌-◌, ◌%◌, ◌≤◌, ◌<◌}
use mathlib.Core.Path.{◌≡◌, ◌∙◌}
use mathlib.Core.Logic.{◌⊎◌, inl, inr}
use native.Mathlib.Nat.{mod-eq_of_lt, mod-eq-sub-mod, add-mod_left}
use gloo.Prelude.Tests.{ltb, leb}
use mathlib.Core.Bool.{true, false, ◌&&◌}
use native.Mathlib.Omega.{arith}

pub lt-or_le : (x n : ℕ) → (x < n) ⊎ (n ≤ x)
lt-or_le x n = ground arith

-- Whether an address lies in a region.
pub inside : (lo a hi : ℕ) → lo ≤ a → a < hi → (leb lo a && ltb a hi) ≡ true
inside lo a hi l h = ground arith

pub outside : (lo a hi : ℕ) → ¬ ((lo ≤ a) × (a < hi)) → (leb lo a && ltb a hi) ≡ false
outside lo a hi n = elim (lt-or_le a lo) [
  | inl l ↦ ground arith
  | inr g ↦ elim (lt-or_le a hi) [ inl l ↦ absurd (n (g, l)) | inr h ↦ ground arith ]
]

pub wrap-cases : (x n : ℕ) → x < n + n → ((x < n) × (x % n ≡ x)) ⊎ ((n ≤ x) × (x % n ≡ x - n))
wrap-cases x n h = elim (lt-or_le x n) [
  | inl l ↦ inl (l, mod-eq_of_lt l)
  | inr g ↦ inr (g, mod-eq-sub-mod g ∙ mod-eq_of_lt (omega arith))
]

-- One more turn changes nothing.
pub wrap-cases₂ :
    (x n : ℕ) → x < n + n → ((x < n) × ((n + x) % n ≡ x)) ⊎ ((n ≤ x) × ((n + x) % n ≡ x - n))
wrap-cases₂ x n h = elim (wrap-cases x n h) [
  | inl (l, e) ↦ inl (l, add-mod_left n x ∙ e)
  | inr (g, e) ↦ inr (g, add-mod_left n x ∙ e)
]
