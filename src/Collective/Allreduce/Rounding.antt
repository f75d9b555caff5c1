-- ===== src/Collective/Allreduce/Rounding.antt =====
-- gloo/math.h: `roundUp`, and std::max.
use gloo.Prelude.{
  ℕ, ◌≡◌, refl, ◌+◌, ◌*◌, ◌/◌, ◌%◌, ◌≤◌, ◌<◌, false, inl, inr, ◌==◌, lt-or_le, arith,
}
use gloo.Collective.Allreduce.{round_up, larger}
use Prim.Native.Nat.{◌∣◌}
use native.Mathlib.Nat.{mod-lt, dvd_of_mod-eq-zero, add-mul, div-add-mod', dvd-mul_left}

pub round_up_zero : (v m : ℕ) → v % m ≡ 0 → round_up v m ≡ v
unfolding round_up
round_up_zero v m h = rw h refl

pub round_up_pos : (v m : ℕ) → 0 < m → 0 < v % m → round_up v m ≡ (v / m + 1) * m
unfolding round_up
round_up_pos v m m_pos h =
    rw nonzero (omega (arith, div-add-mod' v m, mod-lt v m_pos, add-mul (v / m) 1 m))
  where
    nonzero : (v % m == 0) ≡ false
    nonzero = ground arith

pub round_up-dvd : (v m : ℕ) → 0 < m → (m ∣ round_up v m) × (v ≤ round_up v m)
round_up-dvd v m h = elim (lt-or_le 0 (v % m)) [
  | inl l ↦
      rw (round_up_pos v m h l) (
        dvd-mul_left m (v / m + 1),
        omega (arith, div-add-mod' v m, mod-lt v h, add-mul (v / m) 1 m),
      )
  | inr g ↦ rw (round_up_zero v m (omega arith)) (dvd_of_mod-eq-zero m (omega arith), omega arith)
]

pub larger_le : (a b : ℕ) → (a ≤ larger a b) × (b ≤ larger a b)
unfolding larger
larger_le a b = (ground arith, ground arith)
