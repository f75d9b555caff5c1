-- ===== src/Prelude/Blocks.antt =====
-- An array of blocks of `b` bytes.
use Prim.Native.Nat.{ℕ, ◌+◌, ◌-◌, ◌*◌, ◌/◌, ◌%◌, ◌≤◌, ◌<◌}
use mathlib.Core.Path.{◌≡◌, ap, sym, ◌∙◌}
use mathlib.Core.Logic.{inl, inr}
use gloo.Prelude.Wrap.{wrap-cases}
use native.Mathlib.Nat.{
  mod-eq_of_lt, add-mod_left, mul-add-div_right, mul-add-mod_self_right, div-eq_of_lt,
  mul-le-mul_right, add-mul, suc-mul,
}
use native.Mathlib.Omega.{arith}

pub block_of : (s b x : ℕ) → x < b → (s * b + x) / b ≡ s
block_of s b x h = mul-add-div_right (omega arith) s x ∙ omega (arith, div-eq_of_lt h)

pub place_of : (s b x : ℕ) → x < b → (s * b + x) % b ≡ x
place_of s b x h = mul-add-mod_self_right s b x ∙ mod-eq_of_lt h

-- Blocks end where the next begins.
pub block_end : (s n b : ℕ) → s < n → s * b + b ≤ n * b
block_end s n b h = omega (arith, mul-le-mul_right b h, suc-mul s b)

-- An offset that goes round the array is one in the segment that goes round the blocks.
pub wrap_blocks : (q n b x : ℕ) → x < b → q < n + n → (q * b + x) % (n * b) ≡ q % n * b + x
wrap_blocks q n b x hx hq = elim (wrap-cases q n hq) [
  | inl (l, e) ↦ mod-eq_of_lt (omega (arith, block_end q n b l)) ∙ ap (λ s. s * b + x) (sym e)
  | inr (g, e) ↦
      ap (λ t. t % (n * b)) (split g)
      ∙ add-mod_left (n * b) ((q - n) * b + x)
      ∙ mod-eq_of_lt (omega (arith, block_end (q - n) n b (omega arith)))
      ∙ ap (λ s. s * b + x) (sym e)
]
  where
    rest : n ≤ q → q ≡ n + (q - n)
    rest g = omega arith

    split : n ≤ q → q * b + x ≡ n * b + ((q - n) * b + x)
    split g = omega (arith, ap (λ t. t * b) (rest g), add-mul n (q - n) b)
