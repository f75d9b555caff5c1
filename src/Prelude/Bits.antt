-- ===== src/Prelude/Bits.antt =====
-- Shifts and unions of bit fields as arithmetic.
use Prim.Native.Nat.{
  ℕ, zero, suc, ◌+◌, ◌*◌, ◌/◌, ◌%◌, ◌^◌, ◌≤◌, ◌<◌, ◌-◌, min, max, bit_and, bit_or, digits,
  bit_and-bitwise, bit_or-bitwise,
}
use mathlib.Core.Path.{◌≡◌, refl, ap}
use native.Mathlib.Nat.{pow-suc, one-le-pow}
use native.Mathlib.Omega.{arith}

-- uint8_t, uint32_t and uint64_t values: the remainder that a store keeps.
abbrev pub u8 : ℕ → ℕ
u8 n = n % 2 ^ 8

abbrev pub u32 : ℕ → ℕ
u32 n = n % 2 ^ 32

abbrev pub u64 : ℕ → ℕ
u64 n = n % 2 ^ 64

-- The digit recursion that `bit_or` stands for, on `n` rounds of fuel.
abbrev or_digits : ℕ → ℕ → ℕ → ℕ
or_digits n a b = digits (λ d. d) max n a b

or_digits_enough : (n m a b : ℕ) → a ≤ n → a ≤ m → or_digits n a b ≡ or_digits m a b
or_digits_enough zero zero a b p q = refl
or_digits_enough zero (suc m) zero b p q = refl
or_digits_enough zero (suc m) (suc a) b p q = absurd (omega arith)
or_digits_enough (suc n) zero zero b p q = refl
or_digits_enough (suc n) zero (suc a) b p q = absurd (omega arith)
or_digits_enough (suc n) (suc m) zero b p q = refl
or_digits_enough (suc n) (suc m) (suc a) b p q =
    omega (arith, or_digits_enough n m (suc a / 2) (b / 2) (omega arith) (omega arith))

zero-bit_or : (b : ℕ) → bit_or 0 b ≡ b
zero-bit_or b = bit_or-bitwise 0 b

bit_or_split : (a b : ℕ) → bit_or a b ≡ bit_or (a / 2) (b / 2) * 2 + max (a % 2) (b % 2)
bit_or_split zero b = omega (arith, zero-bit_or b, zero-bit_or (b / 2))
bit_or_split (suc a) b = omega (
  arith,
  bit_or-bitwise (suc a) b,
  bit_or-bitwise (suc a / 2) (b / 2),
  or_digits_enough a (suc a / 2) (suc a / 2) (b / 2) (omega arith) (omega arith),
)

or-zero_fuel : (n a : ℕ) → a ≤ n → bit_or a 0 ≡ a
or-zero_fuel n zero h = refl
or-zero_fuel zero (suc a) h = absurd (omega arith)
or-zero_fuel (suc n) (suc a) h =
    omega (arith, bit_or_split (suc a) 0, or-zero_fuel n (suc a / 2) (omega arith))

-- `|` of a field shifted past `k` bits and of a field of `k` bits adds them.
pub bit_or-shifted : (k hi lo : ℕ) → lo < 2 ^ k → bit_or (hi * 2 ^ k) lo ≡ hi * 2 ^ k + lo
bit_or-shifted zero hi lo h = ground (arith, or-zero_fuel hi hi)
bit_or-shifted (suc k) hi lo h = ground (
  arith,
  bit_or_split (hi * 2 ^ suc k) lo,
  pow-suc 2 k,
  ap (λ (t : ℕ). hi * t) (pow-suc 2 k),
  bit_or-shifted k hi (lo / 2) (omega (arith, pow-suc 2 k)),
)

abbrev and_digits : ℕ → ℕ → ℕ → ℕ
and_digits n a b = digits (λ d. zero) min n a b

and_digits_enough : (n m a b : ℕ) → a ≤ n → a ≤ m → and_digits n a b ≡ and_digits m a b
and_digits_enough zero zero a b p q = refl
and_digits_enough zero (suc m) zero b p q = refl
and_digits_enough zero (suc m) (suc a) b p q = absurd (omega arith)
and_digits_enough (suc n) zero zero b p q = refl
and_digits_enough (suc n) zero (suc a) b p q = absurd (omega arith)
and_digits_enough (suc n) (suc m) zero b p q = refl
and_digits_enough (suc n) (suc m) (suc a) b p q =
    omega (arith, and_digits_enough n m (suc a / 2) (b / 2) (omega arith) (omega arith))

pub zero-bit_and : (b : ℕ) → bit_and 0 b ≡ 0
zero-bit_and b = bit_and-bitwise 0 b

pub bit_and_split : (a b : ℕ) → bit_and a b ≡ bit_and (a / 2) (b / 2) * 2 + min (a % 2) (b % 2)
bit_and_split zero b = omega (arith, zero-bit_and b, zero-bit_and (b / 2))
bit_and_split (suc a) b = omega (
  arith,
  bit_and-bitwise (suc a) b,
  bit_and-bitwise (suc a / 2) (b / 2),
  and_digits_enough a (suc a / 2) (suc a / 2) (b / 2) (omega arith) (omega arith),
)

and-zero_fuel : (n a : ℕ) → a ≤ n → bit_and a 0 ≡ 0
and-zero_fuel n zero h = refl
and-zero_fuel zero (suc a) h = absurd (omega arith)
and-zero_fuel (suc n) (suc a) h =
    omega (arith, bit_and_split (suc a) 0, and-zero_fuel n (suc a / 2) (omega arith))

-- `&` with a mask of `k` ones keeps a value of `k` bits.
pub bit_and-ones : (k a : ℕ) → a < 2 ^ k → bit_and a (2 ^ k - 1) ≡ a
bit_and-ones zero a h = ground (arith, and-zero_fuel a a)
bit_and-ones (suc k) a h = ground (
  arith,
  bit_and_split a (2 ^ suc k - 1),
  pow-suc 2 k,
  one-le-pow k 2,
  bit_and-ones k (a / 2) (omega (arith, pow-suc 2 k)),
)
