-- ===== src/Collective/Broadcast/Masks.antt =====
-- The masks of gloo/broadcast.cc, as arithmetic.
use gloo.Prelude.{
  ℕ, zero, suc, ◌≡◌, refl, sym, ap, subst, ◌∙◌, ◌+◌, ◌-◌, ◌*◌, ◌/◌, ◌%◌, ◌^◌, ◌≤◌, ◌<◌, min,
  bit_and, bit_and_split, bit_and-ones, zero-bit_and, arith,
}
use Prim.Native.Nat.{digits, differ, bit_xor, bit_xor-bitwise}
use native.Mathlib.Nat.{mul_assoc, pow-suc}

-- The digit recursion that `bit_xor` stands for, on `n` rounds of fuel.
abbrev xor_digits : ℕ → ℕ → ℕ → ℕ
xor_digits n a b = digits (λ d. d) differ n a b

xor_digits_enough : (n m a b : ℕ) → a ≤ n → a ≤ m → xor_digits n a b ≡ xor_digits m a b
xor_digits_enough zero zero a b p q = refl
xor_digits_enough zero (suc m) zero b p q = refl
xor_digits_enough zero (suc m) (suc a) b p q = absurd (omega arith)
xor_digits_enough (suc n) zero zero b p q = refl
xor_digits_enough (suc n) zero (suc a) b p q = absurd (omega arith)
xor_digits_enough (suc n) (suc m) zero b p q = refl
xor_digits_enough (suc n) (suc m) (suc a) b p q =
    omega (arith, xor_digits_enough n m (suc a / 2) (b / 2) (omega arith) (omega arith))

zero-bit_xor : (b : ℕ) → bit_xor 0 b ≡ b
zero-bit_xor b = bit_xor-bitwise 0 b

differ_zero : (a : ℕ) → differ a 0 ≡ a
differ_zero zero = refl
differ_zero (suc a) = refl

bit_xor_split : (a b : ℕ) → bit_xor a b ≡ bit_xor (a / 2) (b / 2) * 2 + differ (a % 2) (b % 2)
bit_xor_split zero b = omega (arith, zero-bit_xor b, zero-bit_xor (b / 2))
bit_xor_split (suc a) b = omega (
  arith,
  bit_xor-bitwise (suc a) b,
  bit_xor-bitwise (suc a / 2) (b / 2),
  xor_digits_enough a (suc a / 2) (suc a / 2) (b / 2) (omega arith) (omega arith),
)

-- An even number has no last digit to change.
even-bit_xor : (a b : ℕ) → bit_xor a (b * 2) ≡ bit_xor (a / 2) b * 2 + a % 2
even-bit_xor a b =
    bit_xor_split a (b * 2)
    ∙ ap (λ x. bit_xor (a / 2) x * 2 + differ (a % 2) (b * 2 % 2)) (omega arith)
    ∙ ap (λ x. bit_xor (a / 2) b * 2 + differ (a % 2) x) (omega arith)
    ∙ ap (λ x. bit_xor (a / 2) b * 2 + x) (differ_zero (a % 2))

even-bit_and : (a b : ℕ) → bit_and a (b * 2) ≡ bit_and (a / 2) b * 2
even-bit_and a b =
    bit_and_split a (b * 2)
    ∙ ap (λ x. bit_and (a / 2) x * 2 + min (a % 2) (b * 2 % 2)) half
    ∙ omega arith
  where
    half : b * 2 / 2 ≡ b
    half = omega arith

pub doubled : (q i : ℕ) → q * 2 ^ suc i ≡ q * 2 ^ i * 2
doubled q i = omega (arith, ap (λ t. q * t) (pow-suc 2 i), mul_assoc q (2 ^ i) 2)

-- `vrank ^ (1 << i)`.
pub bit_xor-clear : (i v : ℕ) → v < 2 ^ i → bit_xor v (2 ^ i) ≡ v + 2 ^ i
bit_xor-clear zero v h =
    let e : v ≡ 0 = omega arith in ap (λ x. bit_xor x 1) e ∙ omega (arith, e, zero-bit_xor 1)
bit_xor-clear (suc i) v h =
    ap (bit_xor v) (pow-suc 2 i)
    ∙ even-bit_xor v (2 ^ i)
    ∙ omega (arith, bit_xor-clear i (v / 2) (omega (arith, pow-suc 2 i)), pow-suc 2 i)

pub bit_xor-raised : (i v : ℕ) → 2 ^ i ≤ v → v < 2 ^ suc i → bit_xor v (2 ^ i) ≡ v - 2 ^ i
bit_xor-raised zero v h h' =
    let e : v ≡ 1 = omega arith in
    ap (λ x. bit_xor x 1) e ∙ omega (arith, e, bit_xor_split 1 1, zero-bit_xor 0)
bit_xor-raised (suc i) v h h' =
    ap (bit_xor v) (pow-suc 2 i)
    ∙ even-bit_xor v (2 ^ i)
    ∙ omega (
      arith,
      bit_xor-raised i (v / 2) (omega (arith, pow-suc 2 i))
          (omega (arith, pow-suc 2 i, pow-suc 2 (suc i))),
      pow-suc 2 i,
    )

bit_xor-zero : (n a : ℕ) → a ≤ n → bit_xor a 0 ≡ a
bit_xor-zero zero a h =
    let e : a ≡ 0 = omega arith in ap (λ x. bit_xor x 0) e ∙ omega (arith, e, zero-bit_xor 0)
bit_xor-zero (suc n) a h = even-bit_xor a 0 ∙ omega (arith, bit_xor-zero n (a / 2) (omega arith))

-- `mask ^= (1 << i)`, with the bits from `i` on set.
pub bit_xor-lowest : (i q : ℕ) → bit_xor (q * 2 ^ suc i + 2 ^ i) (2 ^ i) ≡ q * 2 ^ suc i
bit_xor-lowest zero q =
    bit_xor_split (q * 2 + 1) 1
    ∙ ap (λ x. bit_xor x 0 * 2 + differ ((q * 2 + 1) % 2) 1) half
    ∙ ap (λ x. bit_xor q 0 * 2 + differ x 1) odd
    ∙ omega (arith, bit_xor-zero q q (omega arith))
  where
    half : (q * 2 + 1) / 2 ≡ q
    half = omega arith

    odd : (q * 2 + 1) % 2 ≡ 1
    odd = omega arith
bit_xor-lowest (suc i) q =
    ap (bit_xor (q * 2 ^ suc (suc i) + 2 ^ suc i)) (pow-suc 2 i)
    ∙ even-bit_xor (q * 2 ^ suc (suc i) + 2 ^ suc i) (2 ^ i)
    ∙ ap (λ x. bit_xor x (2 ^ i) * 2 + (q * 2 ^ suc (suc i) + 2 ^ suc i) % 2) half
    ∙ omega (arith, bit_xor-lowest i q, doubled q (suc i), pow-suc 2 i)
  where
    half : (q * 2 ^ suc (suc i) + 2 ^ suc i) / 2 ≡ q * 2 ^ suc i + 2 ^ i
    half = omega (arith, doubled q (suc i), pow-suc 2 i)

-- `vrank & mask`, with the `k` bits from `j` on set.
pub bit_and-below : (j q v : ℕ) → v < 2 ^ j → bit_and v (q * 2 ^ j) ≡ 0
bit_and-below zero q v h = ap (λ x. bit_and x (q * 1)) (omega arith) ∙ zero-bit_and (q * 1)
bit_and-below (suc j) q v h =
    ap (bit_and v) (doubled q j)
    ∙ even-bit_and v (q * 2 ^ j)
    ∙ omega (arith, bit_and-below j q (v / 2) (omega (arith, pow-suc 2 j)))

pub bit_and-above : (j k v : ℕ) → 2 ^ j ≤ v → v < 2 ^ (j + k) → 0 < bit_and v ((2 ^ k - 1) * 2 ^ j)
bit_and-above zero k v h h' =
    subst (λ x. 0 < bit_and v x) mask (omega (arith, bit_and-ones k v small))
  where
    mask : 2 ^ k - 1 ≡ (2 ^ k - 1) * 2 ^ 0
    mask = omega arith

    less : 0 + k ≡ k
    less = omega arith

    small : v < 2 ^ k
    small = subst (λ t. v < 2 ^ t) less h'
bit_and-above (suc j) k v h h' =
    subst (λ x. 0 < x)
      (sym (ap (bit_and v) (doubled (2 ^ k - 1) j) ∙ even-bit_and v ((2 ^ k - 1) * 2 ^ j)))
      (omega (arith, bit_and-above j k (v / 2) (omega (arith, pow-suc 2 j)) half))
  where
    again : suc j + k ≡ suc (j + k)
    again = omega arith

    half : v / 2 < 2 ^ (j + k)
    half = omega (arith, pow-suc 2 (j + k), ap (λ t. 2 ^ t) again)
