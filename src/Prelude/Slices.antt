-- ===== src/Prelude/Slices.antt =====
-- Slices of lists: laws of take and drop.
use Prim.Native.Nat.{ℕ, zero, suc, ◌+◌, ◌-◌, ◌≤◌}
use mathlib.Core.Path.{◌≡◌, refl, ap}
use mathlib.Core.List.{List, [], ◌∷◌, ◌++◌}
use native.Mathlib.Omega.{arith}
use gloo.Prelude.Lists.{length, take, drop}

module _ {ℓ} {A : Type ℓ} where
  pub drop-drop : (i j : ℕ) (xs : List A) → drop j (drop i xs) ≡ drop (i + j) xs
  drop-drop zero j xs = let e : 0 + j ≡ j = omega arith in rw e
  drop-drop (suc i) zero [] = let e : suc i + zero ≡ suc i = omega arith in rw e
  drop-drop (suc i) (suc j) [] = let e : suc i + suc j ≡ suc (i + suc j) = omega arith in rw e
  drop-drop (suc i) j (x ∷ xs) =
      let e : suc i + j ≡ suc (i + j) = omega arith in rw e (drop-drop i j xs)

  take-nil : (n : ℕ) → take {A = A} n [] ≡ []
  take-nil zero = refl
  take-nil (suc n) = refl

  pub drop-take : (j n : ℕ) (xs : List A) → drop j (take n xs) ≡ take (n - j) (drop j xs)
  drop-take zero n xs = let e : n - zero ≡ n = omega arith in rw e
  drop-take (suc j) zero xs = let e : 0 - suc j ≡ 0 = omega arith in rw e
  drop-take (suc j) (suc n) [] =
      let e : suc n - suc j ≡ n - j = omega arith in rw (e, take-nil (n - j)) refl
  drop-take (suc j) (suc n) (x ∷ xs) =
      let e : suc n - suc j ≡ n - j = omega arith in rw e (drop-take j n xs)

  pub drop-append_le :
      (j : ℕ) (xs ys : List A) → j ≤ length xs → drop j (xs ++ ys) ≡ drop j xs ++ ys
  drop-append_le zero xs ys h = refl
  drop-append_le (suc j) [] ys h = absurd (omega arith)
  drop-append_le (suc j) (x ∷ xs) ys h = drop-append_le j xs ys (omega arith)

  pub drop-append_ge :
      (j : ℕ) (xs ys : List A) → length xs ≤ j → drop j (xs ++ ys) ≡ drop (j - length xs) ys
  drop-append_ge j [] ys h = let e : j - 0 ≡ j = omega arith in rw e
  drop-append_ge zero (x ∷ xs) ys h = absurd (omega arith)
  drop-append_ge (suc j) (x ∷ xs) ys h =
      let e : suc j - suc (length xs) ≡ j - length xs = omega arith in
      rw e (drop-append_ge j xs ys (omega arith))

  pub drop_all : (j : ℕ) (xs : List A) → length xs ≤ j → drop j xs ≡ []
  drop_all zero [] h = refl
  drop_all zero (x ∷ xs) h = absurd (omega arith)
  drop_all (suc j) [] h = refl
  drop_all (suc j) (x ∷ xs) h = drop_all j xs (omega arith)

  pub take_all : (j : ℕ) (xs : List A) → length xs ≤ j → take j xs ≡ xs
  take_all zero [] h = refl
  take_all zero (x ∷ xs) h = absurd (omega arith)
  take_all (suc j) [] h = refl
  take_all (suc j) (x ∷ xs) h = ap (λ r. x ∷ r) (take_all j xs (omega arith))

  pub take-append_length : (xs ys : List A) → take (length xs) (xs ++ ys) ≡ xs
  take-append_length [] ys = refl
  take-append_length (x ∷ xs) ys = ap (λ r. x ∷ r) (take-append_length xs ys)

  pub take-append_le : (j : ℕ) (xs ys : List A) → j ≤ length xs → take j (xs ++ ys) ≡ take j xs
  take-append_le zero xs ys h = refl
  take-append_le (suc j) [] ys h = absurd (omega arith)
  take-append_le (suc j) (x ∷ xs) ys h = ap (λ r. x ∷ r) (take-append_le j xs ys (omega arith))
