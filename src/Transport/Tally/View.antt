-- ===== src/Transport/Tally/View.antt =====
-- The tallies of a context seen as a queue of ranks for each slot.
use gloo.Prelude.{
  ℕ, ◌+◌, ◌<◌, ◌≡◌, refl, ◌≢◌, Bool, true, false, List, [], ◌∷◌, ◌++◌, arith, ◌==◌, if◌then◌else◌,
}
use gloo.Transport.Tally.{Tally, tally_empty, shift}

-- The queue that `field` of the first tally for a slot holds; no tally, no ranks.
unfoldable pub queue : (Tally → List ℕ) → List Tally → ℕ → List ℕ
queue field [] slot = []
queue field (t ∷ ts) slot =
    let rest = queue field ts slot in if t.slot == slot then field t else rest

-- How often a rank stands in a queue.
unfoldable pub count : ℕ → List ℕ → ℕ
count a [] = 0
count a (x ∷ xs) = (if x == a then 1 else 0) + count a xs

-- A queue without its first occurrence of a rank.
unfoldable pub without : ℕ → List ℕ → List ℕ
without a [] = []
without a (x ∷ xs) = if x == a then xs else x ∷ without a xs

unfoldable pub mem : ℕ → List ℕ → Bool
mem a [] = false
mem a (x ∷ xs) = if x == a then true else mem a xs

pub shift_lem : (xs : List ℕ) (a : ℕ) → shift xs a ≡ (mem a xs, without a xs)
unfolding shift mem without
shift_lem [] a = refl
shift_lem (x ∷ xs) a = ground (arith, shift_lem xs a)

pub count-append : (a : ℕ) (xs ys : List ℕ) → count a (xs ++ ys) ≡ count a xs + count a ys
unfolding count
count-append a [] ys = omega arith
count-append a (x ∷ xs) ys = omega (arith, count-append a xs ys)

pub mem-count : (a : ℕ) (xs : List ℕ) → (if mem a xs then 0 < count a xs else count a xs ≡ 0)
unfolding mem count
mem-count a [] = refl
mem-count a (x ∷ xs) = ground (arith, mem-count a xs)

-- The other tallies have other slots, and none is empty.
abbrev pub Avoids : ℕ → List Tally → Type 0
Avoids slot [] = Unit {0}
Avoids slot (t ∷ ts) = (t.slot ≢ slot) × Avoids slot ts

abbrev pub IsValid : List Tally → Type 0
IsValid [] = Unit {0}
IsValid (t ∷ ts) = (tally_empty t ≡ false) × Avoids t.slot ts × IsValid ts

pub count-append_one :
    (a b : ℕ) (xs : List ℕ) → count a (xs ++ b ∷ []) ≡ count a xs + (if b == a then 1 else 0)
unfolding count
count-append_one a b [] = omega arith
count-append_one a b (x ∷ xs) = omega (arith, count-append_one a b xs)

-- A rank that is there goes once; one that is not there leaves the queue as it is.
pub count-without :
    (a : ℕ) (xs : List ℕ) → count a (without a xs) + (if mem a xs then 1 else 0) ≡ count a xs
unfolding count without mem
count-without a [] = refl
count-without a (x ∷ xs) = ground (arith, count-without a xs)

pub count_missing : (a : ℕ) (xs : List ℕ) → mem a xs ≡ false → count a xs ≡ 0
unfolding count mem
count_missing a [] h = refl
count_missing a (x ∷ xs) h = ground (arith, count_missing a xs)
