-- ===== src/Transport/Tally/Laws.antt =====
-- A lazy tally that is opened, used once and destroyed acts on the queue of its slot alone.
use gloo.Prelude.{
  ℕ, ◌-◌, ◌<◌, ◌≤◌, ◌≡◌, refl, ap, Bool, true, false, List, [], ◌∷◌, ◌++◌, arith, ◌==◌,
  if◌then◌else◌, length, get_elem?, some, length-append, Bool-cases, ◌∙◌, inl, inr, not,
}
use gloo.Transport.Tally.{
  Tally, fresh, tally_empty, find_slot, erase_at, update_at, lazy, initialize_iterator, exists, get,
  destroy, modify, take_from,
}

-- The first tally for a slot changed by `f`, or a fresh one added and changed.
unfoldable pub with_slot : List Tally → ℕ → (Tally → Tally) → List Tally
with_slot [] slot f = f (fresh slot) ∷ []
with_slot (t ∷ ts) slot f = if t.slot == slot then f t ∷ ts else t ∷ with_slot ts slot f

-- The first tally for a slot removed if it is empty.
unfoldable pub settle : List Tally → ℕ → List Tally
settle [] slot = []
settle (t ∷ ts) slot =
    if t.slot == slot then (if tally_empty t then ts else t ∷ ts) else t ∷ settle ts slot

pub find_slot-le : (ts : List Tally) (slot : ℕ) → find_slot ts slot ≤ length ts
unfolding find_slot
find_slot-le [] slot = omega arith
find_slot-le (t ∷ ts) slot = ground (arith, find_slot-le ts slot)

-- Index and recursion agree: a slot that is there is changed in place.
update_at-found :
    (ts : List Tally) (slot : ℕ) (f : Tally → Tally)
    → find_slot ts slot < length ts
    → update_at ts (find_slot ts slot) f ≡ with_slot ts slot f
unfolding find_slot update_at with_slot
update_at-found [] slot f h = absurd (omega arith)
update_at-found (t ∷ ts) slot f h = ground (arith, update_at-found ts slot f)

update_at-added :
    (ts : List Tally) (slot : ℕ) (f : Tally → Tally)
    → find_slot ts slot ≡ length ts
    → update_at (ts ++ fresh slot ∷ []) (length ts) f ≡ with_slot ts slot f
unfolding find_slot update_at with_slot
update_at-added [] slot f h = refl
update_at-added (t ∷ ts) slot f h = ground (arith, update_at-added ts slot f)

destroy-settle :
    (ts : List Tally) (slot : ℕ)
    → destroy (record { vec = ts; slot = slot; it = find_slot ts slot; initialized = true })
      ≡ settle ts slot
unfolding destroy find_slot settle erase_at
destroy-settle [] slot = refl
destroy-settle (t ∷ ts) slot = ground (arith, destroy-settle ts slot)

find_slot-with_slot :
    (ts : List Tally) (slot : ℕ) (f : Tally → Tally)
    → ((t : Tally) → (f t).slot ≡ t.slot)
    → find_slot (with_slot ts slot f) slot ≡ find_slot ts slot
unfolding find_slot with_slot
find_slot-with_slot [] slot f h = ground (arith, h (fresh slot))
find_slot-with_slot (t ∷ ts) slot f h = ground (arith, h t, find_slot-with_slot ts slot f h)

destroy_at :
    (ts : List Tally) (slot i : ℕ)
    → find_slot ts slot ≡ i
    → destroy (record { vec = ts; slot = slot; it = i; initialized = true }) ≡ settle ts slot
destroy_at ts slot i e = rw (← e) (destroy-settle ts slot)

-- Opened, changed once and destroyed: the tally of the slot is changed, and dropped if empty.
pub destroy-modify :
    (ts : List Tally) (slot : ℕ) (f : Tally → Tally)
    → ((t : Tally) → (f t).slot ≡ t.slot)
    → destroy (modify f (lazy ts slot)) ≡ settle (with_slot ts slot f) slot
unfolding modify get initialize_iterator
destroy-modify ts slot f h = elim (Bool-cases (find_slot ts slot == length ts)) [
  | inl missing ↦ rw missing (
      let at_end : length (ts ++ fresh slot ∷ []) - 1 ≡ length ts =
        omega (arith, length-append ts (fresh slot ∷ [])) in
      rw (at_end, update_at-added ts slot f (ground arith))
        (destroy_at (with_slot ts slot f) slot (length ts)
          (find_slot-with_slot ts slot f h ∙ ground arith)))
  | inr found ↦
      rw (found, update_at-found ts slot f (ground (arith, find_slot-le ts slot)))
        (destroy_at (with_slot ts slot f) slot _ (find_slot-with_slot ts slot f h))
]

-- Does some tally have the slot?
unfoldable pub has_slot : List Tally → ℕ → Bool
has_slot [] slot = false
has_slot (t ∷ ts) slot = if t.slot == slot then true else has_slot ts slot

-- The first tally of a slot, or a fresh one.
unfoldable pub first_of_slot : List Tally → ℕ → Tally
first_of_slot [] slot = fresh slot
first_of_slot (t ∷ ts) slot = if t.slot == slot then t else first_of_slot ts slot

has_slot-find_slot :
    (ts : List Tally) (slot : ℕ) → has_slot ts slot ≡ not (find_slot ts slot == length ts)
unfolding has_slot find_slot
has_slot-find_slot [] slot = refl
has_slot-find_slot (t ∷ ts) slot = ground (arith, has_slot-find_slot ts slot)

get_elem?-find_slot :
    (ts : List Tally) (slot : ℕ)
    → has_slot ts slot ≡ true
    → get_elem? ts (find_slot ts slot) ≡ some (first_of_slot ts slot)
unfolding has_slot find_slot first_of_slot
get_elem?-find_slot [] slot h = cc
get_elem?-find_slot (t ∷ ts) slot h = ground (arith, get_elem?-find_slot ts slot)

take_from-lazy :
    (ts : List Tally) (slot : ℕ) (f : Tally → Bool × Tally)
    → has_slot ts slot ≡ true
    → take_from f (lazy ts slot) ≡ (
      (f (first_of_slot ts slot)).0,
      record {
        vec = with_slot ts slot (λ t. (f t).1);
        slot = slot;
        it = find_slot ts slot;
        initialized = true;
      },
    )
unfolding take_from exists get initialize_iterator
take_from-lazy ts slot f h =
    let found : (find_slot ts slot == length ts) ≡ false =
      ground (arith, has_slot-find_slot ts slot) in
    let there : find_slot ts slot < length ts = ground (arith, find_slot-le ts slot) in
    ground
      (arith, found, get_elem?-find_slot ts slot h, update_at-found ts slot (λ t. (f t).1) there)

-- A slot with no tally: the answer is no, and nothing changes.
pub take_from_missing :
    (ts : List Tally) (slot : ℕ) (f : Tally → Bool × Tally)
    → has_slot ts slot ≡ false
    → ((take_from f (lazy ts slot)).0 ≡ false) × (destroy (take_from f (lazy ts slot)).1 ≡ ts)
unfolding take_from exists get initialize_iterator destroy
take_from_missing ts slot f h =
    let missing : (find_slot ts slot == length ts) ≡ true =
      ground (arith, has_slot-find_slot ts slot) in
    (rw missing, rw (missing, missing))

-- Otherwise `f` acts on the first tally of the slot, which goes if it became empty.
pub take_from_found :
    (ts : List Tally) (slot : ℕ) (f : Tally → Bool × Tally)
    → ((t : Tally) → ((f t).1).slot ≡ t.slot)
    → has_slot ts slot ≡ true
    → ((take_from f (lazy ts slot)).0 ≡ (f (first_of_slot ts slot)).0)
      × (destroy (take_from f (lazy ts slot)).1 ≡ settle (with_slot ts slot (λ t. (f t).1)) slot)
take_from_found ts slot f keeps h =
    let e = take_from-lazy ts slot f h in
    (
      ap (λ r. r.0) e,
      ap (λ r. destroy r.1) e
          ∙ destroy_at _ slot _ (find_slot-with_slot ts slot (λ t. (f t).1) keeps),
    )
