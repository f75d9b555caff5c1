-- ===== src/Transport/Tally/Queues.antt =====
-- What the operations on the vector of tallies do to the queue of each slot, and that they keep
-- it valid: one tally for a slot, none of them empty.
use gloo.Prelude.{ℕ, ◌≡◌, refl, ◌≢◌, true, false, List, [], ◌∷◌, arith, ◌==◌, if◌then◌else◌}
use gloo.Transport.Tally.{Tally, fresh, tally_empty}
use gloo.Transport.Tally.View.{queue, Avoids, IsValid}
use gloo.Transport.Tally.Laws.{with_slot, settle, has_slot, first_of_slot}

abbrev pub Distinct : List Tally → Type 0
Distinct [] = Unit {0}
Distinct (t ∷ ts) = Avoids t.slot ts × Distinct ts

pub IsValid-Distinct : (ts : List Tally) → IsValid ts → Distinct ts
IsValid-Distinct [] v = tt
IsValid-Distinct (t ∷ ts) v = (v.1, IsValid-Distinct ts v.2)

queue-Avoids :
    (field : Tally → List ℕ) (ts : List Tally) (slot : ℕ)
    → Avoids slot ts
    → queue field ts slot ≡ []
unfolding queue
queue-Avoids field [] slot a = refl
queue-Avoids field (t ∷ ts) slot a = ground (arith, queue-Avoids field ts slot a.1)

module _ (field : Tally → List ℕ) (blank : (slot : ℕ) → field (fresh slot) ≡ []) where
  pub queue-first_of_slot :
      (ts : List Tally) (slot : ℕ) → queue field ts slot ≡ field (first_of_slot ts slot)
  unfolding queue first_of_slot
  queue-first_of_slot [] slot = ground (arith, blank slot)
  queue-first_of_slot (t ∷ ts) slot = ground (arith, queue-first_of_slot ts slot)

  pub queue-missing :
      (ts : List Tally) (slot : ℕ) → has_slot ts slot ≡ false → queue field ts slot ≡ []
  unfolding queue has_slot
  queue-missing [] slot h = refl
  queue-missing (t ∷ ts) slot h = ground (arith, queue-missing ts slot)

  module _ (f : Tally → Tally) (keeps : (t : Tally) → (f t).slot ≡ t.slot) where
    pub queue-with_slot :
        (ts : List Tally) (slot other : ℕ)
        → queue field (with_slot ts slot f) other
          ≡ (if slot == other then field (f (first_of_slot ts slot)) else queue field ts other)
    unfolding queue with_slot first_of_slot
    queue-with_slot [] slot other = ground (arith, keeps (fresh slot))
    queue-with_slot (t ∷ ts) slot other = ground (arith, keeps t, queue-with_slot ts slot other)

  module _ (empties : (t : Tally) → tally_empty t ≡ true → field t ≡ []) where
    pub queue-settle :
        (ts : List Tally) (slot other : ℕ)
        → Distinct ts
        → queue field (settle ts slot) other ≡ queue field ts other
    unfolding queue settle
    queue-settle [] slot other d = refl
    queue-settle (t ∷ ts) slot other d =
        ground (arith, empties t, queue-Avoids field ts t.slot d.0, queue-settle ts slot other d.1)

module _ (f : Tally → Tally) (keeps : (t : Tally) → (f t).slot ≡ t.slot) where
  Avoids-with_slot :
      (ts : List Tally) (slot other : ℕ)
      → other ≢ slot
      → Avoids other ts
      → Avoids other (with_slot ts slot f)
  unfolding with_slot
  Avoids-with_slot [] slot other h a = ground (arith, keeps (fresh slot))
  Avoids-with_slot (t ∷ ts) slot other h a =
      ground (arith, keeps t, Avoids-with_slot ts slot other h a.1)

  pub Distinct-with_slot :
      (ts : List Tally) (slot : ℕ) → Distinct ts → Distinct (with_slot ts slot f)
  unfolding with_slot
  Distinct-with_slot [] slot d = (tt, tt)
  Distinct-with_slot (t ∷ ts) slot d =
      ground (arith, keeps t, Distinct-with_slot ts slot d.1, Avoids-with_slot ts slot t.slot)

  Avoids-settle :
      (ts : List Tally) (slot other : ℕ) → Avoids other ts → Avoids other (settle ts slot)
  unfolding settle
  Avoids-settle [] slot other a = tt
  Avoids-settle (t ∷ ts) slot other a = ground (arith, Avoids-settle ts slot other a.1)

  pub settle-with_slot-IsValid :
      (ts : List Tally) (slot : ℕ) → IsValid ts → IsValid (settle (with_slot ts slot f) slot)
  unfolding with_slot settle
  settle-with_slot-IsValid [] slot v = ground (arith, keeps (fresh slot))
  settle-with_slot-IsValid (t ∷ ts) slot v = ground (
    arith,
    keeps t,
    settle-with_slot-IsValid ts slot v.2,
    Avoids-with_slot ts slot t.slot,
    Avoids-settle (with_slot ts slot f) slot t.slot,
  )
