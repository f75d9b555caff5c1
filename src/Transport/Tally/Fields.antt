-- ===== src/Transport/Tally/Fields.antt =====
-- The two lists of a tally, and what each operation on a tally does to them.
use gloo.Prelude.{
  ℕ, ◌≡◌, refl, ◌∙◌, Bool, true, List, [], ◌∷◌, ◌++◌, arith, ◌==◌, if◌then◌else◌, Bool-cases, inl,
  inr,
}
use gloo.Transport.Tally.{
  Tally, fresh, tally_empty, push_send, push_recv, shift_send, shift_recv, lazy, destroy, modify,
  take_from,
}
use gloo.Transport.Tally.View.{queue, mem, without, shift_lem, IsValid}
use gloo.Transport.Tally.Laws.{
  with_slot, settle, has_slot, first_of_slot, destroy-modify, take_from_missing, take_from_found,
}
use gloo.Transport.Tally.Queues.{
  queue-first_of_slot, queue-missing, queue-with_slot, queue-settle, IsValid-Distinct,
  Distinct-with_slot, settle-with_slot-IsValid,
}

pub record IsField (field : Tally → List ℕ) : Type 0 where
  pub blank : (slot : ℕ) → field (fresh slot) ≡ []
  pub empties : (t : Tally) → tally_empty t ≡ true → field t ≡ []

pub send-IsField : IsField (λ t. t.send)
unfolding tally_empty
send-IsField = record { blank = λ slot. refl; empties = λ t e. ground arith }

pub recv-IsField : IsField (λ t. t.recv)
unfolding tally_empty
recv-IsField = record { blank = λ slot. refl; empties = λ t e. ground arith }

pub push_send_lem : (r : ℕ) (t : Tally) → push_send r t ≡ record t { send = t.send ++ r ∷ [] }
unfolding push_send
push_send_lem r t = refl

pub push_recv_lem : (r : ℕ) (t : Tally) → push_recv r t ≡ record t { recv = t.recv ++ r ∷ [] }
unfolding push_recv
push_recv_lem r t = refl

pub shift_send_lem :
    (r : ℕ) (t : Tally) → shift_send r t ≡ (mem r t.send, record t { send = without r t.send })
unfolding shift_send
shift_send_lem r t = rw (shift_lem t.send r)

pub shift_recv_lem :
    (r : ℕ) (t : Tally) → shift_recv r t ≡ (mem r t.recv, record t { recv = without r t.recv })
unfolding shift_recv
shift_recv_lem r t = rw (shift_lem t.recv r)

module _ (field : Tally → List ℕ) (is_field : IsField field) (g : List ℕ → List ℕ) where
  -- What a change of one list of a tally does to the queues, for the slot that is opened.
  queue-changed :
      (f : Tally → Tally)
      → ((t : Tally) → (f t).slot ≡ t.slot)
      → ((t : Tally) → field (f t) ≡ g (field t))
      → (ts : List Tally) (slot other : ℕ) → IsValid ts
      → queue field (settle (with_slot ts slot f) slot) other
        ≡ (if slot == other then g (queue field ts slot) else queue field ts other)
  queue-changed f keeps acts ts slot other v =
      queue-settle field is_field.blank is_field.empties (with_slot ts slot f) slot other
        (Distinct-with_slot f keeps ts slot (IsValid-Distinct ts v))
      ∙ queue-with_slot field is_field.blank f keeps ts slot other
      ∙ rw (acts (first_of_slot ts slot), queue-first_of_slot field is_field.blank ts slot)

  pub queue-modify :
      (f : Tally → Tally)
      → ((t : Tally) → (f t).slot ≡ t.slot)
      → ((t : Tally) → field (f t) ≡ g (field t))
      → (ts : List Tally) (slot other : ℕ) → IsValid ts
      → queue field (destroy (modify f (lazy ts slot))) other
        ≡ (if slot == other then g (queue field ts slot) else queue field ts other)
  queue-modify f keeps acts ts slot other v =
      rw (destroy-modify ts slot f keeps) (queue-changed f keeps acts ts slot other v)

  pub queue-take_from :
      (f : Tally → Bool × Tally)
      → ((t : Tally) → ((f t).1).slot ≡ t.slot)
      → ((t : Tally) → field (f t).1 ≡ g (field t))
      → g [] ≡ []
      → (ts : List Tally) (slot other : ℕ) → IsValid ts
      → queue field (destroy (take_from f (lazy ts slot)).1) other
        ≡ (if slot == other then g (queue field ts slot) else queue field ts other)
  queue-take_from f keeps acts none_left ts slot other v = elim (Bool-cases (has_slot ts slot)) [
    | inl there ↦
        rw ((take_from_found ts slot f keeps there).1)
          (queue-changed (λ t. (f t).1) keeps acts ts slot other v)
    | inr missing ↦
        rw ((take_from_missing ts slot f missing).1)
          (ground (arith, queue-missing field is_field.blank ts slot missing))
  ]

-- The answer of a shift: does the rank stand in the queue of the slot?
pub take_from-answer :
    (field : Tally → List ℕ)
    → IsField field
    → (f : Tally → Bool × Tally) (r : ℕ) → ((t : Tally) → ((f t).1).slot ≡ t.slot)
    → ((t : Tally) → (f t).0 ≡ mem r (field t))
    → (ts : List Tally) (slot : ℕ) → (take_from f (lazy ts slot)).0 ≡ mem r (queue field ts slot)
unfolding mem
take_from-answer field is_field f r keeps acts ts slot = elim (Bool-cases (has_slot ts slot)) [
  | inl there ↦
      (take_from_found ts slot f keeps there).0
      ∙ rw (acts (first_of_slot ts slot), queue-first_of_slot field is_field.blank ts slot)
  | inr missing ↦
      (take_from_missing ts slot f missing).0
      ∙ rw (queue-missing field is_field.blank ts slot missing)
]

pub modify-IsValid :
    (f : Tally → Tally)
    → ((t : Tally) → (f t).slot ≡ t.slot)
    → (ts : List Tally) (slot : ℕ) → IsValid ts
    → IsValid (destroy (modify f (lazy ts slot)))
modify-IsValid f keeps ts slot v =
    rw (destroy-modify ts slot f keeps) (settle-with_slot-IsValid f keeps ts slot v)

pub take_from-IsValid :
    (f : Tally → Bool × Tally)
    → ((t : Tally) → ((f t).1).slot ≡ t.slot)
    → (ts : List Tally) (slot : ℕ) → IsValid ts
    → IsValid (destroy (take_from f (lazy ts slot)).1)
take_from-IsValid f keeps ts slot v = elim (Bool-cases (has_slot ts slot)) [
  | inl there ↦
      rw ((take_from_found ts slot f keeps there).1)
        (settle-with_slot-IsValid (λ t. (f t).1) keeps ts slot v)
  | inr missing ↦ rw ((take_from_missing ts slot f missing).1) v
]

-- A vector that is opened and not used is left as it is.
pub destroy-lazy : (ts : List Tally) (slot : ℕ) → destroy (lazy ts slot) ≡ ts
unfolding destroy
destroy-lazy ts slot = refl
