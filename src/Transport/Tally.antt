-- ===== src/Transport/Tally.antt =====
-- gloo/transport/context.h and context.cc: `Context::Tally`, its `List`, and `Context::LazyTally`.
-- A vector is a list, an iterator an index (`end()` is the length), a rank or slot a number.
pub mod View
pub mod Laws
pub mod Queues
pub mod Fields
use gloo.Prelude.{
  ℕ, zero, suc, ◌+◌, ◌-◌, Bool, true, false, not, ◌&&◌, List, [], ◌∷◌, ◌++◌, Option, none, some,
  ◌==◌, if◌then◌else◌, length, get_elem?,
}

-- `Tally::List::empty`.
unfoldable pub is_empty : List ℕ → Bool
is_empty [] = true
is_empty (r ∷ rs) = false

-- `Tally::List::push`: to the end.
unfoldable pub push : List ℕ → ℕ → List ℕ
push ranks rank = ranks ++ rank ∷ []

-- `Tally::List::shift`: erase the first occurrence; was there one?
unfoldable pub shift : List ℕ → ℕ → Bool × List ℕ
shift [] rank = (false, [])
shift (r ∷ rs) rank =
    let (found, rest) = shift rs rank in if r == rank then (true, rs) else (found, r ∷ rest)

pub record Tally : Type 0 where
  pub slot : ℕ
  pub send : List ℕ
  pub recv : List ℕ

-- `Tally(slot)`.
abbrev pub fresh : ℕ → Tally
fresh slot = record { slot = slot; send = []; recv = [] }

-- `Tally::empty`.
unfoldable pub tally_empty : Tally → Bool
unfolding is_empty
tally_empty t = is_empty t.send && is_empty t.recv

unfoldable pub push_send : ℕ → Tally → Tally
unfolding push
push_send rank t = record t { send = push t.send rank }

unfoldable pub push_recv : ℕ → Tally → Tally
unfolding push
push_recv rank t = record t { recv = push t.recv rank }

unfoldable pub shift_send : ℕ → Tally → Bool × Tally
shift_send rank t = let (found, rest) = shift t.send rank in (found, record t { send = rest })

unfoldable pub shift_recv : ℕ → Tally → Bool × Tally
shift_recv rank t = let (found, rest) = shift t.recv rank in (found, record t { recv = rest })

-- `std::find_if` for a slot: the index of the first tally that has it, else the length.
unfoldable pub find_slot : List Tally → ℕ → ℕ
find_slot [] slot = 0
find_slot (t ∷ ts) slot = let rest = find_slot ts slot in if t.slot == slot then 0 else suc rest

-- `vec_.erase(it)`.
unfoldable pub erase_at : List Tally → ℕ → List Tally
erase_at [] i = []
erase_at (t ∷ ts) zero = ts
erase_at (t ∷ ts) (suc i) = t ∷ erase_at ts i

-- Writing through `*it`.
unfoldable pub update_at : List Tally → ℕ → (Tally → Tally) → List Tally
update_at [] i f = []
update_at (t ∷ ts) zero f = f t ∷ ts
update_at (t ∷ ts) (suc i) f = t ∷ update_at ts i f

pub record LazyTally : Type 0 where
  pub vec : List Tally
  pub slot : ℕ
  pub it : ℕ
  pub initialized : Bool

-- The constructor; `it_` has no value before `initialize_iterator`.
abbrev pub lazy : List Tally → ℕ → LazyTally
lazy vec slot = record { vec = vec; slot = slot; it = 0; initialized = false }

unfoldable pub initialize_iterator : LazyTally → LazyTally
initialize_iterator l =
    if l.initialized then l else record l { it = find_slot l.vec l.slot; initialized = true }

unfoldable pub exists : LazyTally → Bool × LazyTally
unfolding initialize_iterator
exists l = let l' = initialize_iterator l in (not (l'.it == length l'.vec), l')

-- `get`: afterwards `it_` refers to a tally.
unfoldable pub get : LazyTally → LazyTally
unfolding initialize_iterator
get l =
    let l' = initialize_iterator l in
    if l'.it == length l'.vec
    then (let vec = l'.vec ++ fresh l'.slot ∷ [] in record l' { vec = vec; it = length vec - 1 })
    else l'

-- The destructor gives the vector back, without a tally that became empty.
unfoldable pub destroy : LazyTally → List Tally
destroy l =
    if l.initialized && not (l.it == length l.vec)
    then elim (get_elem? l.vec l.it) [
      | none ↦ l.vec
      | some t ↦ (if tally_empty t then erase_at l.vec l.it else l.vec)
    ]
    else l.vec

-- `get().push…(rank)`.
unfoldable pub modify : (Tally → Tally) → LazyTally → LazyTally
unfolding get
modify f l = let l' = get l in record l' { vec = update_at l'.vec l'.it f }

-- `if (!exists()) return false; return get().shift…(rank)`.
unfoldable pub take_from : (Tally → Bool × Tally) → LazyTally → Bool × LazyTally
unfolding exists get
take_from f l =
    let (there, l') = exists l in
    if there
    then (let found = get l' in
        elim (get_elem? found.vec found.it) [
          | none ↦ (false, found)
          | some t ↦ ((f t).0, record found { vec = update_at found.vec found.it (λ u. (f u).1) })
        ])
    else (false, l')
