-- ===== src/Rendezvous/Store/Waiting.antt =====
-- When a wait of gloo/rendezvous/hash_store.cc returns.
use gloo.Prelude.{
  sym, subst, ap, ◌⊎◌, ◌≡◌, ◌≢◌, refl, true, false, List, [], ◌∷◌, none, arith, Bool-cases, inl,
  inr,
}
use gloo.Rendezvous.Store.{
  Chars, Entries, same_key, find, found, set, all_set, after_set, wait_keys,
}
use gloo.Rendezvous.Store.Laws.{same_key_refl}
use mathlib.Core.List.{Memᴰ}

-- A key that is set stays set.
after_set-found :
    (m : Entries) (key : Chars) (call : Chars × Chars)
    → found (find m key) ≡ true
    → found (find (after_set m call) key) ≡ true
unfolding after_set set find found
after_set-found m key (k, value) h = ground arith

all_set-after_set :
    (m : Entries) (keys : List Chars) (call : Chars × Chars)
    → all_set m keys ≡ true
    → all_set (after_set m call) keys ≡ true
unfolding all_set
all_set-after_set m [] call h = refl
all_set-after_set m (key ∷ keys) call h =
    ground (arith, after_set-found m key call, all_set-after_set m keys call)

-- The store after some calls.
unfoldable pub run : Entries → List (Chars × Chars) → Entries
run m [] = m
run m (call ∷ calls) = run (after_set m call) calls

all_set-run :
    (m : Entries) (keys : List Chars) (calls : List (Chars × Chars))
    → all_set m keys ≡ true
    → all_set (run m calls) keys ≡ true
unfolding run
all_set-run m keys [] h = h
all_set-run m keys (call ∷ calls) h =
    all_set-run (after_set m call) keys calls (all_set-after_set m keys call h)

-- A key has an entry, or a call of `set` made for it.
abbrev pub HasEntry : Chars → List (Chars × Chars) → Type 0
HasEntry key m = (value : Chars) × Memᴰ (key, value) m

same_key_eq : (k j : Chars) → same_key k j ≡ true → k ≡ j
unfolding same_key
same_key_eq [] [] h = refl
same_key_eq [] (d ∷ ds) h = absurd (ground arith)
same_key_eq (c ∷ cs) [] h = absurd (ground arith)
same_key_eq (c ∷ cs) (d ∷ ds) h =
    let head : c ≡ d = ground arith in
    let tail : same_key cs ds ≡ true = ground arith in λ i. head i ∷ same_key_eq cs ds tail i

found-HasEntry : (m : Entries) (key : Chars) → found (find m key) ≡ true → HasEntry key m
unfolding find found
found-HasEntry [] key h = absurd (ground arith)
found-HasEntry ((k, value) ∷ m) key h = elim (Bool-cases (same_key k key)) [
  | inl same ↦ (value, Memᴰ.head (λ i. (sym (same_key_eq k key same) i, value)))
  | inr other ↦ let (v, there) = found-HasEntry m key (rw other at h) in (v, Memᴰ.tail there)
]

HasEntry-found : (m : Entries) (key value : Chars) → Memᴰ (key, value) m → found (find m key) ≡ true
unfolding find found
HasEntry-found [] key value there = elim there [ ]
HasEntry-found ((k, v) ∷ m) key value (Memᴰ.head e) =
    let same : same_key k key ≡ true =
      subst (λ j. same_key j key ≡ true) (ap (λ x. x.0) e) (same_key_refl key) in
    rw same refl
HasEntry-found ((k, v) ∷ m) key value (Memᴰ.tail there) =
    ground (arith, HasEntry-found m key value there)

-- A call of `set` leaves its key with an entry, be it an old one.
after_set-found_itself :
    (m : Entries) (key value : Chars) → found (find (after_set m (key, value)) key) ≡ true
unfolding after_set set find found
after_set-found_itself m key value = ground (arith, same_key_refl key)

after_set-found_before :
    (m : Entries) (k value key : Chars)
    → found (find (after_set m (k, value)) key) ≡ true
    → (found (find m key) ≡ true) ⊎ (k ≡ key)
unfolding after_set set find found
after_set-found_before m k value key h = elim (Bool-cases (same_key k key)) [
  | inl same ↦ inr (same_key_eq k key same)
  | inr other ↦ inl (ground arith)
]

-- After the calls, a key is found that was there or that one of them was for, and no other.
run-found :
    (m : Entries) (calls : List (Chars × Chars)) (key : Chars)
    → HasEntry key m ⊎ HasEntry key calls
    → found (find (run m calls) key) ≡ true
unfolding run
run-found m [] key (inl (v, there)) = HasEntry-found m key v there
run-found m [] key (inr (v, there)) = elim there [ ]
run-found m (call ∷ calls) key (inl (v, there)) = run-found (after_set m call) calls key (
    inl (
      found-HasEntry (after_set m call) key
        (after_set-found m key call (HasEntry-found m key v there))))
run-found m ((k, value) ∷ calls) key (inr (v, Memᴰ.head e)) =
    run-found (after_set m (k, value)) calls key (
      inl (
        found-HasEntry (after_set m (k, value)) key (
          subst (λ j. found (find (after_set m (k, value)) j) ≡ true) (sym (ap (λ x. x.0) e))
            (after_set-found_itself m k value))))
run-found m (call ∷ calls) key (inr (v, Memᴰ.tail there)) =
    run-found (after_set m call) calls key (inr (v, there))

run-found_from :
    (m : Entries) (calls : List (Chars × Chars)) (key : Chars)
    → found (find (run m calls) key) ≡ true
    → HasEntry key m ⊎ HasEntry key calls
unfolding run
run-found_from m [] key h = inl (found-HasEntry m key h)
run-found_from m ((k, value) ∷ calls) key h =
    elim (run-found_from (after_set m (k, value)) calls key h) [
      | inl (v, there) ↦
          elim (after_set-found_before m k value key
            (HasEntry-found (after_set m (k, value)) key v there)) [
              | inl old ↦ inl (found-HasEntry m key old)
              | inr same ↦ inr (value, Memᴰ.head (λ i. (sym same i, value)))
            ]
      | inr (v, there) ↦ inr (v, Memᴰ.tail there)
    ]

all_set-each :
    (m : Entries) (keys : List Chars)
    → all_set m keys ≡ true
    → (key : Chars) → Memᴰ key keys
    → found (find m key) ≡ true
unfolding all_set
all_set-each m [] h key there = elim there [ ]
all_set-each m (k ∷ keys) h key (Memᴰ.head e) =
    subst (λ j. found (find m j) ≡ true) (sym e) (ground arith)
all_set-each m (k ∷ keys) h key (Memᴰ.tail there) = all_set-each m keys (ground arith) key there

each-all_set :
    (m : Entries) (keys : List Chars)
    → ((key : Chars) → Memᴰ key keys → found (find m key) ≡ true)
    → all_set m keys ≡ true
unfolding all_set
each-all_set m [] h = refl
each-all_set m (k ∷ keys) h =
    rw (h k (Memᴰ.head refl)) (each-all_set m keys (λ key there. h key (Memᴰ.tail there)))

wait_keys-all_set :
    (m : Entries) (keys : List Chars) (calls : List (Chars × Chars))
    → (all_set (run m calls) keys ≡ true → wait_keys m keys calls ≢ none)
      × (all_set (run m calls) keys ≡ false → wait_keys m keys calls ≡ none)
unfolding wait_keys run
wait_keys-all_set m keys [] = (λ h. rw h (λ e. cc), λ h. rw h refl)
wait_keys-all_set m keys (call ∷ calls) =
    let later = wait_keys-all_set (after_set m call) keys calls in
    elim (Bool-cases (all_set m keys)) [
      | inl now ↦
          (λ h. rw now (λ e. cc), λ h. ground (arith, all_set-run m keys (call ∷ calls) now))
      | inr not_now ↦ rw not_now (later.0, later.1)
    ]

-- A wait for keys returns, and does not run into its timeout, just when each of its keys has an
-- entry in the store or one of the calls of `set` that are made until the timeout is for it.
pub wait_keys_returns :
    (m : Entries) (keys : List Chars) (calls : List (Chars × Chars))
    → (((key : Chars) → Memᴰ key keys → HasEntry key m ⊎ HasEntry key calls)
        → wait_keys m keys calls ≢ none)
      × (wait_keys m keys calls ≢ none
          → (key : Chars) → Memᴰ key keys
          → HasEntry key m ⊎ HasEntry key calls)
wait_keys_returns m keys calls =
    let (returns, times_out) = wait_keys-all_set m keys calls in
    (
      λ h.
          returns
            (each-all_set (run m calls) keys (λ key there. run-found m calls key (h key there))),
      λ r key there. elim (Bool-cases (all_set (run m calls) keys)) [
        | inl all ↦ run-found_from m calls key (all_set-each (run m calls) keys all key there)
        | inr not_all ↦ absurd (r (times_out not_all))
      ],
    )
