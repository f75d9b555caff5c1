-- ===== src/Rendezvous/Store/Laws.antt =====
-- What a key is set to stays, and prefixes keep apart.
use gloo.Prelude.{
  ◌≡◌, refl, true, false, [], ◌∷◌, none, some, ◌==◌, arith, Bool-cases, inl, inr, length,
}
use gloo.Rendezvous.Store.{
  Chars, Entries, same_key, find, found, set, get_data, join_key, prefix_set, prefix_get,
}

pub same_key_refl : (k : Chars) → same_key k k ≡ true
unfolding same_key
same_key_refl [] = refl
same_key_refl (c ∷ cs) = ground (arith, same_key_refl cs)

-- A new key can be set, once; it is then read back, and all other keys are read as before.
set-get_data :
    (m : Entries) (key value again : Chars)
    → found (find m key) ≡ false
    → (m' : Entries) × (set m key value ≡ some m')
      × (get_data m' key ≡ value)
      × (set m' key again ≡ none)
      × ((other : Chars) → same_key key other ≡ false → get_data m' other ≡ get_data m other)
unfolding set get_data find found
set-get_data m key value again fresh = (
  (key, value) ∷ m,
  rw fresh refl,
  rw (same_key_refl key, get_data) refl,
  rw (same_key_refl key, set) refl,
  λ o h. rw (h, get_data) refl,
)

-- Keys under two prefixes of the same length differ.
join_key_apart :
    (p q k j : Chars)
    → length p ≡ length q
    → same_key p q ≡ false
    → same_key (join_key p k) (join_key q j) ≡ false
unfolding same_key join_key
join_key_apart [] [] k j e h = ground arith
join_key_apart [] (d ∷ q) k j e h = absurd (omega arith)
join_key_apart (c ∷ p) [] k j e h = absurd (omega arith)
join_key_apart (c ∷ p) (d ∷ q) k j e h = elim (Bool-cases (c == d)) [
  | inl same ↦ rw same (join_key_apart p q k j (omega arith) (rw same at h))
  | inr other ↦ rw other refl
]

-- A key that is new under its prefix can be set; it is read back under the prefix, and what is
-- read under another prefix of the same length does not change.
pub prefix_set-prefix_get :
    (p q : Chars) (m : Entries) (key value : Chars)
    → length p ≡ length q
    → same_key p q ≡ false
    → found (find m (join_key p key)) ≡ false
    → (m' : Entries) × (prefix_set p m key value ≡ some m')
      × (prefix_get p m' key ≡ value)
      × ((other : Chars) → prefix_get q m' other ≡ prefix_get q m other)
unfolding prefix_set prefix_get
prefix_set-prefix_get p q m key value e h fresh =
    let (m', done, got, again, others) = set-get_data m (join_key p key) value value fresh in
    (m', done, got, λ other. others (join_key q other) (join_key_apart p q key other e h))
