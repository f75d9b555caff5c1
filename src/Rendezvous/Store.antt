-- ===== src/Rendezvous/Store.antt =====
-- gloo/rendezvous/hash_store.cc and prefix_store.cc. A key is its list of characters. The calls
-- hold the store's lock; a wait runs over the calls of `set` that others make until its timeout.
pub mod Laws
pub mod Waiting
mod Tests
use gloo.Prelude.{
  ℕ, Bool, true, false, ◌&&◌, List, [], ◌∷◌, ◌++◌, map, Option, none, some, ◌==◌, if◌then◌else◌,
}

-- std::string and std::vector<char>.
abbrev pub Chars : Type 0
Chars = List ℕ

-- `map_`.
abbrev pub Entries : Type 0
Entries = List (Chars × Chars)

unfoldable pub same_key : Chars → Chars → Bool
same_key [] [] = true
same_key [] (d ∷ ds) = false
same_key (c ∷ cs) [] = false
same_key (c ∷ cs) (d ∷ ds) = (c == d) && same_key cs ds

-- `map_.find(key)`.
unfoldable pub find : Entries → Chars → Option Chars
find [] key = none
find ((k, value) ∷ m) key = if same_key k key then some value else find m key

unfoldable pub found : Option Chars → Bool
found none = false
found (some value) = true

-- `HashStore::set`; `none` is the failure of GLOO_ENFORCE.
unfoldable pub set : Entries → Chars → Chars → Option Entries
unfolding found find
set m key value = if found (find m key) then none else some ((key, value) ∷ m)

-- `HashStore::get`.
unfoldable pub get_data : Entries → Chars → Chars
unfolding find
get_data m key = elim (find m key) [ none ↦ [] | some value ↦ value ]

-- The predicate of `HashStore::wait`.
unfoldable pub all_set : Entries → List Chars → Bool
unfolding found find
all_set m [] = true
all_set m (key ∷ keys) = if found (find m key) then all_set m keys else false

-- The store after a call of `set`; one that fails changes nothing.
unfoldable pub after_set : Entries → Chars × Chars → Entries
unfolding set
after_set m (key, value) = elim (set m key value) [ none ↦ m | some m' ↦ m' ]

-- `HashStore::wait`: the store when it returns; `none` is the timeout.
unfoldable pub wait_keys : Entries → List Chars → List (Chars × Chars) → Option Entries
unfolding all_set after_set
wait_keys m keys [] = if all_set m keys then some m else none
wait_keys m keys (call ∷ calls) =
    let rest = wait_keys (after_set m call) keys calls in if all_set m keys then some m else rest

-- `PrefixStore::joinKey`.
unfoldable pub join_key : Chars → Chars → Chars
join_key prefix key = prefix ++ (47 ∷ key)

-- `PrefixStore::set`, `get` and `wait`, over a store that is a hash store.
unfoldable pub prefix_set : Chars → Entries → Chars → Chars → Option Entries
unfolding join_key set
prefix_set prefix m key value = set m (join_key prefix key) value

unfoldable pub prefix_get : Chars → Entries → Chars → Chars
unfolding join_key get_data
prefix_get prefix m key = get_data m (join_key prefix key)

unfoldable pub prefix_wait : Chars → Entries → List Chars → List (Chars × Chars) → Option Entries
unfolding join_key wait_keys
prefix_wait prefix m keys calls = wait_keys m (map (join_key prefix) keys) calls
