-- ===== src/Rendezvous/Store/Tests.antt =====
-- Two processes that set a key each under their own prefix.
use gloo.Prelude.{◌⊎◌, ◌≢◌, List, [], ◌∷◌, none}
use gloo.Rendezvous.Store.{Chars, Entries, wait_keys}
use gloo.Rendezvous.Store.Waiting.{HasEntry, wait_keys_returns}
use mathlib.Core.List.{Memᴰ}

abbrev rank_0 : Chars
rank_0 = 48 ∷ []

abbrev rank_1 : Chars
rank_1 = 49 ∷ []

abbrev there : Entries
there = (rank_1, 7 ∷ []) ∷ []

abbrev calls : List (Chars × Chars)
calls = (rank_0, 5 ∷ []) ∷ []

abbrev keys : List Chars
keys = rank_1 ∷ rank_0 ∷ []

wait_keys_returns_example :
    (((key : Chars) → Memᴰ key keys → HasEntry key there ⊎ HasEntry key calls)
      → wait_keys there keys calls ≢ none)
    × (wait_keys there keys calls ≢ none
        → (key : Chars) → Memᴰ key keys
        → HasEntry key there ⊎ HasEntry key calls)
wait_keys_returns_example = wait_keys_returns there keys calls
