-- ===== src/Prelude/Queues.antt =====
-- A map from numbers to queues, `unordered_map<uint64_t, deque<V>>`, as an association list.
use Prim.Native.Nat.{ℕ}
use mathlib.Core.Path.{◌≡◌, refl}
use mathlib.Core.Logic.{◌≢◌}
use mathlib.Core.Bool.{Bool, true, false}
use mathlib.Core.List.{List, [], ◌∷◌, ◌++◌}
use native.Mathlib.Omega.{arith}
use gloo.Prelude.Tests.{◌==◌, if◌then◌else◌}

module _ {ℓ} {V : Type ℓ} where
  -- The queue of a key; a missing key has none.
  unfoldable pub queue_at : List (ℕ × List V) → ℕ → List V
  queue_at [] k = []
  queue_at ((j, q) ∷ m) k = if j == k then q else queue_at m k

  -- `m[k].push_back(v)`.
  unfoldable pub push_back : List (ℕ × List V) → ℕ → V → List (ℕ × List V)
  push_back [] k v = (k, v ∷ []) ∷ []
  push_back ((j, q) ∷ m) k v = if j == k then (j, q ++ v ∷ []) ∷ m else (j, q) ∷ push_back m k v

  -- `m.erase(k)`.
  unfoldable pub erase_key : List (ℕ × List V) → ℕ → List (ℕ × List V)
  erase_key [] k = []
  erase_key ((j, q) ∷ m) k = let rest = erase_key m k in if j == k then rest else (j, q) ∷ rest

  -- `m[k] = q`, for a key that is there.
  unfoldable pub put_queue : List (ℕ × List V) → ℕ → List V → List (ℕ × List V)
  put_queue [] k q = []
  put_queue ((j, p) ∷ m) k q = if j == k then (j, q) ∷ m else (j, p) ∷ put_queue m k q

  unfoldable pub has_key : List (ℕ × List V) → ℕ → Bool
  has_key [] k = false
  has_key ((j, q) ∷ m) k = if j == k then true else has_key m k

  -- A queue written back, or its key erased if the queue is empty.
  unfoldable pub store_queue : List (ℕ × List V) → ℕ → List V → List (ℕ × List V)
  unfolding erase_key put_queue
  store_queue m k [] = erase_key m k
  store_queue m k (v ∷ q) = put_queue m k (v ∷ q)

  -- No key has an empty queue.
  abbrev pub NoEmpty : List (ℕ × List V) → Type ℓ
  NoEmpty [] = Unit
  NoEmpty ((j, q) ∷ m) = (q ≢ []) × NoEmpty m

  pub queue_at-push_back :
      (m : List (ℕ × List V)) (k j : ℕ) (v : V)
      → queue_at (push_back m k v) j ≡ (if k == j then queue_at m k ++ v ∷ [] else queue_at m j)
  unfolding queue_at push_back
  queue_at-push_back [] k j v = ground arith
  queue_at-push_back ((i, q) ∷ m) k j v = ground (arith, queue_at-push_back m k j v)

  queue_at-erase_key :
      (m : List (ℕ × List V)) (k j : ℕ)
      → queue_at (erase_key m k) j ≡ (if k == j then [] else queue_at m j)
  unfolding queue_at erase_key
  queue_at-erase_key [] k j = ground arith
  queue_at-erase_key ((i, q) ∷ m) k j = ground (arith, queue_at-erase_key m k j)

  queue_at-put_queue :
      (m : List (ℕ × List V)) (k j : ℕ) (q : List V)
      → has_key m k ≡ true
      → queue_at (put_queue m k q) j ≡ (if k == j then q else queue_at m j)
  unfolding queue_at put_queue has_key
  queue_at-put_queue [] k j q h = ground arith
  queue_at-put_queue ((i, p) ∷ m) k j q h = ground (arith, queue_at-put_queue m k j q)

  pub queue_at-store_queue :
      (m : List (ℕ × List V)) (k j : ℕ) (q : List V)
      → has_key m k ≡ true
      → queue_at (store_queue m k q) j ≡ (if k == j then q else queue_at m j)
  unfolding store_queue
  queue_at-store_queue m k j [] h = queue_at-erase_key m k j
  queue_at-store_queue m k j (v ∷ q) h = queue_at-put_queue m k j (v ∷ q) h

  pub queue_at_missing : (m : List (ℕ × List V)) (k : ℕ) → has_key m k ≡ false → queue_at m k ≡ []
  unfolding queue_at has_key
  queue_at_missing [] k h = refl
  queue_at_missing ((j, q) ∷ m) k h = ground (arith, queue_at_missing m k)

  pub queue_at_there :
      (m : List (ℕ × List V)) (k : ℕ) → NoEmpty m → has_key m k ≡ true → queue_at m k ≢ []
  unfolding queue_at has_key
  queue_at_there [] k n h = cc
  queue_at_there ((j, q) ∷ m) k n h = ground (arith, queue_at_there m k n.1)

  append_one-ne-nil : (q : List V) (v : V) → q ++ v ∷ [] ≢ []
  append_one-ne-nil [] v e = cc
  append_one-ne-nil (x ∷ q) v e = cc

  pub push_back-NoEmpty :
      (m : List (ℕ × List V)) (k : ℕ) (v : V) → NoEmpty m → NoEmpty (push_back m k v)
  unfolding push_back
  push_back-NoEmpty [] k v n = (λ e. cc, tt)
  push_back-NoEmpty ((j, q) ∷ m) k v n =
      ground (arith, append_one-ne-nil q v, push_back-NoEmpty m k v n.1)

  erase_key-NoEmpty : (m : List (ℕ × List V)) (k : ℕ) → NoEmpty m → NoEmpty (erase_key m k)
  unfolding erase_key
  erase_key-NoEmpty [] k n = tt
  erase_key-NoEmpty ((j, q) ∷ m) k n = ground (arith, erase_key-NoEmpty m k n.1)

  put_queue-NoEmpty :
      (m : List (ℕ × List V)) (k : ℕ) (q : List V) → q ≢ [] → NoEmpty m → NoEmpty (put_queue m k q)
  unfolding put_queue
  put_queue-NoEmpty [] k q h n = tt
  put_queue-NoEmpty ((j, p) ∷ m) k q h n = ground (arith, put_queue-NoEmpty m k q h n.1)

  pub store_queue-NoEmpty :
      (m : List (ℕ × List V)) (k : ℕ) (q : List V) → NoEmpty m → NoEmpty (store_queue m k q)
  unfolding store_queue
  store_queue-NoEmpty m k [] n = erase_key-NoEmpty m k n
  store_queue-NoEmpty m k (v ∷ q) n = put_queue-NoEmpty m k (v ∷ q) (λ e. cc) n
