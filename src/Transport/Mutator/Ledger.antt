-- ===== src/Transport/Mutator/Ledger.antt =====
-- The abstract context: for each slot, the ranks with a pending send, a pending receive and an
-- expected notification, oldest first.
use gloo.Prelude.{ℕ, ◌++◌, ◌∷◌, [], List, ◌==◌, if◌then◌else◌}
use gloo.Transport.Tally
use gloo.Transport.Tally.View.{queue, without}
use gloo.Transport.Mutator.{Tallies}

pub record Ledger : Type 0 where
  pub sends : ℕ → List ℕ
  pub recvs : ℕ → List ℕ
  pub expected : ℕ → List ℕ

abbrev pub ledger : Tallies → Ledger
ledger c = record {
  sends = queue (λ t. t.send) c.pending_operations;
  recvs = queue (λ t. t.recv) c.pending_operations;
  expected = queue (λ t. t.send) c.expected_notifications;
}

-- A queue changed at one slot.
abbrev pub at_slot : ℕ → (List ℕ → List ℕ) → (ℕ → List ℕ) → ℕ → List ℕ
at_slot slot g q other = if slot == other then g (q slot) else q other

abbrev pub enqueue : ℕ → ℕ → (ℕ → List ℕ) → ℕ → List ℕ
enqueue slot rank = at_slot slot (λ xs. xs ++ rank ∷ [])

abbrev pub dequeue : ℕ → ℕ → (ℕ → List ℕ) → ℕ → List ℕ
dequeue slot rank = at_slot slot (without rank)

-- One entry for a slot in each vector, and none of them empty.
pub record IsValid (c : Tallies) : Type 0 where
  pub pending : Tally.View.IsValid c.pending_operations
  pub expected : Tally.View.IsValid c.expected_notifications
