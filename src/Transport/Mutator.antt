-- ===== src/Transport/Mutator.antt =====
-- gloo/transport/context.h and context.cc: `Context::Mutator`, under the context's lock.
pub mod Ledger
pub mod Refine
pub mod Valid
mod Tests
use gloo.Prelude.{ℕ, Bool, List}
use gloo.Transport.Tally.{
  Tally, push_send, push_recv, shift_send, shift_recv, LazyTally, lazy, destroy, modify, take_from,
}

-- The two vectors of `Context` that only a mutator changes.
pub record Tallies : Type 0 where
  pub pending_operations : List Tally
  pub expected_notifications : List Tally

pub record Mutator : Type 0 where
  pub rank : ℕ
  pub pending : LazyTally
  pub expected : LazyTally

-- The constructor.
unfoldable pub open_mutator : Tallies → ℕ → ℕ → Mutator
open_mutator c slot rank = record {
  rank = rank;
  pending = lazy c.pending_operations slot;
  expected = lazy c.expected_notifications slot;
}

-- The destructors of the two lazy tallies.
unfoldable pub close : Mutator → Tallies
close m = record {
  pending_operations = destroy m.pending;
  expected_notifications = destroy m.expected;
}

unfoldable pub push_remote_pending_recv : Mutator → Mutator
push_remote_pending_recv m = record m { pending = modify (push_recv m.rank) m.pending }

unfoldable pub push_remote_pending_send : Mutator → Mutator
push_remote_pending_send m = record m { pending = modify (push_send m.rank) m.pending }

unfoldable pub shift_remote_pending_recv : Mutator → Bool × Mutator
shift_remote_pending_recv m =
    let (found, pending) = take_from (shift_recv m.rank) m.pending in
    (found, record m { pending = pending })

unfoldable pub shift_remote_pending_send : Mutator → Bool × Mutator
shift_remote_pending_send m =
    let (found, pending) = take_from (shift_send m.rank) m.pending in
    (found, record m { pending = pending })

unfoldable pub push_expected_send_notification : Mutator → Mutator
push_expected_send_notification m = record m { expected = modify (push_send m.rank) m.expected }

unfoldable pub shift_expected_send_notification : Mutator → Bool × Mutator
shift_expected_send_notification m =
    let (found, expected) = take_from (shift_send m.rank) m.expected in
    (found, record m { expected = expected })
