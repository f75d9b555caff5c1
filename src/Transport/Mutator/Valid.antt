-- ===== src/Transport/Mutator/Valid.antt =====
-- Every operation of a mutator leaves the context's vectors with one tally for a slot, none empty.
use gloo.Prelude.{ℕ}
use gloo.Transport.Tally
use gloo.Transport.Tally.{shift_send, shift_recv, lazy, destroy}
use gloo.Transport.Tally.Fields.{modify-IsValid, take_from-IsValid, destroy-lazy}
use gloo.Transport.Mutator.{
  Tallies, open_mutator, close, push_remote_pending_recv, push_remote_pending_send,
  shift_remote_pending_recv, shift_remote_pending_send, push_expected_send_notification,
  shift_expected_send_notification,
}
use gloo.Transport.Mutator.Ledger.{IsValid}
use gloo.Transport.Mutator.Refine.{push_send-Acts, push_recv-Acts, shift_send-Acts, shift_recv-Acts}

module _ (c : Tallies) (slot rank : ℕ) (valid : IsValid c) where
  unused_expected : Tally.View.IsValid (destroy (lazy c.expected_notifications slot))
  unused_expected = rw (destroy-lazy c.expected_notifications slot) valid.expected

  unused_pending : Tally.View.IsValid (destroy (lazy c.pending_operations slot))
  unused_pending = rw (destroy-lazy c.pending_operations slot) valid.pending

  -- Whichever operation a mutator makes, the context that it leaves behind is valid again.
  pub mutator-IsValid :
      let m = open_mutator c slot rank in
      IsValid (close (push_remote_pending_recv m))
      × IsValid (close (push_remote_pending_send m))
      × IsValid (close (push_expected_send_notification m))
      × IsValid (close (shift_remote_pending_recv m).1)
      × IsValid (close (shift_remote_pending_send m).1)
      × IsValid (close (shift_expected_send_notification m).1)
  unfolding close open_mutator push_remote_pending_recv push_remote_pending_send
      push_expected_send_notification shift_remote_pending_recv shift_remote_pending_send
      shift_expected_send_notification
  mutator-IsValid = (
    record {
      pending = modify-IsValid _ (push_recv-Acts rank).keeps _ slot valid.pending;
      expected = unused_expected;
    },
    record {
      pending = modify-IsValid _ (push_send-Acts rank).keeps _ slot valid.pending;
      expected = unused_expected;
    },
    record {
      pending = unused_pending;
      expected = modify-IsValid _ (push_send-Acts rank).keeps _ slot valid.expected;
    },
    record {
      pending =
          take_from-IsValid (shift_recv rank) (shift_recv-Acts rank).keeps _ slot valid.pending;
      expected = unused_expected;
    },
    record {
      pending =
          take_from-IsValid (shift_send rank) (shift_send-Acts rank).keeps _ slot valid.pending;
      expected = unused_expected;
    },
    record {
      pending = unused_pending;
      expected =
          take_from-IsValid (shift_send rank) (shift_send-Acts rank).keeps _ slot valid.expected;
    },
  )

  -- So is the context that the two mutators with two operations leave behind.
  pub mutator_twice-IsValid :
      let m = open_mutator c slot rank in
      IsValid (close (push_expected_send_notification (shift_remote_pending_send m).1))
      × IsValid (close (push_remote_pending_send (shift_expected_send_notification m).1))
  unfolding close open_mutator push_remote_pending_send push_expected_send_notification
      shift_remote_pending_send shift_expected_send_notification
  mutator_twice-IsValid = (
    record {
      pending =
          take_from-IsValid (shift_send rank) (shift_send-Acts rank).keeps _ slot valid.pending;
      expected = modify-IsValid _ (push_send-Acts rank).keeps _ slot valid.expected;
    },
    record {
      pending = modify-IsValid _ (push_send-Acts rank).keeps _ slot valid.pending;
      expected =
          take_from-IsValid (shift_send rank) (shift_send-Acts rank).keeps _ slot valid.expected;
    },
  )
