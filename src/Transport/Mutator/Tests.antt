-- ===== src/Transport/Mutator/Tests.antt =====
-- A context with a pending send of rank 1, a pending receive of rank 2 and an expected
-- notification of rank 1, all for slot 5.
use gloo.Prelude.{refl, [], ◌∷◌}
use gloo.Transport.Tally.{tally_empty}
use gloo.Transport.Mutator.{
  Tallies, open_mutator, close, push_remote_pending_recv, push_remote_pending_send,
  shift_remote_pending_recv, shift_remote_pending_send, push_expected_send_notification,
  shift_expected_send_notification,
}
use gloo.Transport.Mutator.Ledger.{IsValid}
use gloo.Transport.Mutator.Valid.{mutator-IsValid}

abbrev busy : Tallies
busy = record {
  pending_operations = record { slot = 5; send = 1 ∷ []; recv = 2 ∷ [] } ∷ [];
  expected_notifications = record { slot = 5; send = 1 ∷ []; recv = [] } ∷ [];
}

busy-IsValid : IsValid busy
unfolding tally_empty
busy-IsValid = record { pending = (refl, tt, tt); expected = (refl, tt, tt) }

mutator-IsValid_example :
    let m = open_mutator busy 5 1 in
    IsValid (close (push_remote_pending_recv m))
    × IsValid (close (push_remote_pending_send m))
    × IsValid (close (push_expected_send_notification m))
    × IsValid (close (shift_remote_pending_recv m).1)
    × IsValid (close (shift_remote_pending_send m).1)
    × IsValid (close (shift_expected_send_notification m).1)
mutator-IsValid_example = mutator-IsValid busy 5 1 busy-IsValid
