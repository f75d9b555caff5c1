-- ===== src/Transport/Mutator/Refine.antt =====
-- The six operations of a mutator, opened and closed, on the ledger: each acts on one queue.
use mathlib.Core.Path.{fun_ext}
use gloo.Prelude.{ℕ, ◌≡◌, refl, ap, ◌∙◌, Bool, List, [], ◌∷◌, ◌++◌, arith, ◌==◌, if◌then◌else◌}
use gloo.Transport.Tally
use gloo.Transport.Tally.{
  Tally, push_send, push_recv, shift_send, shift_recv, lazy, destroy, modify, take_from,
}
use gloo.Transport.Tally.View.{queue, mem, without}
use gloo.Transport.Tally.Fields.{
  send-IsField, recv-IsField, push_send_lem, push_recv_lem, shift_send_lem, shift_recv_lem,
  queue-modify, queue-take_from, take_from-answer, destroy-lazy,
}
use gloo.Transport.Mutator.{
  Tallies, open_mutator, close, push_remote_pending_recv, push_remote_pending_send,
  shift_remote_pending_recv, shift_remote_pending_send, push_expected_send_notification,
  shift_expected_send_notification,
}
use gloo.Transport.Mutator.Ledger.{Ledger, ledger, at_slot, enqueue, dequeue, IsValid}

-- What an operation on a tally does to its two lists.
pub record Acts (f : Tally → Tally) (on_sends on_recvs : List ℕ → List ℕ) : Type 0 where
  pub keeps : (t : Tally) → (f t).slot ≡ t.slot
  pub sends : (t : Tally) → (f t).send ≡ on_sends t.send
  pub recvs : (t : Tally) → (f t).recv ≡ on_recvs t.recv

pub push_send-Acts : (rank : ℕ) → Acts (push_send rank) (λ xs. xs ++ rank ∷ []) (λ xs. xs)
push_send-Acts rank = record {
  keeps = λ t. ap (λ u. u.slot) (push_send_lem rank t);
  sends = λ t. ap (λ u. u.send) (push_send_lem rank t);
  recvs = λ t. ap (λ u. u.recv) (push_send_lem rank t);
}

pub push_recv-Acts : (rank : ℕ) → Acts (push_recv rank) (λ xs. xs) (λ xs. xs ++ rank ∷ [])
push_recv-Acts rank = record {
  keeps = λ t. ap (λ u. u.slot) (push_recv_lem rank t);
  sends = λ t. ap (λ u. u.send) (push_recv_lem rank t);
  recvs = λ t. ap (λ u. u.recv) (push_recv_lem rank t);
}

pub shift_send-Acts : (rank : ℕ) → Acts (λ t. (shift_send rank t).1) (without rank) (λ xs. xs)
shift_send-Acts rank = record {
  keeps = λ t. ap (λ u. u.1.slot) (shift_send_lem rank t);
  sends = λ t. ap (λ u. u.1.send) (shift_send_lem rank t);
  recvs = λ t. ap (λ u. u.1.recv) (shift_send_lem rank t);
}

pub shift_recv-Acts : (rank : ℕ) → Acts (λ t. (shift_recv rank t).1) (λ xs. xs) (without rank)
shift_recv-Acts rank = record {
  keeps = λ t. ap (λ u. u.1.slot) (shift_recv_lem rank t);
  sends = λ t. ap (λ u. u.1.send) (shift_recv_lem rank t);
  recvs = λ t. ap (λ u. u.1.recv) (shift_recv_lem rank t);
}

without-nil : (rank : ℕ) → without rank [] ≡ []
unfolding without
without-nil rank = refl

untouched : (slot : ℕ) (q : ℕ → List ℕ) → at_slot slot (λ xs. xs) q ≡ q
untouched slot q = fun_ext λ other. same slot other
  where
    same : (s o : ℕ) → (if s == o then q s else q o) ≡ q o
    same s o = ground arith

ledger_path :
    {l m : Ledger} → l.sends ≡ m.sends → l.recvs ≡ m.recvs → l.expected ≡ m.expected → l ≡ m
ledger_path s r e = λ i. record { sends = s i; recvs = r i; expected = e i }

module _ (ts : List Tally) (slot : ℕ) (valid : Tally.View.IsValid ts) where
  module _ {f : Tally → Tally} {on_sends on_recvs : List ℕ → List ℕ}
      (a : Acts f on_sends on_recvs) where
    modify_sends :
        queue (λ t. t.send) (destroy (modify f (lazy ts slot)))
        ≡ at_slot slot on_sends (queue (λ t. t.send) ts)
    modify_sends =
        fun_ext λ o. queue-modify _ send-IsField on_sends f a.keeps a.sends ts slot o valid

    modify_recvs :
        queue (λ t. t.recv) (destroy (modify f (lazy ts slot)))
        ≡ at_slot slot on_recvs (queue (λ t. t.recv) ts)
    modify_recvs =
        fun_ext λ o. queue-modify _ recv-IsField on_recvs f a.keeps a.recvs ts slot o valid

  module _ (f : Tally → Bool × Tally) {on_sends on_recvs : List ℕ → List ℕ}
      (a : Acts (λ t. (f t).1) on_sends on_recvs) where
    take_sends :
        on_sends [] ≡ []
        → queue (λ t. t.send) (destroy (take_from f (lazy ts slot)).1)
          ≡ at_slot slot on_sends (queue (λ t. t.send) ts)
    take_sends e =
        fun_ext λ o. queue-take_from _ send-IsField on_sends f a.keeps a.sends e ts slot o valid

    take_recvs :
        on_recvs [] ≡ []
        → queue (λ t. t.recv) (destroy (take_from f (lazy ts slot)).1)
          ≡ at_slot slot on_recvs (queue (λ t. t.recv) ts)
    take_recvs e =
        fun_ext λ o. queue-take_from _ recv-IsField on_recvs f a.keeps a.recvs e ts slot o valid

module _ (c : Tallies) (slot rank : ℕ) (valid : IsValid c) where
  same_expected :
      queue (λ t. t.send) (destroy (lazy c.expected_notifications slot)) ≡ (ledger c).expected
  same_expected = ap (queue (λ t. t.send)) (destroy-lazy c.expected_notifications slot)

  -- `pushRemotePendingRecv` puts the rank at the end of the receives of the slot.
  pub push_remote_pending_recv_refines :
      ledger (close (push_remote_pending_recv (open_mutator c slot rank)))
      ≡ record (ledger c) { recvs = enqueue slot rank (ledger c).recvs }
  unfolding close push_remote_pending_recv open_mutator
  push_remote_pending_recv_refines =
      ledger_path (modify_sends _ slot valid.pending (push_recv-Acts rank) ∙ untouched slot _)
        (modify_recvs _ slot valid.pending (push_recv-Acts rank)) same_expected

  -- `pushRemotePendingSend` puts the rank at the end of the sends of the slot.
  pub push_remote_pending_send_refines :
      ledger (close (push_remote_pending_send (open_mutator c slot rank)))
      ≡ record (ledger c) { sends = enqueue slot rank (ledger c).sends }
  unfolding close push_remote_pending_send open_mutator
  push_remote_pending_send_refines =
      ledger_path (modify_sends _ slot valid.pending (push_send-Acts rank))
        (modify_recvs _ slot valid.pending (push_send-Acts rank) ∙ untouched slot _) same_expected

  -- `pushExpectedSendNotification` puts the rank at the end of the expected notifications.
  pub push_expected_send_notification_refines :
      ledger (close (push_expected_send_notification (open_mutator c slot rank)))
      ≡ record (ledger c) { expected = enqueue slot rank (ledger c).expected }
  unfolding close push_expected_send_notification open_mutator
  push_expected_send_notification_refines =
      ledger_path (ap (queue (λ t. t.send)) (destroy-lazy c.pending_operations slot))
        (ap (queue (λ t. t.recv)) (destroy-lazy c.pending_operations slot))
        (modify_sends _ slot valid.expected (push_send-Acts rank))

  -- `shiftRemotePendingRecv` says whether the rank had a pending receive, and removes its oldest.
  pub shift_remote_pending_recv_refines :
      let (found, m) = shift_remote_pending_recv (open_mutator c slot rank) in
      (found ≡ mem rank ((ledger c).recvs slot))
      × (ledger (close m) ≡ record (ledger c) { recvs = dequeue slot rank (ledger c).recvs })
  unfolding close shift_remote_pending_recv open_mutator
  shift_remote_pending_recv_refines = (
    take_from-answer (λ t. t.recv) recv-IsField (shift_recv rank) rank (shift_recv-Acts rank).keeps
        (λ t. ap (λ u. u.0) (shift_recv_lem rank t)) c.pending_operations slot,
    ledger_path
        (take_sends _ slot valid.pending (shift_recv rank) (shift_recv-Acts rank) refl
          ∙ untouched slot _)
        (take_recvs _ slot valid.pending (shift_recv rank) (shift_recv-Acts rank)
          (without-nil rank))
        same_expected,
  )

  -- `shiftRemotePendingSend` says whether the rank had a pending send, and removes its oldest.
  pub shift_remote_pending_send_refines :
      let (found, m) = shift_remote_pending_send (open_mutator c slot rank) in
      (found ≡ mem rank ((ledger c).sends slot))
      × (ledger (close m) ≡ record (ledger c) { sends = dequeue slot rank (ledger c).sends })
  unfolding close shift_remote_pending_send open_mutator
  shift_remote_pending_send_refines = (
    take_from-answer (λ t. t.send) send-IsField (shift_send rank) rank (shift_send-Acts rank).keeps
        (λ t. ap (λ u. u.0) (shift_send_lem rank t)) c.pending_operations slot,
    ledger_path
        (take_sends _ slot valid.pending (shift_send rank) (shift_send-Acts rank)
          (without-nil rank))
        (take_recvs _ slot valid.pending (shift_send rank) (shift_send-Acts rank) refl
          ∙ untouched slot _)
        same_expected,
  )

  -- `shiftExpectedSendNotification` says whether a notification of the rank was expected, and
  -- removes the oldest.
  pub shift_expected_send_notification_refines :
      let (found, m) = shift_expected_send_notification (open_mutator c slot rank) in
      (found ≡ mem rank ((ledger c).expected slot))
      × (ledger (close m) ≡ record (ledger c) { expected = dequeue slot rank (ledger c).expected })
  unfolding close shift_expected_send_notification open_mutator
  shift_expected_send_notification_refines = (
    take_from-answer (λ t. t.send) send-IsField (shift_send rank) rank (shift_send-Acts rank).keeps
        (λ t. ap (λ u. u.0) (shift_send_lem rank t)) c.expected_notifications slot,
    ledger_path (ap (queue (λ t. t.send)) (destroy-lazy c.pending_operations slot))
        (ap (queue (λ t. t.recv)) (destroy-lazy c.pending_operations slot))
        (take_sends _ slot valid.expected (shift_send rank) (shift_send-Acts rank)
          (without-nil rank)),
  )

  -- A mutator that looks for a pending send and then expects one; `Pair::recv` does the second when
  -- the first finds nothing.
  pub shift_send-push_expected_refines :
      ledger (
        close (
          push_expected_send_notification (shift_remote_pending_send (open_mutator c slot rank)).1))
      ≡ record (ledger c) {
        sends = dequeue slot rank (ledger c).sends;
        expected = enqueue slot rank (ledger c).expected;
      }
  unfolding close shift_remote_pending_send push_expected_send_notification open_mutator
  shift_send-push_expected_refines =
      ledger_path
        (take_sends _ slot valid.pending (shift_send rank) (shift_send-Acts rank)
          (without-nil rank))
        (take_recvs _ slot valid.pending (shift_send rank) (shift_send-Acts rank) refl
          ∙ untouched slot _)
        (modify_sends _ slot valid.expected (push_send-Acts rank))

  -- A mutator that looks for an expected notification and then records a pending send, as
  -- `Pair::handleRemotePendingSend` uses it.
  pub shift_expected-push_send_refines :
      ledger (
        close (
          push_remote_pending_send (shift_expected_send_notification (open_mutator c slot rank)).1))
      ≡ record (ledger c) {
        sends = enqueue slot rank (ledger c).sends;
        expected = dequeue slot rank (ledger c).expected;
      }
  unfolding close shift_expected_send_notification push_remote_pending_send open_mutator
  shift_expected-push_send_refines =
      ledger_path (modify_sends _ slot valid.pending (push_send-Acts rank))
        (modify_recvs _ slot valid.pending (push_send-Acts rank) ∙ untouched slot _)
        (take_sends _ slot valid.expected (shift_send rank) (shift_send-Acts rank)
          (without-nil rank))
