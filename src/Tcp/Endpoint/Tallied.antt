-- ===== src/Tcp/Endpoint/Tallied.antt =====
-- The counts of a context after each use of a mutator.
use gloo.Prelude.{
  ℕ, ◌+◌, ◌≡◌, sym, true, false, List, arith, ◌==◌, if◌then◌else◌, Bool-cases, inl, inr, ◌∙◌,
}
use gloo.Transport.Tally.View.{count, mem, count-append_one, count-without, count_missing}
use gloo.Transport.Mutator.{
  Tallies, open_mutator, close, push_remote_pending_recv, push_remote_pending_send,
  shift_remote_pending_recv, shift_remote_pending_send, push_expected_send_notification,
  shift_expected_send_notification,
}
use gloo.Transport.Mutator.Ledger.{Ledger, ledger, enqueue, dequeue, IsValid}
use gloo.Transport.Mutator.Refine.{
  push_remote_pending_recv_refines, shift_remote_pending_recv_refines,
  shift_remote_pending_send_refines, shift_expected_send_notification_refines,
  shift_send-push_expected_refines, shift_expected-push_send_refines,
}

-- 1 at the slot that a mutator was opened for.
abbrev pub at : ℕ → ℕ → ℕ
at slot other = if slot == other then 1 else 0

count-enqueue :
    (q : ℕ → List ℕ) (slot rank other : ℕ)
    → count rank (enqueue slot rank q other) ≡ count rank (q other) + at slot other
count-enqueue q slot rank other = ground (arith, count-append_one rank rank (q slot))

count-dequeue_found :
    (q : ℕ → List ℕ) (slot rank other : ℕ)
    → mem rank (q slot) ≡ true
    → count rank (dequeue slot rank q other) + at slot other ≡ count rank (q other)
count-dequeue_found q slot rank other h = ground (arith, count-without rank (q slot))

count-dequeue_missing :
    (q : ℕ → List ℕ) (slot rank other : ℕ)
    → mem rank (q slot) ≡ false
    → count rank (dequeue slot rank q other) ≡ count rank (q other)
count-dequeue_missing q slot rank other h = ground (arith, count-without rank (q slot))

-- The counts of one rank in a ledger after a change: for sends, receives and expected
-- notifications, how many came and how many went.
pub record Counted (l l' : Ledger) (rank other : ℕ)
    (sends_in sends_out recvs_in recvs_out expected_in expected_out : ℕ) : Type 0 where
  pub sends : count rank (l'.sends other) + sends_out ≡ count rank (l.sends other) + sends_in
  pub recvs : count rank (l'.recvs other) + recvs_out ≡ count rank (l.recvs other) + recvs_in
  pub expected :
      count rank (l'.expected other) + expected_out ≡ count rank (l.expected other) + expected_in

module _ (c : Tallies) (slot rank other : ℕ) (valid : IsValid c) where
  pub push_recv-Counted :
      Counted
        (ledger c)
        (ledger (close (push_remote_pending_recv (open_mutator c slot rank))))
        rank
        other
        0
        0
        (at slot other)
        0
        0
        0
  push_recv-Counted =
      rw (push_remote_pending_recv_refines c slot rank valid)
        (omega (arith, count-enqueue (ledger c).recvs slot rank other))

  pub shift_recv-Counted :
      let (found, m) = shift_remote_pending_recv (open_mutator c slot rank) in
      Counted
        (ledger c)
        (ledger (close m))
        rank
        other
        0
        0
        0
        (if found then at slot other else 0)
        0
        0
  shift_recv-Counted =
      let (answer, refines) = shift_remote_pending_recv_refines c slot rank valid in
      elim (Bool-cases (mem rank ((ledger c).recvs slot))) [
        | inl there ↦
            rw (refines, answer, there)
              (omega (arith, count-dequeue_found (ledger c).recvs slot rank other there))
        | inr missing ↦
            rw (refines, answer, missing)
              (omega (arith, count-dequeue_missing (ledger c).recvs slot rank other missing))
      ]

  -- A receive that was not found was not there.
  pub shift_recv_missing :
      (shift_remote_pending_recv (open_mutator c slot rank)).0 ≡ false
      → count rank ((ledger c).recvs slot) ≡ 0
  shift_recv_missing e =
      count_missing rank ((ledger c).recvs slot)
        (sym ((shift_remote_pending_recv_refines c slot rank valid).0) ∙ e)

  pub shift_send-Counted :
      let (found, m) = shift_remote_pending_send (open_mutator c slot rank) in
      Counted
        (ledger c)
        (ledger (close m))
        rank
        other
        0
        (if found then at slot other else 0)
        0
        0
        0
        0
  shift_send-Counted =
      let (answer, refines) = shift_remote_pending_send_refines c slot rank valid in
      elim (Bool-cases (mem rank ((ledger c).sends slot))) [
        | inl there ↦
            rw (refines, answer, there)
              (omega (arith, count-dequeue_found (ledger c).sends slot rank other there))
        | inr missing ↦
            rw (refines, answer, missing)
              (omega (arith, count-dequeue_missing (ledger c).sends slot rank other missing))
      ]

  pub shift_expected-Counted :
      let (found, m) = shift_expected_send_notification (open_mutator c slot rank) in
      Counted
        (ledger c)
        (ledger (close m))
        rank
        other
        0
        0
        0
        0
        0
        (if found then at slot other else 0)
  shift_expected-Counted =
      let (answer, refines) = shift_expected_send_notification_refines c slot rank valid in
      elim (Bool-cases (mem rank ((ledger c).expected slot))) [
        | inl there ↦
            rw (refines, answer, there)
              (omega (arith, count-dequeue_found (ledger c).expected slot rank other there))
        | inr missing ↦
            rw (refines, answer, missing)
              (omega (arith, count-dequeue_missing (ledger c).expected slot rank other missing))
      ]

  pub shift_send_missing-Counted :
      let (found, m) = shift_remote_pending_send (open_mutator c slot rank) in
      found ≡ false
      → Counted
          (ledger c)
          (ledger (close (push_expected_send_notification m)))
          rank
          other
          0
          0
          0
          0
          (at slot other)
          0
  shift_send_missing-Counted e =
      let missing : mem rank ((ledger c).sends slot) ≡ false =
        sym ((shift_remote_pending_send_refines c slot rank valid).0) ∙ e in
      rw (shift_send-push_expected_refines c slot rank valid) (
        omega (
          arith,
          count-dequeue_missing (ledger c).sends slot rank other missing,
          count-enqueue (ledger c).expected slot rank other,
        ))

  pub shift_expected_missing-Counted :
      let (found, m) = shift_expected_send_notification (open_mutator c slot rank) in
      found ≡ false
      → Counted
          (ledger c)
          (ledger (close (push_remote_pending_send m)))
          rank
          other
          (at slot other)
          0
          0
          0
          0
          0
  shift_expected_missing-Counted e =
      let missing : mem rank ((ledger c).expected slot) ≡ false =
        sym ((shift_expected_send_notification_refines c slot rank valid).0) ∙ e in
      rw (shift_expected-push_send_refines c slot rank valid) (
        omega (
          arith,
          count-dequeue_missing (ledger c).expected slot rank other missing,
          count-enqueue (ledger c).sends slot rank other,
        ))
