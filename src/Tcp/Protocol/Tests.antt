-- ===== src/Tcp/Protocol/Tests.antt =====
-- A send and a receive that meet: left sends 3 bytes on slot 5, right receives them.
use gloo.Prelude.{
  true, false, ℕ, ◌≡◌, refl, [], ◌∷◌, min, arith, queue_at, push_back, has_key, store_queue,
}
use gloo.Transport.Tally.{
  shift, push_send, push_recv, shift_send, shift_recv, find_slot, erase_at, update_at, exists, get,
  destroy, modify, take_from, tally_empty,
}
use gloo.Transport.Tally.View.{count, queue}
use gloo.Transport.Mutator.{
  Tallies, open_mutator, close, push_remote_pending_send, shift_remote_pending_recv,
  shift_remote_pending_send, push_expected_send_notification, shift_expected_send_notification,
}
use gloo.Tcp.Op.{Op, unbound_buffer_op, recv_ready_op, send_ready_op}
use gloo.Tcp.RecvAny.{UnboundBufferOp}
use gloo.Tcp.Endpoint.{
  Endpoint, post_send, post_recv, try_recv, handle_remote_pending_send, handle_remote_pending_recv,
  take_local_recv,
}
use gloo.Tcp.Protocol.{
  System, sends, recvs, told_send, told_recv, payload, left_acts, right_acts, left_takes,
  right_takes, fresh, connected, Reach, start, later,
}
use gloo.Transport.Tally.View.{mem}
use gloo.Transport.Mutator.Ledger.{IsValid, ledger, enqueue, dequeue}
use gloo.Tcp.Endpoint.Refine.{post_recv_refines, try_recv_refines}
use gloo.Tcp.Protocol.Balance.{Inv, Reach-Inv}
use gloo.Tcp.Protocol.Progress.{drained_is_matched}

abbrev source : UnboundBufferOp
source = record { buf = 1; offset = 0; nbytes = 3 }

abbrev target : UnboundBufferOp
target = record { buf = 2; offset = 4; nbytes = 3 }

-- The states of the two sides on the way.
abbrev sent_left : Endpoint
sent_left = record (fresh 1) { local_pending_send = (5, source ∷ []) ∷ [] }

abbrev expecting : Tallies
expecting = record {
  pending_operations = [];
  expected_notifications = record { slot = 5; send = 0 ∷ []; recv = [] } ∷ [];
}

abbrev posted_right : Endpoint
posted_right = record (fresh 0) { tallies = expecting; local_pending_recv = (5, target ∷ []) ∷ [] }

abbrev told_right : Endpoint
told_right = record (fresh 0) { local_pending_recv = (5, target ∷ []) ∷ [] }

abbrev posted : System
posted = record {
  left = sent_left;
  right = posted_right;
  to_right = send_ready_op 5 3 ∷ [];
  to_left = recv_ready_op 5 3 ∷ [];
}

-- All that a run computes with.
runs : Unit {0}
unfolding post_send post_recv handle_remote_pending_send handle_remote_pending_recv take_local_recv
    send_ready_op recv_ready_op unbound_buffer_op open_mutator close push_remote_pending_send
    shift_remote_pending_recv shift_remote_pending_send push_expected_send_notification
    shift_expected_send_notification shift push_send push_recv shift_send shift_recv find_slot
    erase_at update_at exists get destroy modify take_from queue_at push_back has_key store_queue
    tally_empty
runs = tt

posted-Reach : Reach 0 1 posted
unfolding runs
posted-Reach =
    later
      (later start
        (left_acts {e = sent_left} {sent = send_ready_op 5 3 ∷ []} (sends 5 source refl) refl))
      (right_acts {e = posted_right} {sent = recv_ready_op 5 3 ∷ []} (recvs 5 target refl) refl)

abbrev payload_op : Op
payload_op = unbound_buffer_op 1 5 0 3

abbrev crossed : System
crossed = record { left = fresh 1; right = told_right; to_right = payload_op ∷ []; to_left = [] }

crossed-Reach : Reach 0 1 crossed
unfolding runs
crossed-Reach =
    later
      (later posted-Reach (
        right_takes {e = told_right} {sent = []} (send_ready_op 5 3) [] refl (told_send refl refl)
          refl))
      (left_takes {e = fresh 1} {sent = payload_op ∷ []} (recv_ready_op 5 3) [] refl
        (told_recv refl refl) refl)

-- After the payload arrives nothing is left.
delivered-Reach : Reach 0 1 (connected 0 1)
unfolding runs
delivered-Reach = later crossed-Reach (
    right_takes {e = fresh 0} {sent = []} payload_op [] refl
      (payload target refl refl refl (omega arith)) refl)

drained_is_matched_example : (min 0 0 ≡ 0) × (min 0 0 ≡ 0) × ◌≡◌ {A = ℕ} 0 0 × ◌≡◌ {A = ℕ} 0 0
unfolding runs count queue
drained_is_matched_example = drained_is_matched 5 delivered-Reach refl refl

Reach-Inv_example : Inv crossed
Reach-Inv_example = Reach-Inv crossed-Reach

-- Rank 1 on slot 5: a pending send on the left, none on the right.
abbrev known : Endpoint
known = record (fresh 1) {
  tallies = record {
    pending_operations = record { slot = 5; send = 1 ∷ []; recv = [] } ∷ [];
    expected_notifications = [];
  };
}

known-IsValid : IsValid known.tallies
unfolding tally_empty
known-IsValid = record { pending = (refl, tt, tt); expected = tt }

post_recv_refines_example :
    let before = ledger known.tallies in
    let after = ledger (post_recv known 5 target).0.tallies in
    (mem 1 (before.sends 5) ≡ true → after ≡ record before { sends = dequeue 5 1 before.sends })
    × (mem 1 (before.sends 5) ≡ false
        → after ≡ record before { expected = enqueue 5 1 before.expected })
post_recv_refines_example = post_recv_refines known 5 target known-IsValid

try_recv_refines_example :
    let before = ledger known.tallies in
    let (done, e', sent) = try_recv known 5 target in
    (mem 1 (before.sends 5) ≡ true
      → (done ≡ true) × (ledger e'.tallies ≡ record before { sends = dequeue 5 1 before.sends }))
    × (mem 1 (before.sends 5) ≡ false
        → (done ≡ false)
          × (ledger e'.tallies ≡ before)
          × (e'.local_pending_recv ≡ known.local_pending_recv)
          × (sent ≡ []))
try_recv_refines_example = try_recv_refines known 5 target known-IsValid
