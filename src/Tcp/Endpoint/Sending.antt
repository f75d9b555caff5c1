-- ===== src/Tcp/Endpoint/Sending.antt =====
-- The sends and receives that a user posts obey the law of handlers.
use gloo.Prelude.{
  ℕ, ◌+◌, ◌≡◌, List, [], ◌∷◌, arith, length, length-append, queue_at, push_back, queue_at-push_back,
  push_back-NoEmpty,
}
use gloo.Transport.Mutator.Valid.{mutator-IsValid, mutator_twice-IsValid}
use gloo.Tcp.Op.{unbound_buffer_op, recv_ready_op, send_ready_op}
use gloo.Tcp.RecvAny.{UnboundBufferOp}
use gloo.Tcp.Endpoint.{Endpoint, post_send, post_recv, try_recv}
use gloo.Tcp.Endpoint.Counts.{messages, Balances, Lawful, IsValid}
use gloo.Tcp.Endpoint.Tallied.{
  at, shift_recv-Counted, shift_recv_missing, shift_send-Counted, shift_send_missing-Counted,
}

-- A queued operation lengthens the queue of its slot.
pub length-push_back :
    (m : List (ℕ × List UnboundBufferOp)) (k j : ℕ) (u : UnboundBufferOp)
    → length (queue_at (push_back m k u) j) ≡ length (queue_at m j) + at k j
length-push_back m k j u =
    ground (arith, queue_at-push_back m k j u, length-append (queue_at m k) (u ∷ []))

module _ (e : Endpoint) (slot : ℕ) (u : UnboundBufferOp) (valid : IsValid e) where
  post_send-Balances :
      (other : ℕ) → Balances e (post_send e slot u).0 [] (post_send e slot u).1 other
  unfolding post_send messages unbound_buffer_op send_ready_op
  post_send-Balances other = ground (
    arith,
    shift_recv-Counted e.tallies slot e.peer other valid.tallies,
    shift_recv_missing e.tallies slot e.peer other valid.tallies,
    length-push_back e.local_pending_send slot other u,
  )

  post_send-IsValid : IsValid (post_send e slot u).0
  unfolding post_send
  post_send-IsValid = ground (
    arith,
    mutator-IsValid e.tallies slot e.peer valid.tallies,
    push_back-NoEmpty e.local_pending_send slot u valid.sends,
  )

  peer-post_send : (post_send e slot u).0.peer ≡ e.peer
  unfolding post_send
  peer-post_send = ground arith

  -- A send that is posted on a valid endpoint keeps it valid, its peer, and the balance of every
  -- slot, whether it goes out at once or is queued.
  pub post_send-Lawful : Lawful e (post_send e slot u).0 [] (post_send e slot u).1
  post_send-Lawful = record {
    valid = post_send-IsValid;
    peer = peer-post_send;
    balances = post_send-Balances;
  }

  post_recv-Balances :
      (other : ℕ) → Balances e (post_recv e slot u).0 [] (post_recv e slot u).1 other
  unfolding post_recv messages recv_ready_op
  post_recv-Balances other = ground (
    arith,
    shift_send-Counted e.tallies slot e.peer other valid.tallies,
    shift_send_missing-Counted e.tallies slot e.peer other valid.tallies,
    length-push_back e.local_pending_recv slot other u,
  )

  post_recv-IsValid : IsValid (post_recv e slot u).0
  unfolding post_recv
  post_recv-IsValid = ground (
    arith,
    mutator-IsValid e.tallies slot e.peer valid.tallies,
    mutator_twice-IsValid e.tallies slot e.peer valid.tallies,
    push_back-NoEmpty e.local_pending_recv slot u valid.recvs,
  )

  peer-post_recv : (post_recv e slot u).0.peer ≡ e.peer
  unfolding post_recv
  peer-post_recv = ground arith

  -- A receive that is posted on a valid endpoint keeps it valid, its peer, and the balance of every
  -- slot, whether it answers a pending send or expects a notification.
  pub post_recv-Lawful : Lawful e (post_recv e slot u).0 [] (post_recv e slot u).1
  post_recv-Lawful = record {
    valid = post_recv-IsValid;
    peer = peer-post_recv;
    balances = post_recv-Balances;
  }

  try_recv-Balances : (other : ℕ) → Balances e (try_recv e slot u).1 [] (try_recv e slot u).2 other
  unfolding try_recv messages recv_ready_op
  try_recv-Balances other = ground (
    arith,
    shift_send-Counted e.tallies slot e.peer other valid.tallies,
    length-push_back e.local_pending_recv slot other u,
  )

  try_recv-IsValid : IsValid (try_recv e slot u).1
  unfolding try_recv
  try_recv-IsValid = ground (
    arith,
    mutator-IsValid e.tallies slot e.peer valid.tallies,
    push_back-NoEmpty e.local_pending_recv slot u valid.recvs,
  )

  peer-try_recv : (try_recv e slot u).1.peer ≡ e.peer
  unfolding try_recv
  peer-try_recv = ground arith

  -- And so is a tried receive, whether or not it finds a pending send.
  pub try_recv-Lawful : Lawful e (try_recv e slot u).1 [] (try_recv e slot u).2
  try_recv-Lawful = record {
    valid = try_recv-IsValid;
    peer = peer-try_recv;
    balances = try_recv-Balances;
  }
