-- ===== src/Tcp/Endpoint/Receiving.antt =====
-- The handlers of the peer's messages obey the law of handlers.
use gloo.Prelude.{
  ℕ, ◌+◌, ◌<◌, ◌≡◌, refl, true, false, List, [], ◌∷◌, arith, Bool-cases, inl, inr, length, queue_at,
  push_back-NoEmpty, has_key, store_queue, queue_at-store_queue, queue_at_missing, queue_at_there,
  store_queue-NoEmpty, some, ap, Option-cases, List-cases,
}
use gloo.Transport.Mutator.{open_mutator, close, push_remote_pending_recv}
use gloo.Transport.Mutator.Valid.{mutator-IsValid, mutator_twice-IsValid}
use gloo.Tcp.Op.{
  Op, notify_send_ready, notify_recv_ready, send_unbound_buffer, unbound_buffer_op, recv_ready_op,
}
use gloo.Tcp.RecvAny.{UnboundBufferOp, find_recv_from_any}
use gloo.Tcp.Endpoint.{
  Endpoint, data_op, handle_remote_pending_send, handle_remote_pending_recv, take_local_recv,
}
use gloo.Tcp.Endpoint.Counts.{messages, local_recvs, Balances, Lawful, IsValid}
use gloo.Tcp.Endpoint.Tallied.{
  at, push_recv-Counted, shift_expected-Counted, shift_expected_missing-Counted,
}
use gloo.Tcp.Endpoint.Sending.{length-push_back}

module _ (e : Endpoint) (op : Op) (valid : IsValid e) where
  handle_send-Balances :
      (other : ℕ)
      → op.preamble.opcode ≡ notify_send_ready
      → Balances e
          (handle_remote_pending_send e op).0
          (op ∷ [])
          (handle_remote_pending_send e op).1
          other
  unfolding handle_remote_pending_send messages recv_ready_op
  handle_send-Balances other kind =
      let slot = op.preamble.slot in
      let shifted = shift_expected-Counted e.tallies slot e.peer other valid.tallies in
      let pushed = shift_expected_missing-Counted e.tallies slot e.peer other valid.tallies in
      elim (Option-cases (find_recv_from_any e.waiting slot e.peer)) [
        | inl nobody ↦ ground (arith, shifted, pushed)
        | inr (match, found) ↦
            ground (arith, shifted, length-push_back e.local_pending_recv slot other match.0)
      ]

  handle_send-IsValid : IsValid (handle_remote_pending_send e op).0
  unfolding handle_remote_pending_send
  handle_send-IsValid =
      let slot = op.preamble.slot in
      let once = mutator-IsValid e.tallies slot e.peer valid.tallies in
      let twice = mutator_twice-IsValid e.tallies slot e.peer valid.tallies in
      elim (Option-cases (find_recv_from_any e.waiting slot e.peer)) [
        | inl nobody ↦ ground (arith, once, twice)
        | inr (match, found) ↦
            ground (arith, once, push_back-NoEmpty e.local_pending_recv slot match.0 valid.recvs)
      ]

  peer-handle_send : (handle_remote_pending_send e op).0.peer ≡ e.peer
  unfolding handle_remote_pending_send
  peer-handle_send = ground arith

  -- A valid endpoint that handles a send notification stays valid and keeps its peer and the balance
  -- of every slot, whether it drops, answers or records the notification.
  pub handle_send-Lawful :
      op.preamble.opcode ≡ notify_send_ready
      → Lawful e (handle_remote_pending_send e op).0 (op ∷ []) (handle_remote_pending_send e op).1
  handle_send-Lawful kind = record {
    valid = handle_send-IsValid;
    peer = peer-handle_send;
    balances = λ other. handle_send-Balances other kind;
  }

-- A queue whose front is taken is one shorter.
length-store_queue :
    (m : List (ℕ × List UnboundBufferOp)) (k j : ℕ) (u : UnboundBufferOp)
    (rest : List UnboundBufferOp)
    → has_key m k ≡ true
    → queue_at m k ≡ u ∷ rest
    → length (queue_at (store_queue m k rest) j) + at k j ≡ length (queue_at m j)
length-store_queue m k j u rest there front =
    ground (arith, queue_at-store_queue m k j rest there, ap length front)

module _ (e : Endpoint) (op : Op) (valid : IsValid e)
    (kind : op.preamble.opcode ≡ notify_recv_ready) where
  answer_recv-Lawful :
      (u : UnboundBufferOp) (rest : List UnboundBufferOp)
      → has_key e.local_pending_send op.preamble.slot ≡ true
      → queue_at e.local_pending_send op.preamble.slot ≡ u ∷ rest
      → Lawful e
          (record e { local_pending_send = store_queue e.local_pending_send op.preamble.slot rest })
          (op ∷ [])
          (data_op op.preamble.slot u ∷ [])
  unfolding messages unbound_buffer_op
  answer_recv-Lawful u rest there front = record {
    valid = record {
      tallies = valid.tallies;
      sends = store_queue-NoEmpty e.local_pending_send op.preamble.slot rest valid.sends;
      recvs = valid.recvs;
    };
    peer = refl;
    balances = λ other.
        ground (
          arith,
          length-store_queue e.local_pending_send op.preamble.slot other u rest there front,
        );
  }

  record_recv-Lawful :
      has_key e.local_pending_send op.preamble.slot ≡ false
      → Lawful e
          (record e {
            tallies =
                close (push_remote_pending_recv (open_mutator e.tallies op.preamble.slot e.peer));
          })
          (op ∷ [])
          []
  unfolding messages
  record_recv-Lawful missing = record {
    valid = record {
      tallies = (mutator-IsValid e.tallies op.preamble.slot e.peer valid.tallies).0;
      sends = valid.sends;
      recvs = valid.recvs;
    };
    peer = refl;
    balances = λ other. ground (
      arith,
      push_recv-Counted e.tallies op.preamble.slot e.peer other valid.tallies,
      ap length (queue_at_missing e.local_pending_send op.preamble.slot missing),
    );
  }

  -- A valid endpoint that handles a receive notification does not fail the check that the queue is
  -- not empty; it stays valid and keeps its peer and the balance of every slot.
  pub handle_recv-Lawful :
      (r : Endpoint × List Op) × (handle_remote_pending_recv e op ≡ some r)
      × Lawful e r.0 (op ∷ []) r.1
  unfolding handle_remote_pending_recv
  handle_recv-Lawful = elim (Bool-cases (has_key e.local_pending_send op.preamble.slot)) [
    | inr missing ↦ (_, rw missing, record_recv-Lawful missing)
    | inl there ↦ elim (List-cases (queue_at e.local_pending_send op.preamble.slot)) [
      | inl nothing ↦
          absurd (queue_at_there e.local_pending_send op.preamble.slot valid.sends there nothing)
      | inr (u, rest, front) ↦ (_, rw (there, front), answer_recv-Lawful u rest there front)
    ]
  ]

module _ (e : Endpoint) (op : Op) (valid : IsValid e)
    (kind : op.preamble.opcode ≡ send_unbound_buffer) where
  -- On a valid endpoint with a receive posted for the slot of a payload, the payload takes a posted
  -- receive, and the endpoint stays valid and keeps its peer and the balance of every slot.
  pub take_local_recv-Lawful :
      0 < local_recvs e op.preamble.slot
      → (r : UnboundBufferOp × Endpoint) × (take_local_recv e op.preamble.slot ≡ some r)
        × Lawful e r.1 (op ∷ []) []
  unfolding take_local_recv messages
  take_local_recv-Lawful posted =
      elim (Bool-cases (has_key e.local_pending_recv op.preamble.slot)) [
        | inr missing ↦ absurd (
            omega
              (arith, ap length (queue_at_missing e.local_pending_recv op.preamble.slot missing)))
        | inl there ↦ elim (List-cases (queue_at e.local_pending_recv op.preamble.slot)) [
          | inl nothing ↦
              absurd
                (queue_at_there e.local_pending_recv op.preamble.slot valid.recvs there nothing)
          | inr (u, rest, front) ↦ (
            (
              u,
              record e {
                local_pending_recv = store_queue e.local_pending_recv op.preamble.slot rest;
              },
            ),
            rw (there, front),
            record {
              valid = record {
                tallies = valid.tallies;
                sends = valid.sends;
                recvs = store_queue-NoEmpty e.local_pending_recv op.preamble.slot rest valid.recvs;
              };
              peer = refl;
              balances = λ other. ground (
                arith,
                length-store_queue e.local_pending_recv op.preamble.slot other u rest there front,
              );
            },
          )
        ]
      ]
