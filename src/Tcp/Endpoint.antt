-- ===== src/Tcp/Endpoint.antt =====
-- gloo/transport/tcp/pair.cc: what the unbound sends and receives of a pair, and the messages from
-- its peer, do to the pair's queues and to the context, and which operations they send.
-- Every handler sends last, so it returns what it sends, in order; `Tcp.Pair` transmits it.
pub mod Counts
pub mod Tallied
pub mod Sending
pub mod Receiving
pub mod Refine
use gloo.Prelude.{
  ℕ, Bool, true, false, List, [], ◌∷◌, Option, none, some, if◌then◌else◌, queue_at, push_back,
  has_key, store_queue,
}
use gloo.Transport.Mutator.{
  Tallies, Mutator, open_mutator, close, push_remote_pending_recv, push_remote_pending_send,
  shift_remote_pending_recv, shift_remote_pending_send, push_expected_send_notification,
  shift_expected_send_notification,
}
use gloo.Tcp.Op.{Op, unbound_buffer_op, recv_ready_op, send_ready_op}
use gloo.Tcp.RecvAny.{UnboundBufferOp, AnyRecv, find_recv_from_any}

-- The state of a pair that the handlers change: `localPendingSend_`, `localPendingRecv_`, and of
-- the context the tallies and `pendingRecv_`. `peer` is `rank_`, the rank of the other side.
pub record Endpoint : Type 0 where
  pub peer : ℕ
  pub tallies : Tallies
  pub waiting : List (ℕ × List AnyRecv)
  pub local_pending_send : List (ℕ × List UnboundBufferOp)
  pub local_pending_recv : List (ℕ × List UnboundBufferOp)

-- `sendUnboundBuffer` of a queued operation.
abbrev pub data_op : ℕ → UnboundBufferOp → Op
data_op slot u = unbound_buffer_op u.buf slot u.offset u.nbytes

-- `Pair::send(UnboundBuffer*, …)`, past its checks.
unfoldable pub post_send : Endpoint → ℕ → UnboundBufferOp → Endpoint × List Op
post_send e slot u =
    let (found, m) = shift_remote_pending_recv (open_mutator e.tallies slot e.peer) in
    if found
    then (record e { tallies = close m }, send_ready_op slot u.nbytes ∷ data_op slot u ∷ [])
    else (
      record e { tallies = close m; local_pending_send = push_back e.local_pending_send slot u },
      send_ready_op slot u.nbytes ∷ [],
    )

-- `localPendingRecv_[slot].push_back(u); sendNotifyRecvReady(slot, nbytes)`.
unfoldable pub announce_recv : Endpoint → ℕ → UnboundBufferOp → Endpoint × List Op
announce_recv e slot u = (
  record e { local_pending_recv = push_back e.local_pending_recv slot u },
  recv_ready_op slot u.nbytes ∷ [],
)

-- `Pair::recv(UnboundBuffer*, …)`, past its checks.
unfoldable pub post_recv : Endpoint → ℕ → UnboundBufferOp → Endpoint × List Op
unfolding announce_recv
post_recv e slot u =
    let (found, m) = shift_remote_pending_send (open_mutator e.tallies slot e.peer) in
    let m' : Mutator = if found then m else push_expected_send_notification m in
    announce_recv (record e { tallies = close m' }) slot u

-- `Pair::tryRecv`, past its checks.
unfoldable pub try_recv : Endpoint → ℕ → UnboundBufferOp → Bool × Endpoint × List Op
unfolding announce_recv
try_recv e slot u =
    let (found, m) = shift_remote_pending_send (open_mutator e.tallies slot e.peer) in
    let e' : Endpoint = record e { tallies = close m } in
    if found
    then (let (e'', ops) = announce_recv e' slot u in (true, e'', ops))
    else (false, e', [])

-- `Pair::handleRemotePendingSend`.
unfoldable pub handle_remote_pending_send : Endpoint → Op → Endpoint × List Op
unfolding announce_recv
handle_remote_pending_send e op =
    let slot = op.preamble.slot in
    let (expected, m) = shift_expected_send_notification (open_mutator e.tallies slot e.peer) in
    if expected
    then (record e { tallies = close m }, [])
    else elim (find_recv_from_any e.waiting slot e.peer) [
      | some (u, waiting) ↦ announce_recv (record e { tallies = close m; waiting = waiting }) slot u
      | none ↦ (record e { tallies = close (push_remote_pending_send m) }, [])
    ]

-- `Pair::handleRemotePendingRecv`; `none` is the failure of GLOO_ENFORCE(!queue.empty()).
unfoldable pub handle_remote_pending_recv : Endpoint → Op → Option (Endpoint × List Op)
handle_remote_pending_recv e op =
    let slot = op.preamble.slot in
    if has_key e.local_pending_send slot
    then elim (queue_at e.local_pending_send slot) [
      | [] ↦ none
      | u ∷ rest ↦ some (
        record e { local_pending_send = store_queue e.local_pending_send slot rest },
        data_op slot u ∷ [],
      )
    ]
    else some (
      record e { tallies = close (push_remote_pending_recv (open_mutator e.tallies slot e.peer)) },
      [],
    )

-- The start of a payload in `Pair::prepareRead`: the posted receive that it goes to; `none` is the
-- failure of GLOO_ENFORCE(it != localPendingRecv_.end()) or GLOO_ENFORCE(!queue.empty()).
unfoldable pub take_local_recv : Endpoint → ℕ → Option (UnboundBufferOp × Endpoint)
take_local_recv e slot =
    if has_key e.local_pending_recv slot
    then elim (queue_at e.local_pending_recv slot) [
      | [] ↦ none
      | u ∷ rest ↦
          some (u, record e { local_pending_recv = store_queue e.local_pending_recv slot rest })
    ]
    else none
