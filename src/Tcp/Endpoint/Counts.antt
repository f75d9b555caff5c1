-- ===== src/Tcp/Endpoint/Counts.antt =====
-- How an endpoint and the messages in flight are counted, slot by slot, and the law that every
-- handler obeys.
use gloo.Prelude.{
  ℕ, ◌+◌, ◌<◌, ◌≡◌, Bool, true, false, List, [], ◌∷◌, ◌++◌, arith, ◌==◌, if◌then◌else◌, ◌&&◌,
  length, queue_at, NoEmpty,
}
use gloo.Transport.Tally.View.{count}
use gloo.Transport.Mutator.Ledger
use gloo.Transport.Mutator.Ledger.{ledger}
use gloo.Tcp.Op.{Op, Opcode, send_buffer, send_unbound_buffer, notify_send_ready, notify_recv_ready}
use gloo.Tcp.Endpoint.{Endpoint}

abbrev pub is_data : Opcode → Bool
is_data send_unbound_buffer = true
is_data _ = false

abbrev pub is_send_ready : Opcode → Bool
is_send_ready notify_send_ready = true
is_send_ready _ = false

abbrev pub is_recv_ready : Opcode → Bool
is_recv_ready notify_recv_ready = true
is_recv_ready _ = false

abbrev pub is_bound : Opcode → Bool
is_bound send_buffer = true
is_bound _ = false

-- The messages of a kind for a slot.
unfoldable pub messages : (Opcode → Bool) → ℕ → List Op → ℕ
messages kind slot [] = 0
messages kind slot (op ∷ ops) =
    (if kind op.preamble.opcode && (op.preamble.slot == slot) then 1 else 0)
    + messages kind slot ops

pub messages-append :
    (kind : Opcode → Bool) (slot : ℕ) (xs ys : List Op)
    → messages kind slot (xs ++ ys) ≡ messages kind slot xs + messages kind slot ys
unfolding messages
messages-append kind slot [] ys = omega arith
messages-append kind slot (x ∷ xs) ys = omega (arith, messages-append kind slot xs ys)

-- Payloads, send notifications and receive notifications among messages.
abbrev pub data_in : ℕ → List Op → ℕ
data_in = messages is_data

abbrev pub send_ready_in : ℕ → List Op → ℕ
send_ready_in = messages is_send_ready

abbrev pub recv_ready_in : ℕ → List Op → ℕ
recv_ready_in = messages is_recv_ready

abbrev pub bound_in : ℕ → List Op → ℕ
bound_in = messages is_bound

-- The peer's sends and receives that the context knows to be pending, the notifications that it
-- expects, and the pair's own pending operations.
abbrev pub remote_sends : Endpoint → ℕ → ℕ
remote_sends e slot = count e.peer ((ledger e.tallies).sends slot)

abbrev pub remote_recvs : Endpoint → ℕ → ℕ
remote_recvs e slot = count e.peer ((ledger e.tallies).recvs slot)

abbrev pub expected_sends : Endpoint → ℕ → ℕ
expected_sends e slot = count e.peer ((ledger e.tallies).expected slot)

abbrev pub local_sends : Endpoint → ℕ → ℕ
local_sends e slot = length (queue_at e.local_pending_send slot)

abbrev pub local_recvs : Endpoint → ℕ → ℕ
local_recvs e slot = length (queue_at e.local_pending_recv slot)

pub record IsValid (e : Endpoint) : Type 0 where
  pub tallies : Ledger.IsValid e.tallies
  pub sends : NoEmpty e.local_pending_send
  pub recvs : NoEmpty e.local_pending_recv

-- The balance of a handler that takes the messages `taken` and sends `sent`, at one slot.
pub record Balances (e e' : Endpoint) (taken sent : List Op) (slot : ℕ) : Type 0 where
  pub receives :
      remote_recvs e' slot + data_in slot sent ≡ remote_recvs e slot + recv_ready_in slot taken
  pub sends : local_sends e' slot + data_in slot sent ≡ local_sends e slot + send_ready_in slot sent
  pub posted :
      local_recvs e' slot + data_in slot taken ≡ local_recvs e slot + recv_ready_in slot sent
  pub notified :
      remote_sends e' slot + local_recvs e' slot + expected_sends e slot + data_in slot taken
      ≡ remote_sends e slot + local_recvs e slot + expected_sends e' slot + send_ready_in slot taken
  pub unbound : bound_in slot sent ≡ 0
  pub matched :
      (0 < local_sends e slot → remote_recvs e slot ≡ 0)
      → 0 < local_sends e' slot
      → remote_recvs e' slot ≡ 0

-- What every handler does: it keeps the endpoint valid, its peer, and the balance of every slot.
pub record Lawful (e e' : Endpoint) (taken sent : List Op) : Type 0 where
  pub valid : IsValid e'
  pub peer : e'.peer ≡ e.peer
  pub balances : (slot : ℕ) → Balances e e' taken sent slot
