-- ===== src/Tcp/Protocol.antt =====
-- Two endpoints and the two streams of messages between them: what gloo/transport/tcp/pair.cc does
-- on both sides of a socket, in any order of user calls and arrivals. A stream delivers the
-- operations of a side in the order in which it sent them.
pub mod Balance
pub mod Progress
mod Tests
use gloo.Prelude.{ℕ, ◌≡◌, ◌≤◌, List, [], ◌∷◌, ◌++◌, none, some}
use gloo.Transport.Mutator.{Tallies}
use gloo.Tcp.Op.{Op, notify_send_ready, notify_recv_ready, send_unbound_buffer}
use gloo.Tcp.RecvAny.{UnboundBufferOp, AnyRecv, recv_from_any_find_rank}
use gloo.Tcp.Endpoint.{
  Endpoint, post_send, post_recv, try_recv, handle_remote_pending_send, handle_remote_pending_recv,
  take_local_recv,
}

-- A call of the user: a send, a receive, and the two parts of a receive from any rank.
pub data Act (e e' : Endpoint) (sent : List Op) : Type 0 where
  sends : (slot : ℕ) (u : UnboundBufferOp) → post_send e slot u ≡ (e', sent) → Act e e' sent
  recvs : (slot : ℕ) (u : UnboundBufferOp) → post_recv e slot u ≡ (e', sent) → Act e e' sent
  tries :
      (slot : ℕ) (u : UnboundBufferOp)
      → (try_recv e slot u).1 ≡ e'
      → (try_recv e slot u).2 ≡ sent
      → Act e e' sent
  waits :
      (slot : ℕ) (r : AnyRecv) (waiting : List (ℕ × List AnyRecv))
      → recv_from_any_find_rank e.tallies.pending_operations e.waiting slot r ≡ (none, waiting)
      → e' ≡ record e { waiting = waiting }
      → sent ≡ []
      → Act e e' sent

-- The arrival of a message. `prepareRead` lets a payload be read only into a receive that is at least
-- as long. The unbound buffer that posted the receive is still there: the read stops at one that is
-- gone, and the message is then not taken.
pub data Take (e e' : Endpoint) (op : Op) (sent : List Op) : Type 0 where
  told_send :
      op.preamble.opcode ≡ notify_send_ready
      → handle_remote_pending_send e op ≡ (e', sent)
      → Take e e' op sent
  told_recv :
      op.preamble.opcode ≡ notify_recv_ready
      → handle_remote_pending_recv e op ≡ some (e', sent)
      → Take e e' op sent
  payload :
      (u : UnboundBufferOp)
      → op.preamble.opcode ≡ send_unbound_buffer
      → take_local_recv e op.preamble.slot ≡ some (u, e')
      → sent ≡ []
      → op.preamble.length ≤ u.nbytes
      → Take e e' op sent

pub record System : Type 0 where
  pub left : Endpoint
  pub right : Endpoint
  pub to_right : List Op
  pub to_left : List Op

pub data Step (s t : System) : Type 0 where
  left_acts :
      {e : Endpoint} {sent : List Op}
      → Act s.left e sent
      → t ≡ record s { left = e; to_right = s.to_right ++ sent }
      → Step s t
  right_acts :
      {e : Endpoint} {sent : List Op}
      → Act s.right e sent
      → t ≡ record s { right = e; to_left = s.to_left ++ sent }
      → Step s t
  left_takes :
      {e : Endpoint} {sent : List Op} (op : Op) (rest : List Op)
      → s.to_left ≡ op ∷ rest
      → Take s.left e op sent
      → t ≡ record s { left = e; to_left = rest; to_right = s.to_right ++ sent }
      → Step s t
  right_takes :
      {e : Endpoint} {sent : List Op} (op : Op) (rest : List Op)
      → s.to_right ≡ op ∷ rest
      → Take s.right e op sent
      → t ≡ record s { right = e; to_right = rest; to_left = s.to_left ++ sent }
      → Step s t

-- A pair that has just been connected.
abbrev pub fresh : ℕ → Endpoint
fresh peer = record {
  peer = peer;
  tallies = record { pending_operations = []; expected_notifications = [] };
  waiting = [];
  local_pending_send = [];
  local_pending_recv = [];
}

-- Two connected ranks.
abbrev pub connected : ℕ → ℕ → System
connected l r = record { left = fresh r; right = fresh l; to_right = []; to_left = [] }

pub data Reach (l r : ℕ) : System → Type 0 where
  start : Reach l r (connected l r)
  later : {s t : System} → Reach l r s → Step s t → Reach l r t
