-- ===== src/Tcp/Protocol/Progress.antt =====
-- No message gets stuck, and no matching pair of operations is left over.
use gloo.Prelude.{ℕ, ◌<◌, ◌≡◌, min, ◌⊎◌, some, List, [], ◌∷◌, arith}
use gloo.Tcp.Op.{Op, send_unbound_buffer}
use gloo.Tcp.Endpoint.{Endpoint, take_local_recv}
use gloo.Tcp.RecvAny.{UnboundBufferOp}
use gloo.Tcp.Endpoint.Counts.{messages, remote_recvs, local_sends, local_recvs}
use gloo.Tcp.Protocol.{Take, System, Reach}
use gloo.Tcp.Protocol.Balance.{Reach-Inv}

-- What becomes of a message that arrives: it is taken, unless it is a payload and the receive that
-- it finds is shorter.
abbrev pub Arrives : Endpoint → Op → Type 0
Arrives e op =
    ((e' : Endpoint) × (sent : List Op) × Take e e' op sent)
    ⊎ ((op.preamble.opcode ≡ send_unbound_buffer)
        × ((u : UnboundBufferOp) × (e' : Endpoint) × (take_local_recv e op.preamble.slot
              ≡ some (u, e'))
            × (u.nbytes < op.preamble.length)))

-- What becomes of the first message of a stream, if there is one.
abbrev pub Handles : Endpoint → List Op → Type 0
Handles e [] = Unit {0}
Handles e (op ∷ rest) = Arrives e op

-- Once both streams are drained, no slot has both a queued send and a posted receive for it, and
-- each side knows exactly the receives that the other has posted.
pub drained_is_matched :
    {l r : ℕ} {s : System} (slot : ℕ)
    → Reach l r s
    → s.to_right ≡ []
    → s.to_left ≡ []
    → (min (local_sends s.left slot) (local_recvs s.right slot) ≡ 0)
      × (min (local_sends s.right slot) (local_recvs s.left slot) ≡ 0)
      × (local_recvs s.right slot ≡ remote_recvs s.left slot)
      × (local_recvs s.left slot ≡ remote_recvs s.right slot)
unfolding messages
drained_is_matched {s} slot reach no_right no_left =
    let inv = Reach-Inv reach in
    let rightward = rw (no_right, no_left) at inv.rightward slot in
    let leftward = rw (no_right, no_left) at inv.leftward slot in
    ground (arith, rightward.matched, leftward.matched, rightward.receives, leftward.receives)
