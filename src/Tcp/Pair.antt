-- ===== src/Tcp/Pair.antt =====
-- gloo/transport/tcp/pair.h and pair.cc: the life of a pair, and how it transmits operations.
-- The results of the coming calls of writev are the pair's script. Of a buffer that a queued
-- operation is bound to, what is kept is whether it was told of an exception.
pub mod States
pub mod Writes
pub mod Transmit
mod Tests
use gloo.Prelude.{
  ℕ, Bool, true, false, not, ◌&&◌, ◌||◌, List, [], ◌∷◌, ◌++◌, Option, none, some, map,
  if◌then◌else◌,
}
use gloo.Tcp.Op.{
  Op, Opcode, Preamble, send_buffer, send_unbound_buffer, notify_send_ready, notify_recv_ready,
}
use gloo.Tcp.Write.{
  WriteResult, Verdict, complete, incomplete, write_timeout, write_error, enforce_failed, waiting,
  WriteRun, write_loop,
}

-- `Pair::state`.
pub data State : Type 0 where
  initializing connecting connected closed : State

-- The exceptions that a pair raises or keeps.
pub data Failure : Type 0 where
  enforce write_timed_out write_failed socket_closed connect_failed application : Failure

pub record Pair : Type 0 where
  pub state : State
  pub sync : Bool
  pub fd_open : Bool  -- fd_ != FD_INVALID
  pub reads : Bool  -- registered with the device for EPOLLIN
  pub writes : Bool  -- and for EPOLLOUT
  pub ex : Option Failure
  pub tx : List Op
  pub wire : List ℕ
  pub script : List WriteResult
  pub told : List Op  -- posted operations whose buffer was told of the exception

-- What a call does: it returns, throws, or has not returned yet.
pub data Outcome (A : Type 0) : Type 0 where
  ok : A → Pair → Outcome A
  thrown : Failure → Pair → Outcome A
  blocked : Pair → Outcome A

-- The constructor.
abbrev pub new_pair : List WriteResult → Pair
new_pair script = record {
  state = initializing;
  sync = false;
  fd_open = false;
  reads = false;
  writes = false;
  ex = none;
  tx = [];
  wire = [];
  script = script;
  told = [];
}

-- `device_->unregisterDescriptor(fd_, this)`.
abbrev pub unregister : Pair → Pair
unregister p = record p { reads = false; writes = false }

-- The clean-up of `changeState(CLOSED)`, by the state that is left.
unfoldable pub clean_up : State → Pair → Pair
clean_up initializing p = p
clean_up connecting p = if p.fd_open then record (unregister p) { fd_open = false } else p
clean_up connected p =
    let p' : Pair = if p.sync then p else unregister p in record p' { fd_open = false }
clean_up closed p = p

-- `Pair::changeState`.
unfoldable pub change_state : Pair → State → Pair
unfolding clean_up
change_state p closed = record (clean_up p.state p) { state = closed }
change_state p next = record p { state = next }

-- The destructor, and `Pair::close`.
unfoldable pub close : Pair → Pair
unfolding change_state
close p = elim p.state [ closed ↦ p | _ ↦ change_state p closed ]

-- The operations of `tx_` with a bound buffer, which `signalException` tells.
unfoldable pub bound_ops : List Op → List Op
bound_ops [] = []
bound_ops (op ∷ ops) = elim op.buf [ none ↦ bound_ops ops | some b ↦ op ∷ bound_ops ops ]

-- `Pair::signalException`: the buffers are told, the exception kept, and the pair closed.
unfoldable pub signal_exception : Pair → Failure → Outcome (Unit {0})
unfolding change_state bound_ops
signal_exception p e = elim p.ex [
  | some _ ↦ thrown enforce p
  | none ↦ ok tt (change_state (record p { ex = some e; told = p.told ++ bound_ops p.tx }) closed)
]

-- `Pair::throwIfException`, before the rest of a call.
unfoldable pub throw_if_exception : {A : Type 0} → Pair → Outcome A → Outcome A
throw_if_exception p k = elim p.ex [ some e ↦ thrown e p | none ↦ k ]

-- `Pair::connect` up to its wait.
unfoldable pub connect : Pair → Outcome (Unit {0})
connect p = elim p.state [
  | initializing ↦ ok tt (record p { state = connecting })
  | _ ↦ thrown enforce p
]

-- `Pair::connectCallback`; the argument says whether there was an error.
unfoldable pub connect_callback : Pair → Bool → Outcome (Unit {0})
unfolding signal_exception change_state
connect_callback p true = signal_exception p connect_failed
connect_callback p false =
    ok tt (change_state (record p { fd_open = true; reads = true; writes = false }) connected)

-- `Pair::signalExceptionExternal`: the first exception stays.
unfoldable pub signal_exception_external : Pair → Failure → Outcome (Unit {0})
unfolding signal_exception
signal_exception_external p e = elim p.ex [ none ↦ signal_exception p e | some _ ↦ ok tt p ]

-- `Pair::signalAndThrowException`.
unfoldable pub signal_and_throw : Pair → Failure → Outcome (Unit {0})
unfolding signal_exception
signal_and_throw p e = elim (signal_exception p e) [
  | ok _ p' ↦ thrown e p'
  | thrown f p' ↦ thrown f p'
  | blocked p' ↦ blocked p'
]

-- `Pair::verifyConnected`.
unfoldable pub verify_connected : Pair → Outcome (Unit {0})
unfolding signal_and_throw
verify_connected p = elim p.state [
  | connected ↦ ok tt p
  | closed ↦ signal_and_throw p socket_closed
  | _ ↦ thrown enforce p
]

module _ (preamble_bytes : Preamble → List ℕ) (memory : Option ℕ → List ℕ)
    (alive : Option ℕ → Bool) where
  -- What `write` does with the way its loop ended.
  unfoldable pub finish_write : Pair → WriteRun → Outcome (Bool × Op)
  unfolding signal_exception
  finish_write p r =
      let p' : Pair = record p { wire = r.wire; script = r.script } in
      let failed = λ (e : Failure).
        (let o : Outcome (Bool × Op) = elim (signal_exception p' e) [
          | ok _ q ↦ ok (false, r.op) q
          | thrown f q ↦ thrown f q
          | blocked q ↦ blocked q
        ] in
          o) in
      elim r.verdict [
        | complete ↦ ok (true, r.op) p'
        | incomplete ↦ ok (false, r.op) p'
        | write_timeout ↦ failed write_timed_out
        | write_error ↦ failed write_failed
        | enforce_failed ↦ thrown enforce p'
        | waiting ↦ blocked p'
      ]

  -- `NonOwningPtr<UnboundBuffer>(op.ubuf)`, which an unbound send needs.
  unfoldable pub has_buffer : Op → Opcode → Bool
  has_buffer op send_unbound_buffer = alive op.ubuf
  has_buffer op _ = true

  -- `Pair::write`: the operation with what was written of it, and whether it is complete.
  unfoldable pub write : Pair → Op → Outcome (Bool × Op)
  unfolding finish_write has_buffer
  write p op = elim p.state [
    | closed ↦ ok (false, op) p
    | _ ↦
        (if has_buffer op op.preamble.opcode
          then finish_write p (write_loop preamble_bytes memory p.sync p.script op p.wire)
          else ok (false, op) p)
  ]

  -- `sendAsyncMode` after its write: what is not complete waits for the socket.
  unfoldable pub queue_rest : Outcome (Bool × Op) → Outcome (Unit {0})
  unfolding throw_if_exception
  queue_rest (ok (true, op) p) = ok tt p
  queue_rest (ok (false, op) p) =
      throw_if_exception p (ok tt (record p { tx = p.tx ++ op ∷ []; reads = true; writes = true }))
  queue_rest (thrown e p) = thrown e p
  queue_rest (blocked p) = blocked p

  -- `Pair::sendAsyncMode`.
  unfoldable pub send_async_mode : Pair → Op → Outcome (Unit {0})
  unfolding write queue_rest
  send_async_mode p op = if p.sync then thrown enforce p else elim p.tx [
    | _ ∷ _ ↦ ok tt (record p { tx = p.tx ++ op ∷ [] })
    | [] ↦ queue_rest (write p op)
  ]

  -- The loop over `tx_` of `handleReadWrite` after a write of its front: a complete operation leaves
  -- the queue, and the loop goes on.
  unfoldable pub flush_next :
      Outcome (Bool × Op) → List Op → (Pair → Outcome (Unit {0})) → Outcome (Unit {0})
  flush_next (ok (true, op) p) ops again = again p
  flush_next (ok (false, op) p) ops again = ok tt (record p { tx = op ∷ ops })
  flush_next (thrown e p) ops again = thrown e p
  flush_next (blocked p) ops again = blocked p

  -- The loop; the argument is the queue that is left.
  unfoldable pub flush : List Op → Pair → Outcome (Unit {0})
  unfolding write flush_next
  flush [] p = ok tt (record p { tx = []; reads = true; writes = false })
  flush (op ∷ ops) p = flush_next (write (record p { tx = op ∷ ops }) op) ops (λ p'. flush ops p')

  -- `handleReadWrite` on EPOLLOUT.
  unfoldable pub handle_writable : Pair → Outcome (Unit {0})
  unfolding flush
  handle_writable p = elim p.tx [ [] ↦ thrown enforce p | op ∷ ops ↦ flush (op ∷ ops) p ]

  -- `sendSyncMode` after its write.
  unfoldable pub sync_written : Outcome (Bool × Op) → Outcome (Unit {0})
  sync_written (ok (true, op) p) = ok tt p
  sync_written (ok (false, op) p) = elim p.ex [ none ↦ thrown enforce p | some e ↦ thrown e p ]
  sync_written (thrown e p) = thrown e p
  sync_written (blocked p) = blocked p

  -- `Pair::sendSyncMode`.
  unfoldable pub send_sync_mode : Pair → Op → Outcome (Unit {0})
  unfolding write sync_written
  send_sync_mode p op = if p.sync then sync_written (write p op) else thrown enforce p

  -- `Pair::send(Op&)`, but for the size of the socket's buffer.
  unfoldable pub send : Pair → Op → Outcome (Unit {0})
  unfolding throw_if_exception verify_connected send_async_mode send_sync_mode
  send p op = throw_if_exception p (elim (verify_connected p) [
    | ok _ p' ↦ if p'.sync then send_sync_mode p' op else send_async_mode p' op
    | thrown e p' ↦ thrown e p'
    | blocked p' ↦ blocked p'
  ])
