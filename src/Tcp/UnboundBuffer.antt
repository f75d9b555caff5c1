-- ===== src/Tcp/UnboundBuffer.antt =====
-- gloo/transport/tcp/unbound_buffer.cc: the completions of a buffer and the threads that wait for
-- them. A wait runs over the list of what happens to the buffer until the timeout.
pub mod Waits
mod Tests
use gloo.Prelude.{
  ℕ, suc, ◌+◌, ◌-◌, ◌^◌, Bool, true, false, ◌||◌, List, [], ◌∷◌, Option, none, some, ltb, leb, ◌==◌,
  if◌then◌else◌,
}
use gloo.Tcp.Pair.{Failure}

-- A rank of -1 is `none`.
pub record Buffer : Type 0 where
  pub size : ℕ
  pub recv_completions : ℕ
  pub recv_rank : Option ℕ
  pub send_completions : ℕ
  pub send_rank : Option ℕ
  pub abort_recv : Bool
  pub abort_send : Bool
  pub ex : Option Failure

-- The constructor.
abbrev pub new_buffer : ℕ → Buffer
new_buffer size = record {
  size = size;
  recv_completions = 0;
  recv_rank = none;
  send_completions = 0;
  send_rank = none;
  abort_recv = false;
  abort_send = false;
  ex = none;
}

-- What other threads do to the buffer: `handleRecvCompletion`, `handleSendCompletion`,
-- `abortWaitRecv`, `abortWaitSend` and `signalException`.
pub data Event : Type 0 where
  received sent : ℕ → Event
  aborts_recv aborts_send : Event
  fails : Failure → Event

unfoldable pub handle : Buffer → Event → Buffer
handle b (received rank) = record b {
  recv_completions = suc b.recv_completions;
  recv_rank = some rank;
}
handle b (sent rank) = record b { send_completions = suc b.send_completions; send_rank = some rank }
handle b aborts_recv = record b { abort_recv = true }
handle b aborts_send = record b { abort_send = true }
handle b (fails e) = record b { ex = some e }

-- How a wait ends, and what has not happened yet: it returns true with a rank, or false; it
-- rethrows an exception; or it times out.
pub data Waited : Type 0 where
  completed : Option ℕ → Buffer → List Event → Waited
  aborted : Buffer → List Event → Waited
  rethrown : Failure → Buffer → List Event → Waited
  timed_out : Buffer → Waited

-- `waitRecv` past its wait.
unfoldable pub finish_recv : Buffer → List Event → Waited
finish_recv b later =
    if b.abort_recv
    then aborted (record b { abort_recv = false }) later
    else completed b.recv_rank (record b { recv_completions = b.recv_completions - 1 }) later

-- The wait: the predicate is tested first and after every event.
unfoldable pub await_recv : Buffer → List Event → Waited
unfolding finish_recv handle
await_recv b [] = elim b.ex [
  | some e ↦ rethrown e b []
  | none ↦ if b.abort_recv || ltb 0 b.recv_completions then finish_recv b [] else timed_out b
]
await_recv b (e ∷ later) =
    let again = await_recv (handle b e) later in
    elim b.ex [
      | some f ↦ rethrown f b (e ∷ later)
      | none ↦ if b.abort_recv || ltb 0 b.recv_completions then finish_recv b (e ∷ later) else again
    ]

-- `UnboundBuffer::waitRecv`.
unfoldable pub wait_recv : Buffer → List Event → Waited
unfolding await_recv
wait_recv b later = if b.recv_completions == 0 then await_recv b later else finish_recv b later

-- `waitSend` past its wait.
unfoldable pub finish_send : Buffer → List Event → Waited
finish_send b later =
    if b.abort_send
    then aborted (record b { abort_send = false }) later
    else completed b.send_rank (record b { send_completions = b.send_completions - 1 }) later

unfoldable pub await_send : Buffer → List Event → Waited
unfolding finish_send handle
await_send b [] = elim b.ex [
  | some e ↦ rethrown e b []
  | none ↦ if b.abort_send || ltb 0 b.send_completions then finish_send b [] else timed_out b
]
await_send b (e ∷ later) =
    let again = await_send (handle b e) later in
    elim b.ex [
      | some f ↦ rethrown f b (e ∷ later)
      | none ↦ if b.abort_send || ltb 0 b.send_completions then finish_send b (e ∷ later) else again
    ]

-- `UnboundBuffer::waitSend`.
unfoldable pub wait_send : Buffer → List Event → Waited
unfolding await_send
wait_send b later = if b.send_completions == 0 then await_send b later else finish_send b later

-- `kUnspecifiedByteCount`.
abbrev pub unspecified : ℕ
unspecified = 2 ^ 64 - 1

-- The byte count of `send` and `recv`; `none` is the failure of GLOO_ENFORCE_LE.
unfoldable pub byte_count : Buffer → ℕ → ℕ → Option ℕ
byte_count b offset nbytes =
    if nbytes == unspecified
    then if leb offset b.size then some (b.size - offset) else none
    else some nbytes

-- The byte count of the `recv` from any of some ranks, with GLOO_ENFORCE_LT.
unfoldable pub byte_count_any : Buffer → ℕ → ℕ → Option ℕ
byte_count_any b offset nbytes =
    if nbytes == unspecified
    then if ltb offset b.size then some (b.size - offset) else none
    else some nbytes
