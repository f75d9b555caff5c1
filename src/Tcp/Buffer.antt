-- ===== src/Tcp/Buffer.antt =====
-- gloo/transport/tcp/buffer.cc: the operation that a bound buffer sends, and its completions in
-- sync mode.
pub mod Sends
mod Tests
use gloo.Prelude.{ℕ, zero, suc, ◌+◌, Bool, true, false, Option, none, some, u64, leb, if◌then◌else◌}
use gloo.Tcp.Op.{Op, preamble_size, send_buffer, new_op}

-- int.
pub data ℤ : Type 0 where
  pos negsuc : ℕ → ℤ

-- `++` and `--`.
unfoldable pub increment : ℤ → ℤ
increment (pos n) = pos (suc n)
increment (negsuc zero) = pos 0
increment (negsuc (suc n)) = negsuc n

unfoldable pub decrement : ℤ → ℤ
decrement (pos zero) = negsuc 0
decrement (pos (suc n)) = pos n
decrement (negsuc n) = negsuc (suc n)

-- `1 >= n`.
unfoldable pub at_most_one : ℤ → Bool
at_most_one (pos n) = leb n 1
at_most_one (negsuc n) = true

pub record Bound : Type 0 where
  pub name : ℕ
  pub slot : ℕ
  pub size : ℕ
  pub recv_completions : ℤ
  pub send_completions : ℤ
  pub send_pending : ℤ

-- The constructor.
abbrev pub new_bound : ℕ → ℕ → ℕ → Bound
new_bound name slot size = record {
  name = name;
  slot = slot;
  size = size;
  recv_completions = pos 0;
  send_completions = pos 0;
  send_pending = pos 0;
}

-- `Buffer::handleRecvCompletion`.
unfoldable pub handle_recv_completion : Bound → Bound
unfolding increment
handle_recv_completion b = record b { recv_completions = increment b.recv_completions }

-- `Buffer::handleSendCompletion`.
unfoldable pub handle_send_completion : Bound → Bound
unfolding increment decrement
handle_send_completion b = record b {
  send_completions = increment b.send_completions;
  send_pending = decrement b.send_pending;
}

-- `Buffer::waitSend` of a pair in sync mode; `none` is the failure of GLOO_ENFORCE_GE.
unfoldable pub wait_send_sync : Bound → Option Bound
unfolding at_most_one decrement
wait_send_sync b =
    if at_most_one b.send_completions
    then some (record b { send_completions = decrement b.send_completions })
    else none

-- The operation that `Buffer::send` fills in.
abbrev pub sent_op : Bound → ℕ → ℕ → ℕ → Op
sent_op b offset length roffset = record (new_op send_buffer b.slot 0 0) {
  preamble = record {
    nbytes = u64 (preamble_size + length);
    opcode = send_buffer;
    slot = b.slot;
    offset = offset;
    length = length;
    roffset = roffset;
  };
  buf = some b.name;
}

-- `Buffer::send` up to the pair's `send`; `none` is the failure of GLOO_ENFORCE_LE.
unfoldable pub send_op : Bound → ℕ → ℕ → ℕ → Option (Bound × Op)
unfolding increment
send_op b offset length roffset =
    if leb (u64 (offset + length)) b.size
    then some
        (record b { send_pending = increment b.send_pending }, sent_op b offset length roffset)
    else none
