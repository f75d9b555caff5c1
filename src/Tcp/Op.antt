-- ===== src/Tcp/Op.antt =====
-- gloo/transport/tcp/pair.h: `struct Op`, one operation of a pair.
use gloo.Prelude.{ℕ, ◌+◌, Option, none, some, u64}

-- `enum Opcode`. The field of the preamble is a size_t; other values are not modelled.
pub data Opcode : Type 0 where
  send_buffer send_unbound_buffer notify_send_ready notify_recv_ready : Opcode

-- The struct that goes over the wire first; its fields are size_t.
pub record Preamble : Type 0 where
  pub nbytes : ℕ
  pub opcode : Opcode
  pub slot : ℕ
  pub offset : ℕ
  pub length : ℕ
  pub roffset : ℕ

-- sizeof(op.preamble): six words.
abbrev pub preamble_size : ℕ
preamble_size = 48

-- `buf` and `ubuf` name a buffer; a null pointer is `none`.
pub record Op : Type 0 where
  pub preamble : Preamble
  pub buf : Option ℕ
  pub ubuf : Option ℕ
  pub nread : ℕ
  pub nwritten : ℕ
  pub offset : ℕ
  pub nbytes : ℕ

-- An operation with no buffer that has not been transferred yet.
abbrev pub new_op : Opcode → ℕ → ℕ → ℕ → Op
new_op opcode slot size length = record {
  preamble = record {
    nbytes = size;
    opcode = opcode;
    slot = slot;
    offset = 0;
    length = length;
    roffset = 0;
  };
  buf = none;
  ubuf = none;
  nread = 0;
  nwritten = 0;
  offset = 0;
  nbytes = 0;
}

-- The operation of `Pair::sendUnboundBuffer`.
unfoldable pub unbound_buffer_op : ℕ → ℕ → ℕ → ℕ → Op
unbound_buffer_op buf slot offset nbytes = record op {
  ubuf = some buf;
  offset = offset;
  nbytes = nbytes;
}
  where
    op : Op
    op = new_op Opcode.send_unbound_buffer slot (u64 (preamble_size + nbytes)) nbytes

-- The operation of `Pair::sendNotifyRecvReady`.
unfoldable pub recv_ready_op : ℕ → ℕ → Op
recv_ready_op slot nbytes = new_op Opcode.notify_recv_ready slot preamble_size nbytes

-- The operation of `Pair::sendNotifySendReady`.
unfoldable pub send_ready_op : ℕ → ℕ → Op
send_ready_op slot nbytes = new_op Opcode.notify_send_ready slot preamble_size nbytes
