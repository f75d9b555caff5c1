-- ===== src/Tcp/Write.antt =====
-- gloo/transport/tcp/pair.cc: `prepareWrite`, and the loop of `write` over the results of writev.
-- `preamble_bytes` is the memory of the struct, `memory` that of the buffers while they are sent.
pub mod Bytes
pub mod Loop
pub mod Completion
pub mod Tests
use gloo.Prelude.{
  ℕ, ◌+◌, ◌-◌, ◌%◌, ◌^◌, Bool, true, false, List, [], ◌∷◌, ◌++◌, Option, none, some, u64, ltb, ◌==◌,
  ◌&&◌, if◌then◌else◌, take, drop, length,
}
use gloo.Tcp.Op.{
  Op, Preamble, Opcode, send_buffer, send_unbound_buffer, notify_send_ready, notify_recv_ready,
  preamble_size,
}

-- What an iovec points into.
pub data Base : Type 0 where
  preamble : Base
  buffer : Option ℕ → Base

pub record Iovec : Type 0 where
  pub base : Base
  pub start : ℕ
  pub len : ℕ

-- size_t subtraction.
abbrev pub sub64 : ℕ → ℕ → ℕ
sub64 a b = (a + 2 ^ 64 - b) % 2 ^ 64

-- The rest of a payload of `nbytes` from `offset` on.
unfoldable pub payload_iov : Op → Option ℕ → ℕ → ℕ → Iovec
payload_iov op buf offset nbytes =
    if ltb preamble_size op.nwritten
    then record {
      base = buffer buf;
      start = u64 (offset + (op.nwritten - preamble_size));
      len = sub64 nbytes (op.nwritten - preamble_size);
    }
    else record { base = buffer buf; start = offset; len = nbytes }

unfoldable pub preamble_iov : Op → List Iovec
preamble_iov op =
    if ltb op.nwritten preamble_size
    then record { base = preamble; start = op.nwritten; len = preamble_size - op.nwritten } ∷ []
    else []

unfoldable pub body_iov : Op → Opcode → List Iovec
unfolding payload_iov
body_iov op send_buffer = payload_iov op op.buf op.preamble.offset op.preamble.length ∷ []
body_iov op send_unbound_buffer = payload_iov op op.ubuf op.offset op.nbytes ∷ []
body_iov op notify_send_ready = []
body_iov op notify_recv_ready = []

-- `Pair::prepareWrite`.
unfoldable pub prepare_write : Op → List Iovec
prepare_write op = preamble_iov op ++ body_iov op op.preamble.opcode

-- The return value of `prepareWrite`.
unfoldable pub iov_length : List Iovec → ℕ
iov_length [] = 0
iov_length (v ∷ vs) = v.len + iov_length vs

-- A result of writev: a count of bytes, or an errno.
pub data WriteResult : Type 0 where
  wrote : ℕ → WriteResult
  eagain econnreset epipe eintr other_errno : WriteResult

-- How the loop of `write` ends: the operation is complete; `false` with or without an exception;
-- a GLOO_ENFORCE fails; or the call of writev has not returned yet.
pub data Verdict : Type 0 where
  complete incomplete write_timeout write_error enforce_failed waiting : Verdict

pub record WriteRun : Type 0 where
  pub op : Op
  pub wire : List ℕ
  pub verdict : Verdict
  pub script : List WriteResult

module _ (preamble_bytes : Preamble → List ℕ) (memory : Option ℕ → List ℕ) where
  unfoldable pub base_bytes : Op → Base → List ℕ
  base_bytes op preamble = preamble_bytes op.preamble
  base_bytes op (buffer b) = memory b

  -- What an array of iovecs hands to writev.
  unfoldable pub iov_bytes : Op → List Iovec → List ℕ
  iov_bytes op [] = []
  iov_bytes op (v ∷ vs) = take v.len (drop v.start (base_bytes op v.base)) ++ iov_bytes op vs

  -- The loop of `Pair::write`; `wire` is what the socket has accepted.
  unfoldable pub write_loop : Bool → List WriteResult → Op → List ℕ → WriteRun
  write_loop sync [] op wire = record {
    op = op;
    wire = wire;
    verdict = Verdict.waiting;
    script = [];
  }
  write_loop sync (wrote n ∷ rs) op wire =
      let nbytes = iov_length (prepare_write op) in
      let wire' = wire ++ take n (iov_bytes op (prepare_write op)) in
      let op' : Op = record op { nwritten = u64 (op.nwritten + n) } in
      let again = write_loop sync rs op' wire' in
      let ended = λ (v : Verdict).
        (let r : WriteRun = record { op = op'; wire = wire'; verdict = v; script = rs } in r) in
      if ltb n nbytes
      then again
      else if (n == nbytes) && (op'.nwritten == op.preamble.nbytes)
      then ended Verdict.complete
      else ended Verdict.enforce_failed
  write_loop sync (eintr ∷ rs) op wire = write_loop sync rs op wire
  write_loop sync (eagain ∷ rs) op wire = record {
    op = op;
    wire = wire;
    verdict = if sync then Verdict.write_timeout else Verdict.incomplete;
    script = rs;
  }
  write_loop sync (econnreset ∷ rs) op wire = record {
    op = op;
    wire = wire;
    verdict = if sync then Verdict.write_error else Verdict.incomplete;
    script = rs;
  }
  write_loop sync (epipe ∷ rs) op wire = record {
    op = op;
    wire = wire;
    verdict = if sync then Verdict.write_error else Verdict.incomplete;
    script = rs;
  }
  write_loop sync (other_errno ∷ rs) op wire = record {
    op = op;
    wire = wire;
    verdict = Verdict.write_error;
    script = rs;
  }
