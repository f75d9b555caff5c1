-- ===== src/Tcp/Write/Completion.antt =====
-- The loop of `write` ends when the socket accepts the rest of the message, in whatever pieces.
use mathlib.Core.List.{append-nil}
use gloo.Prelude.{
  ℕ, suc, ◌+◌, ◌≤◌, ◌≡◌, ◌≢◌, ◌∙◌, Bool, true, List, ◌∷◌, ◌++◌, Option, arith, drop, length, ltb,
  u64, ap, sym, drop_all,
}
use gloo.Tcp.Op.{Op, Preamble}
use gloo.Tcp.Write.{
  prepare_write, iov_length, WriteResult, wrote, eintr, complete, enforce_failed, write_loop,
  WriteRun,
}
use gloo.Tcp.Write.Bytes.{message, IsSendable, prepare_write-bytes, length-message}
use gloo.Tcp.Write.Loop.{Continues, write_loop-Continues, advance, advance-IsSendable}

-- Results of writev that accept `k` bytes in pieces, with interrupts in between.
pub data Delivers : List WriteResult → ℕ → Type 0 where
  last : (k : ℕ) (rs : List WriteResult) → Delivers (wrote k ∷ rs) k
  piece :
      (n k : ℕ) (rs : List WriteResult) → Delivers rs (suc k) → Delivers (wrote n ∷ rs) (n + suc k)
  interrupted : (k : ℕ) (rs : List WriteResult) → Delivers rs k → Delivers (eintr ∷ rs) k

module _ (preamble_bytes : Preamble → List ℕ) (memory : Option ℕ → List ℕ) where
  -- A complete operation is on the wire as a whole.
  pub on_the_wire :
      {op : Op} {wire : List ℕ} {r : WriteRun}
      → Continues preamble_bytes memory op wire r
      → r.verdict ≡ complete
      → r.wire ≡ wire ++ drop op.nwritten (message preamble_bytes memory op)
  on_the_wire {op} {wire} {r} c e =
      let size : length (message preamble_bytes memory r.op) ≤ r.op.nwritten = omega (
        arith,
        length-message preamble_bytes memory r.op c.sendable,
        c.whole e,
        ap (λ o. o.preamble.nbytes) c.same,
      ) in
      sym (append-nil r.wire)
      ∙ ap (λ rest. r.wire ++ rest)
          (sym (drop_all r.op.nwritten (message preamble_bytes memory r.op) size))
      ∙ c.kept

  finishes :
      (sync : Bool) {script : List WriteResult} {k : ℕ} (op : Op) (wire : List ℕ)
      → IsSendable preamble_bytes memory op
      → Delivers script k
      → op.nwritten + k ≡ op.preamble.nbytes
      → (write_loop preamble_bytes memory sync script op wire).verdict ≡ complete
  unfolding write_loop
  finishes sync op wire v (last k rs) e =
      let total = (prepare_write-bytes preamble_bytes memory op v).1 in
      let moved : u64 (op.nwritten + k) ≡ op.preamble.nbytes = omega (arith, v.small) in
      let size : iov_length (prepare_write op) ≡ k = omega (arith, total) in
      rw (size, moved) (ground arith)
  finishes sync op wire v (piece n k rs d) e =
      let total = (prepare_write-bytes preamble_bytes memory op v).1 in
      let less : ltb n (iov_length (prepare_write op)) ≡ true = ground (arith, total) in
      let moved : u64 (op.nwritten + n) ≡ op.nwritten + n = omega (arith, v.small) in
      rw less (
        finishes sync (advance preamble_bytes memory op n) _
          (advance-IsSendable preamble_bytes memory op n v (omega arith)) d (omega arith))
  finishes sync op wire v (interrupted k rs d) e = finishes sync op wire v d e

  -- When the socket accepts what is left of an operation, in whatever pieces and with whatever
  -- interrupts, in either mode, the loop ends, the operation is complete, and what was left of its
  -- message is on the wire.
  pub write_loop-completes :
      (sync : Bool) {script : List WriteResult} {k : ℕ} (op : Op) (wire : List ℕ)
      → IsSendable preamble_bytes memory op
      → Delivers script k
      → op.nwritten + k ≡ op.preamble.nbytes
      → let r = write_loop preamble_bytes memory sync script op wire in
        (r.verdict ≡ complete)
        × (r.wire ≡ wire ++ drop op.nwritten (message preamble_bytes memory op))
  write_loop-completes sync {script} op wire v d e =
      let done = finishes sync op wire v d e in
      let c =
        write_loop-Continues preamble_bytes memory sync script op wire v
          (λ f. ends_well (sym done ∙ f)) in
      (done, on_the_wire c done)
    where
      ends_well : complete ≢ enforce_failed
      ends_well f = cc
