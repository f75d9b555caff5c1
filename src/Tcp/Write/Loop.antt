-- ===== src/Tcp/Write/Loop.antt =====
-- The loop of `write` neither loses, repeats nor reorders bytes, however writev splits them.
use mathlib.Core.List.{append_assoc}
use gloo.Prelude.{
  ℕ, ◌+◌, ◌≤◌, ◌≡◌, ◌≢◌, refl, ◌∙◌, Bool, List, [], ◌∷◌, ◌++◌, Option, arith, take, drop, ltb, ◌==◌,
  ◌&&◌, Bool-cases, inl, inr, u64, drop-drop, take-append-drop,
}
use gloo.Tcp.Op.{Op, Preamble}
use gloo.Tcp.Write.{
  prepare_write, iov_length, iov_bytes, WriteResult, wrote, eagain, econnreset, epipe, eintr,
  other_errno, Verdict, complete, enforce_failed, WriteRun, write_loop,
}
use gloo.Tcp.Write.Bytes.{message, IsSendable, prepare_write-bytes}

module _ (preamble_bytes : Preamble → List ℕ) (memory : Option ℕ → List ℕ) where
  -- What is on the wire followed by what is still to be sent of an operation.
  abbrev pub stream : List ℕ → Op → List ℕ
  stream wire op = wire ++ drop op.nwritten (message preamble_bytes memory op)

  abbrev pub advance : Op → ℕ → Op
  advance op n = record op { nwritten = u64 (op.nwritten + n) }

  pub advance-IsSendable :
      (op : Op) (n : ℕ)
      → IsSendable preamble_bytes memory op
      → op.nwritten + n ≤ op.preamble.nbytes
      → IsSendable preamble_bytes memory (advance op n)
  advance-IsSendable op n v h = record {
    struct = v.struct;
    target = v.target;
    small = v.small;
    addressable = v.addressable;
    written = omega (arith, v.small);
  }

  -- A write of `n` bytes moves them from the operation to the wire.
  stream-advance :
      (op : Op) (wire : List ℕ) (n : ℕ)
      → IsSendable preamble_bytes memory op
      → op.nwritten + n ≤ op.preamble.nbytes
      → stream
          (wire ++ take n (iov_bytes preamble_bytes memory op (prepare_write op)))
          (advance op n)
        ≡ stream wire op
  stream-advance op wire n v h =
      let rest = drop op.nwritten (message preamble_bytes memory op) in
      let moved : u64 (op.nwritten + n) ≡ op.nwritten + n = omega (arith, v.small) in
      rw
        (
          (prepare_write-bytes preamble_bytes memory op v).0,
          moved,
          ← drop-drop op.nwritten n (message preamble_bytes memory op),
          append_assoc wire (take n rest) (drop n rest),
          take-append-drop n rest,
        )
        refl

  -- What the loop leaves behind: an operation that can go on where it stopped.
  pub record Continues (op : Op) (wire : List ℕ) (r : WriteRun) : Type 0 where
    pub same : r.op ≡ record op { nwritten = r.op.nwritten }
    pub sendable : IsSendable preamble_bytes memory r.op
    pub kept : stream r.wire r.op ≡ stream wire op
    pub whole : r.verdict ≡ complete → r.op.nwritten ≡ op.preamble.nbytes

  unmoved :
      (op : Op) (wire : List ℕ) (verdict : Verdict) (script : List WriteResult)
      → verdict ≢ complete
      → IsSendable preamble_bytes memory op
      → Continues op wire (record { op = op; wire = wire; verdict = verdict; script = script })
  unmoved op wire verdict script h v = record {
    same = refl;
    sendable = v;
    kept = refl;
    whole = λ e. absurd (h e);
  }

  resume :
      (op : Op) (wire : List ℕ) (n : ℕ) (r : WriteRun)
      → IsSendable preamble_bytes memory op
      → op.nwritten + n ≤ op.preamble.nbytes
      → Continues
          (advance op n)
          (wire ++ take n (iov_bytes preamble_bytes memory op (prepare_write op)))
          r
      → Continues op wire r
  resume op wire n r v h c = record {
    same = c.same;
    sendable = c.sendable;
    kept = c.kept ∙ stream-advance op wire n v h;
    whole = c.whole;
  }

  -- However the kernel splits, interrupts or stops a write, the bytes on the wire followed by those
  -- that are still to be sent stay the same, and a complete operation has been sent whole. (A count
  -- beyond the bytes handed to writev fails a check.)
  pub write_loop-Continues :
      (sync : Bool) (script : List WriteResult) (op : Op) (wire : List ℕ)
      → IsSendable preamble_bytes memory op
      → (write_loop preamble_bytes memory sync script op wire).verdict ≢ enforce_failed
      → Continues op wire (write_loop preamble_bytes memory sync script op wire)
  unfolding write_loop
  write_loop-Continues sync [] op wire v h = unmoved op wire _ _ (λ e. cc) v
  write_loop-Continues sync (wrote n ∷ rs) op wire v h =
      let (same_bytes, total) = prepare_write-bytes preamble_bytes memory op v in
      let nbytes = iov_length (prepare_write op) in
      let wire' = wire ++ take n (iov_bytes preamble_bytes memory op (prepare_write op)) in
      elim (Bool-cases (ltb n nbytes)) [
        | inl less ↦
            let within : op.nwritten + n ≤ op.preamble.nbytes = ground (arith, total) in
            rw less (
              resume op wire n _ v within (
                write_loop-Continues sync rs (advance op n) wire' (advance-IsSendable op n v within)
                  (rw less at h)))
        | inr enough ↦
            elim (Bool-cases ((n == nbytes) && (u64 (op.nwritten + n) == op.preamble.nbytes))) [
              | inl all_of_it ↦
                  let within : op.nwritten + n ≤ op.preamble.nbytes = ground (arith, total) in
                  rw (enough, all_of_it)
                    (record {
                      same = refl;
                      sendable = advance-IsSendable op n v within;
                      kept = stream-advance op wire n v within;
                      whole = λ e. ground arith;
                    })
              | inr mismatch ↦ absurd ((rw (enough, mismatch) at h) refl)
            ]
      ]
  write_loop-Continues sync (eintr ∷ rs) op wire v h = write_loop-Continues sync rs op wire v h
  write_loop-Continues sync (eagain ∷ rs) op wire v h = unmoved op wire _ _ (λ e. ground arith) v
  write_loop-Continues sync (econnreset ∷ rs) op wire v h =
      unmoved op wire _ _ (λ e. ground arith) v
  write_loop-Continues sync (epipe ∷ rs) op wire v h = unmoved op wire _ _ (λ e. ground arith) v
  write_loop-Continues sync (other_errno ∷ rs) op wire v h = unmoved op wire _ _ (λ e. cc) v
