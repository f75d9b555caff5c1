-- ===== src/Tcp/Pair/Transmit.antt =====
-- The transmit queue of a pair: operations go over the wire whole and in order.
use mathlib.Core.List.{append_assoc, append-nil}
use gloo.Prelude.{
  ℕ, ◌≡◌, ◌≢◌, refl, sym, ap, ◌∙◌, Bool, true, false, List, [], ◌∷◌, ◌++◌, Option, none, some, inl,
  inr, if◌then◌else◌, arith, Bool-cases, drop,
}
use gloo.Tcp.Op.{Op, Preamble}
use gloo.Tcp.Write.{
  WriteResult, Verdict, complete, incomplete, write_timeout, write_error, enforce_failed, waiting,
  write_loop,
}
use gloo.Tcp.Write.Bytes.{message, IsSendable}
use gloo.Tcp.Write.Loop.{Continues, write_loop-Continues}
use gloo.Tcp.Write.Completion.{on_the_wire}
use gloo.Tcp.Pair.{
  State, initializing, connecting, connected, closed, Failure, write_timed_out, write_failed,
  bound_ops, Pair, Outcome, ok, thrown, blocked, clean_up, change_state, signal_exception,
  throw_if_exception, finish_write, has_buffer, write, queue_rest, send_async_mode, flush_next,
  flush, handle_writable,
}

clean_up-queues :
    (s : State) (p : Pair) → ((clean_up s p).tx ≡ p.tx) × ((clean_up s p).wire ≡ p.wire)
unfolding clean_up
clean_up-queues initializing p = (refl, refl)
clean_up-queues connecting p = ground arith
clean_up-queues connected p = ground arith
clean_up-queues closed p = (refl, refl)

module _ (preamble_bytes : Preamble → List ℕ) (memory : Option ℕ → List ℕ)
    (alive : Option ℕ → Bool) where
  -- What is still to be sent of an operation, and of a queue.
  abbrev pub remaining : Op → List ℕ
  remaining op = drop op.nwritten (message preamble_bytes memory op)

  unfoldable pub backlog : List Op → List ℕ
  backlog [] = []
  backlog (op ∷ ops) = remaining op ++ backlog ops

  unfoldable pub AllSendable : List Op → Type 0
  AllSendable [] = Unit {0}
  AllSendable (op ∷ ops) = IsSendable preamble_bytes memory op × AllSendable ops

  -- When a call returns, the wire and the queue together hold `whole`, and the queue can go on.
  unfoldable pub Holds : List ℕ → Outcome (Unit {0}) → Type 0
  Holds whole (ok x q) = AllSendable q.tx × (q.wire ++ backlog q.tx ≡ whole)
  Holds whole (thrown e q) = Unit {0}
  Holds whole (blocked q) = Unit {0}

  -- What a returning `write` has done.
  unfoldable Moved : Pair → Op → Outcome (Bool × Op) → Type 0
  Moved p op (ok (true, op') q) = (q.tx ≡ p.tx) × (q.wire ≡ p.wire ++ remaining op)
  Moved p op (ok (false, op') q) =
      IsSendable preamble_bytes memory op'
      × (q.tx ≡ p.tx)
      × (q.wire ++ remaining op' ≡ p.wire ++ remaining op)
  Moved p op (thrown e q) = Unit {0}
  Moved p op (blocked q) = Unit {0}

  failed-Moved :
      (ex : Option Failure) (p : Pair) (op o : Op) (w : List ℕ) (s : List WriteResult) (e : Failure)
      → IsSendable preamble_bytes memory o
      → w ++ remaining o ≡ p.wire ++ remaining op
      → Moved
          (record p { ex = ex })
          op
          (elim (signal_exception (record p { ex = ex; wire = w; script = s }) e) [
            | ok _ q ↦ ok (false, o) q
            | thrown f q ↦ thrown f q
            | blocked q ↦ blocked q
          ])
  unfolding signal_exception Moved change_state
  failed-Moved (some x) p op o w s e v kept = tt
  failed-Moved none p op o w s e v kept =
      let q =
        clean_up-queues p.state
          (record p { ex = some e; told = p.told ++ bound_ops p.tx; wire = w; script = s }) in
      (v, q.0, ap (λ l. l ++ remaining o) q.1 ∙ kept)

  finish_write-Moved :
      (p : Pair) (op o : Op) (w : List ℕ) (s : List WriteResult) (v : Verdict)
      → (v ≢ enforce_failed
          → Continues preamble_bytes memory op p.wire
              (record { op = o; wire = w; verdict = v; script = s }))
      → Moved p op (
          finish_write preamble_bytes memory alive p
            (record { op = o; wire = w; verdict = v; script = s }))
  unfolding finish_write Moved signal_exception change_state
  finish_write-Moved p op o w s complete c =
      (refl, on_the_wire preamble_bytes memory (c (λ e. cc)) refl)
  finish_write-Moved p op o w s incomplete c = ((c (λ e. cc)).sendable, refl, (c (λ e. cc)).kept)
  finish_write-Moved p op o w s write_timeout c =
      failed-Moved p.ex p op o w s write_timed_out (c (λ e. cc)).sendable (c (λ e. cc)).kept
  finish_write-Moved p op o w s write_error c =
      failed-Moved p.ex p op o w s write_failed (c (λ e. cc)).sendable (c (λ e. cc)).kept
  finish_write-Moved p op o w s enforce_failed c = tt
  finish_write-Moved p op o w s waiting c = tt

  open_write-Moved :
      (p : Pair) (op : Op)
      → IsSendable preamble_bytes memory op
      → Moved p op (
          if has_buffer preamble_bytes memory alive op op.preamble.opcode
          then finish_write preamble_bytes memory alive p
              (write_loop preamble_bytes memory p.sync p.script op p.wire)
          else ok (false, op) p)
  unfolding Moved
  open_write-Moved p op v =
      elim (Bool-cases (has_buffer preamble_bytes memory alive op op.preamble.opcode)) [
        | inl there ↦
            let r = write_loop preamble_bytes memory p.sync p.script op p.wire in
            rw there (
              finish_write-Moved p op r.op r.wire r.script r.verdict
                (write_loop-Continues preamble_bytes memory p.sync p.script op p.wire v))
        | inr gone ↦ rw gone (v, refl, refl)
      ]

  write-Moved :
      (p : Pair) (op : Op)
      → IsSendable preamble_bytes memory op
      → Moved p op (write preamble_bytes memory alive p op)
  unfolding write Moved
  write-Moved p op v = by_state p.state p op v
    where
      by_state :
          (s : State) (p : Pair) (op : Op)
          → IsSendable preamble_bytes memory op
          → let q : Pair = record p { state = s } in
            Moved q op (write preamble_bytes memory alive q op)
      by_state initializing p op v = open_write-Moved (record p { state = initializing }) op v
      by_state connecting p op v = open_write-Moved (record p { state = connecting }) op v
      by_state connected p op v = open_write-Moved (record p { state = connected }) op v
      by_state closed p op v = (v, refl, refl)

  backlog-append :
      (ops : List Op) (op : Op) → backlog (ops ++ op ∷ []) ≡ backlog ops ++ remaining op
  unfolding backlog
  backlog-append [] op = append-nil (remaining op)
  backlog-append (o ∷ ops) op =
      rw (backlog-append ops op) (sym (append_assoc (remaining o) (backlog ops) (remaining op)))

  AllSendable-append :
      (ops : List Op) (op : Op)
      → AllSendable ops
      → IsSendable preamble_bytes memory op
      → AllSendable (ops ++ op ∷ [])
  unfolding AllSendable
  AllSendable-append [] op vs v = (v, tt)
  AllSendable-append (o ∷ ops) op (w, vs) v = (w, AllSendable-append ops op vs v)

  queue_rest-Holds :
      (p : Pair) (op : Op) (o : Outcome (Bool × Op))
      → p.tx ≡ []
      → Moved p op o
      → Holds (p.wire ++ remaining op) (queue_rest preamble_bytes memory alive o)
  unfolding Holds Moved queue_rest throw_if_exception AllSendable backlog
  queue_rest-Holds p op (ok (true, op') q) empty (same, sent) =
      rw (same, empty) (tt, append-nil q.wire ∙ sent)
  queue_rest-Holds p op (ok (false, op') q) empty (v, same, kept) = by_exception q.ex q same kept
    where
      by_exception :
          (ex : Option Failure) (q : Pair)
          → q.tx ≡ p.tx
          → q.wire ++ remaining op' ≡ p.wire ++ remaining op
          → Holds
              (p.wire ++ remaining op)
              (queue_rest preamble_bytes memory alive (ok (false, op') (record q { ex = ex })))
      by_exception (some x) q same kept = tt
      by_exception none q same kept =
          let none_left : q.tx ≡ [] = same ∙ empty in
          rw none_left ((v, tt), ap (λ l. q.wire ++ l) (append-nil (remaining op')) ∙ kept)
  queue_rest-Holds p op (thrown e q) empty h = tt
  queue_rest-Holds p op (blocked q) empty h = tt

  -- When `sendAsyncMode` returns, the bytes on the wire followed by those that are queued are what
  -- they were, with the message of the operation at the end: whatever writev did, no operation is
  -- lost, cut, repeated or overtaken.
  pub send_async_mode-Holds :
      (p : Pair) (op : Op)
      → AllSendable p.tx
      → IsSendable preamble_bytes memory op
      → Holds
          (p.wire ++ (backlog p.tx ++ remaining op))
          (send_async_mode preamble_bytes memory alive p op)
  unfolding send_async_mode Holds AllSendable backlog
  send_async_mode-Holds p op vs v = by_queue p.sync p.tx p op vs v
    where
      by_queue :
          (sync : Bool) (tx : List Op) (p : Pair) (op : Op)
          → AllSendable tx
          → IsSendable preamble_bytes memory op
          → Holds
              (p.wire ++ (backlog tx ++ remaining op))
              (send_async_mode preamble_bytes memory alive (record p { sync = sync; tx = tx }) op)
      by_queue true tx p op vs v = tt
      by_queue false [] p op vs v =
          let q : Pair = record p { sync = false; tx = [] } in
          queue_rest-Holds q op (write preamble_bytes memory alive q op) refl (write-Moved q op v)
      by_queue false (o ∷ ops) p op vs v = (
        AllSendable-append (o ∷ ops) op vs v,
        ap (λ l. p.wire ++ l) (backlog-append (o ∷ ops) op),
      )

  flush_next-Holds :
      (p : Pair) (op : Op) (ops : List Op) (o : Outcome (Bool × Op)) (whole : List ℕ)
      (again : Pair → Outcome (Unit {0}))
      → ((q : Pair) → q.wire ++ backlog ops ≡ whole → Holds whole (again q))
      → AllSendable ops
      → Moved p op o
      → p.wire ++ (remaining op ++ backlog ops) ≡ whole
      → Holds whole (flush_next preamble_bytes memory alive o ops again)
  unfolding flush_next Moved Holds AllSendable backlog
  flush_next-Holds p op ops (ok (true, op') q) whole again h vs (same, sent) e =
      h q (ap (λ l. l ++ backlog ops) sent ∙ append_assoc p.wire (remaining op) (backlog ops) ∙ e)
  flush_next-Holds p op ops (ok (false, op') q) whole again h vs (v, same, kept) e = (
    (v, vs),
    sym (append_assoc q.wire (remaining op') (backlog ops))
        ∙ ap (λ l. l ++ backlog ops) kept
        ∙ append_assoc p.wire (remaining op) (backlog ops)
        ∙ e,
  )
  flush_next-Holds p op ops (thrown f q) whole again h vs m e = tt
  flush_next-Holds p op ops (blocked q) whole again h vs m e = tt

  flush-Holds :
      (ops : List Op) (p : Pair) (whole : List ℕ)
      → AllSendable ops
      → p.wire ++ backlog ops ≡ whole
      → Holds whole (flush preamble_bytes memory alive ops p)
  unfolding flush Holds AllSendable backlog
  flush-Holds [] p whole vs e = (tt, e)
  flush-Holds (op ∷ ops) p whole vs e =
      let q : Pair = record p { tx = op ∷ ops } in
      flush_next-Holds q op ops (write preamble_bytes memory alive q op) whole
        (flush preamble_bytes memory alive ops) (λ r f. flush-Holds ops r whole vs.1 f) vs.1
        (write-Moved q op vs.0) e

  -- When the handling of a writable socket returns, the bytes on the wire followed by those that are
  -- queued are what they were, and what is queued can still be sent.
  pub handle_writable-Holds :
      (p : Pair)
      → AllSendable p.tx
      → Holds (p.wire ++ backlog p.tx) (handle_writable preamble_bytes memory alive p)
  unfolding handle_writable Holds
  handle_writable-Holds p vs = by_queue p.tx p vs
    where
      by_queue :
          (tx : List Op) (p : Pair)
          → AllSendable tx
          → Holds
              (p.wire ++ backlog tx)
              (handle_writable preamble_bytes memory alive (record p { tx = tx }))
      by_queue [] p vs = tt
      by_queue (op ∷ ops) p vs = flush-Holds (op ∷ ops) (record p { tx = op ∷ ops }) _ vs refl
