-- ===== src/Tcp/Pair/Writes.antt =====
-- A pair stays consistent while it writes, and its state moves forward.
use gloo.Prelude.{
  ℕ, ◌≡◌, refl, sym, Bool, true, false, List, [], ◌∷◌, ◌++◌, Option, none, some, ◌⊎◌, inl, inr,
  if◌then◌else◌, arith, Bool-cases, Option-cases,
}
use gloo.Tcp.Op.{Op, Preamble}
use gloo.Tcp.Write.{
  WriteResult, Verdict, complete, incomplete, write_timeout, write_error, enforce_failed, waiting,
  write_loop,
}
use gloo.Tcp.Pair.{
  State, initializing, connecting, connected, closed, Failure, enforce, socket_closed, Pair,
  Outcome, ok, thrown, blocked, change_state, bound_ops, signal_exception, signal_and_throw,
  throw_if_exception, verify_connected, finish_write, has_buffer, write, queue_rest, flush_next,
  send_async_mode, flush, handle_writable, send, send_sync_mode, sync_written,
}
use gloo.Tcp.Pair.States.{
  is_none, shape, IsConsistent, Advances, closes, below_closed, clean_up-ex, facts,
}

-- What `write` does to the pair itself.
pub data Written (p : Pair) : Outcome (Bool × Op) → Type 0 where
  kept :
      (x : Bool × Op) (w : List ℕ) (s : List WriteResult)
      → Written p (ok x (record p { wire = w; script = s }))
  failed :
      (op : Op) (e : Failure) (told : List Op) (w : List ℕ) (s : List WriteResult)
      → Written p (
          ok
            (false, op)
            (change_state (record p { ex = some e; told = told; wire = w; script = s }) closed))
  threw :
      {q : Pair} (e : Failure) (w : List ℕ) (s : List WriteResult)
      → q ≡ record p { wire = w; script = s }
      → Written p (thrown e q)
  waits :
      (w : List ℕ) (s : List WriteResult) → Written p (blocked (record p { wire = w; script = s }))

state_cases : (s : State) → (s ≡ initializing) ⊎ (s ≡ connecting) ⊎ (s ≡ connected) ⊎ (s ≡ closed)
state_cases initializing = inl refl
state_cases connecting = inr (inl refl)
state_cases connected = inr (inr (inl refl))
state_cases closed = inr (inr (inr refl))

module _ (preamble_bytes : Preamble → List ℕ) (memory : Option ℕ → List ℕ)
    (alive : Option ℕ → Bool) where
  finish_write-failed :
      (p : Pair) (op : Op) (e : Failure) (w : List ℕ) (s : List WriteResult)
      → Written p (elim (signal_exception (record p { wire = w; script = s }) e) [
        | ok _ q ↦ ok (false, op) q
        | thrown f q ↦ thrown f q
        | blocked q ↦ blocked q
      ])
  unfolding signal_exception
  finish_write-failed p op e w s = elim (Option-cases p.ex) [
    | inl missing ↦ rw missing (failed op e _ w s)
    | inr (x, kept_one) ↦
        simp kept_one
          (threw enforce w s (λ i. record p { ex = sym kept_one i; wire = w; script = s }))
  ]

  finish_write-Written :
      (p : Pair) (op : Op) (w : List ℕ) (s : List WriteResult) (v : Verdict)
      → Written p (
          finish_write preamble_bytes memory alive p
            (record { op = op; wire = w; verdict = v; script = s }))
  unfolding finish_write
  finish_write-Written p op w s complete = kept _ w s
  finish_write-Written p op w s incomplete = kept _ w s
  finish_write-Written p op w s write_timeout = finish_write-failed p op _ w s
  finish_write-Written p op w s write_error = finish_write-failed p op _ w s
  finish_write-Written p op w s enforce_failed = threw _ w s refl
  finish_write-Written p op w s waiting = waits w s

  open_write :
      (p : Pair) (op : Op)
      → Written p (
          if has_buffer preamble_bytes memory alive op op.preamble.opcode
          then finish_write preamble_bytes memory alive p
              (write_loop preamble_bytes memory p.sync p.script op p.wire)
          else ok (false, op) p)
  open_write p op =
      elim (Bool-cases (has_buffer preamble_bytes memory alive op op.preamble.opcode)) [
        | inl there ↦ rw there (finish_write-Written p _ _ _ _)
        | inr gone ↦ rw gone (kept (false, op) p.wire p.script)
      ]

  write-Written : (p : Pair) (op : Op) → Written p (write preamble_bytes memory alive p op)
  unfolding write
  write-Written p op = elim (state_cases p.state) [
    | inl e ↦ rw e (open_write (record p { state = initializing }) op)
    | inr (inl e) ↦ rw e (open_write (record p { state = connecting }) op)
    | inr (inr (inl e)) ↦ rw e (open_write (record p { state = connected }) op)
    | inr (inr (inr e)) ↦ rw e (kept (false, op) p.wire p.script)
  ]

  -- Waiting for the socket.
  waits-IsConsistent :
      (p : Pair) (tx : List Op) (w : List ℕ) (s : List WriteResult) (more : Bool)
      → IsConsistent p
      → p.state ≡ connected
      → p.sync ≡ false
      → IsConsistent (record p { wire = w; script = s; tx = tx; reads = true; writes = more })
  unfolding shape is_none
  waits-IsConsistent p tx w s more c there async =
      rw (there, async, (facts p c there).0, (facts p c there).1) refl

  queue_rest-Advances :
      {o : Outcome (Bool × Op)} (p : Pair)
      → IsConsistent p
      → p.state ≡ connected
      → p.sync ≡ false
      → Written p o
      → Advances p.state (queue_rest preamble_bytes memory alive o)
  unfolding queue_rest throw_if_exception Advances shape change_state
  queue_rest-Advances p c there async (kept (true, op) w s) = (c, omega arith)
  queue_rest-Advances p c there async (kept (false, op) w s) =
      rw (facts p c there).1
        (waits-IsConsistent p (p.tx ++ op ∷ []) w s true c there async, omega arith)
  queue_rest-Advances p c there async (failed op e told w s) =
      rw (clean_up-ex p.state (record p { ex = some e; told = told; wire = w; script = s }))
        (closes p (some e) told w s c, below_closed p.state)
  queue_rest-Advances p c there async (threw e w s same) = rw same (c, omega arith)
  queue_rest-Advances p c there async (waits w s) = (c, omega arith)

  flush_next-Advances :
      {o : Outcome (Bool × Op)} (ops : List Op) (p : Pair) (again : Pair → Outcome (Unit {0}))
      → IsConsistent p
      → p.state ≡ connected
      → ((w : List ℕ) (s : List WriteResult)
          → Advances p.state (again (record p { wire = w; script = s })))
      → Written p o
      → Advances p.state (flush_next preamble_bytes memory alive o ops again)
  unfolding flush_next Advances change_state
  flush_next-Advances ops p again c there h (kept (true, op) w s) = h w s
  flush_next-Advances ops p again c there h (kept (false, op) w s) = (c, omega arith)
  flush_next-Advances ops p again c there h (failed op e told w s) =
      (closes p (some e) told w s c, below_closed p.state)
  flush_next-Advances ops p again c there h (threw e w s same) = rw same (c, omega arith)
  flush_next-Advances ops p again c there h (waits w s) = (c, omega arith)

  flush-Advances :
      (ops : List Op) (p : Pair)
      → IsConsistent p
      → p.state ≡ connected
      → p.sync ≡ false
      → Advances p.state (flush preamble_bytes memory alive ops p)
  unfolding flush Advances
  flush-Advances [] p c there async =
      (waits-IsConsistent p [] p.wire p.script false c there async, omega arith)
  flush-Advances (op ∷ ops) p c there async =
      flush_next-Advances ops (record p { tx = op ∷ ops }) (flush preamble_bytes memory alive ops) c
        there
        (λ w s. flush-Advances ops (record p { tx = op ∷ ops; wire = w; script = s }) c there async)
        (write-Written (record p { tx = op ∷ ops }) op)

  -- Whatever the socket does, the handling of a writable socket leaves a consistent pair and never
  -- moves its state back; the device calls it on a connected pair in async mode.
  pub handle_writable-Advances :
      (p : Pair)
      → IsConsistent p
      → p.state ≡ connected
      → p.sync ≡ false
      → Advances p.state (handle_writable preamble_bytes memory alive p)
  unfolding handle_writable Advances
  handle_writable-Advances p c there async = by_queue p.tx p c there async
    where
      by_queue :
          (tx : List Op) (p : Pair)
          → IsConsistent p
          → p.state ≡ connected
          → p.sync ≡ false
          → Advances p.state (handle_writable preamble_bytes memory alive (record p { tx = tx }))
      by_queue [] p c there async = (c, omega arith)
      by_queue (op ∷ ops) p c there async =
          flush-Advances (op ∷ ops) (record p { tx = op ∷ ops }) c there async

  async-Advances :
      (sync : Bool) (tx : List Op) (p : Pair) (op : Op)
      → let q : Pair = record p { sync = sync; tx = tx } in
        IsConsistent q
        → p.state ≡ connected
        → Advances p.state (send_async_mode preamble_bytes memory alive q op)
  unfolding send_async_mode Advances
  async-Advances true tx p op c there = (c, omega arith)
  async-Advances false (_ ∷ _) p op c there = (c, omega arith)
  async-Advances false [] p op c there =
      let q : Pair = record p { sync = false; tx = [] } in
      queue_rest-Advances q c there refl (write-Written q op)

  sync_written-Advances :
      {o : Outcome (Bool × Op)} (p : Pair)
      → IsConsistent p
      → p.state ≡ connected
      → Written p o
      → Advances p.state (sync_written preamble_bytes memory alive o)
  unfolding sync_written Advances change_state shape
  sync_written-Advances p c there (kept (true, op) w s) = (c, omega arith)
  sync_written-Advances p c there (kept (false, op) w s) = rw (facts p c there).1 (c, omega arith)
  sync_written-Advances p c there (failed op e told w s) =
      rw (clean_up-ex p.state (record p { ex = some e; told = told; wire = w; script = s }))
        (closes p (some e) told w s c, below_closed p.state)
  sync_written-Advances p c there (threw e w s same) = rw same (c, omega arith)
  sync_written-Advances p c there (waits w s) = (c, omega arith)

  either-Advances :
      (sync : Bool) (p : Pair) (op : Op)
      → let q : Pair = record p { sync = sync } in
        IsConsistent q
        → p.state ≡ connected
        → Advances p.state (
            if sync
            then send_sync_mode preamble_bytes memory alive q op
            else send_async_mode preamble_bytes memory alive q op)
  unfolding send_sync_mode
  either-Advances true p op c there =
      let q : Pair = record p { sync = true } in
      sync_written-Advances q c there (write-Written q op)
  either-Advances false p op c there = async-Advances false p.tx p op c there

  -- Whatever the socket does, and in whatever state the pair is, `send` leaves a consistent pair and
  -- never moves its state back.
  pub send-Advances :
      (p : Pair) (op : Op)
      → IsConsistent p
      → Advances p.state (send preamble_bytes memory alive p op)
  unfolding send throw_if_exception verify_connected signal_and_throw signal_exception Advances
      change_state
  send-Advances p op c = by_state p.state p.ex p op c
    where
      by_state :
          (s : State) (ex : Option Failure) (p : Pair) (op : Op)
          → let q : Pair = record p { state = s; ex = ex } in
            IsConsistent q → Advances s (send preamble_bytes memory alive q op)
      by_state s (some e) p op c = (c, omega arith)
      by_state initializing none p op c = (c, omega arith)
      by_state connecting none p op c = (c, omega arith)
      by_state connected none p op c =
          either-Advances p.sync (record p { state = connected; ex = none }) op c refl
      by_state closed none p op c = (
        closes (record p { state = closed; ex = none }) (some socket_closed)
            (p.told ++ bound_ops p.tx) p.wire p.script c,
        omega arith,
      )
