-- ===== src/Tcp/UnboundBuffer/Waits.antt =====
-- The waits of a buffer neither lose nor invent a completion, and return when there is one.
use gloo.Prelude.{
  ℕ, suc, ◌+◌, ◌<◌, ◌≡◌, refl, true, false, ◌||◌, List, [], ◌∷◌, Option, none, some, ltb, ◌==◌,
  arith, Bool-cases, inl, inr,
}
use gloo.Tcp.Pair.{Failure}
use gloo.Tcp.UnboundBuffer.{
  Buffer, Event, received, sent, aborts_recv, aborts_send, fails, handle, Waited, completed,
  aborted, rethrown, timed_out, finish_recv, await_recv, wait_recv, finish_send, await_send,
  wait_send,
}

-- The completions among events.
unfoldable pub receptions : List Event → ℕ
receptions [] = 0
receptions (received r ∷ es) = suc (receptions es)
receptions (_ ∷ es) = receptions es

unfoldable pub transmissions : List Event → ℕ
transmissions [] = 0
transmissions (sent r ∷ es) = suc (transmissions es)
transmissions (_ ∷ es) = transmissions es

-- Whether there are as many completions of both kinds as before, but `taken_recv` and `taken_send`.
pub record Kept (b : Buffer) (es : List Event) (b' : Buffer) (later : List Event)
    (taken_recv taken_send : ℕ) : Type 0 where
  pub recvs :
      b'.recv_completions + receptions later + taken_recv ≡ b.recv_completions + receptions es
  pub sends :
      b'.send_completions + transmissions later + taken_send ≡ b.send_completions + transmissions es

-- What becomes of the completions, however a wait for a reception ends.
unfoldable pub Receives : Buffer → List Event → Waited → Type 0
Receives b es (completed rank b' later) = Kept b es b' later 1 0
Receives b es (aborted b' later) = Kept b es b' later 0 0 × (b'.abort_recv ≡ false)
Receives b es (rethrown e b' later) = Kept b es b' later 0 0 × (b'.ex ≡ some e)
Receives b es (timed_out b') = Kept b es b' [] 0 0 × (b'.recv_completions ≡ 0)

unfoldable pub Transmits : Buffer → List Event → Waited → Type 0
Transmits b es (completed rank b' later) = Kept b es b' later 0 1
Transmits b es (aborted b' later) = Kept b es b' later 0 0 × (b'.abort_send ≡ false)
Transmits b es (rethrown e b' later) = Kept b es b' later 0 0 × (b'.ex ≡ some e)
Transmits b es (timed_out b') = Kept b es b' [] 0 0 × (b'.send_completions ≡ 0)

handle-counts :
    (b : Buffer) (e : Event) (es : List Event)
    → ((handle b e).recv_completions + receptions es ≡ b.recv_completions + receptions (e ∷ es))
      × ((handle b e).send_completions + transmissions es
          ≡ b.send_completions + transmissions (e ∷ es))
unfolding handle receptions transmissions
handle-counts b (received r) es = (omega arith, omega arith)
handle-counts b (sent r) es = (omega arith, omega arith)
handle-counts b aborts_recv es = (omega arith, omega arith)
handle-counts b aborts_send es = (omega arith, omega arith)
handle-counts b (fails e) es = (omega arith, omega arith)

earlier :
    {b : Buffer} {e : Event} {es : List Event} {b' : Buffer} {later : List Event} {tr ts : ℕ}
    → Kept (handle b e) es b' later tr ts
    → Kept b (e ∷ es) b' later tr ts
earlier {b} {e} {es} k = record {
  recvs = omega (arith, k.recvs, handle-counts b e es);
  sends = omega (arith, k.sends, handle-counts b e es);
}

Receives-earlier :
    (b : Buffer) (e : Event) (es : List Event) (w : Waited)
    → Receives (handle b e) es w
    → Receives b (e ∷ es) w
unfolding Receives
Receives-earlier b e es (completed rank b' later) k = earlier k
Receives-earlier b e es (aborted b' later) k = (earlier k.0, k.1)
Receives-earlier b e es (rethrown f b' later) k = (earlier k.0, k.1)
Receives-earlier b e es (timed_out b') k = (earlier k.0, k.1)

finish_recv-Receives :
    (b : Buffer) (es : List Event)
    → (b.abort_recv || ltb 0 b.recv_completions) ≡ true
    → Receives b es (finish_recv b es)
unfolding Receives finish_recv
finish_recv-Receives b es h = elim (Bool-cases b.abort_recv) [
  | inl held ↦ simp held (record { recvs = omega arith; sends = omega arith }, refl)
  | inr clear ↦
      let some_left : 0 < b.recv_completions = ground arith in
      simp clear (record { recvs = omega arith; sends = omega arith })
]

await_recv-Receives : (b : Buffer) (es : List Event) → Receives b es (await_recv b es)
unfolding await_recv Receives
await_recv-Receives b es = by_exception b.ex b es
  where
    by_exception :
        (x : Option Failure) (b : Buffer) (es : List Event)
        → let q : Buffer = record b { ex = x } in Receives q es (await_recv q es)
    by_exception (some f) b [] = (record { recvs = omega arith; sends = omega arith }, refl)
    by_exception (some f) b (e ∷ es) = (record { recvs = omega arith; sends = omega arith }, refl)
    by_exception none b [] = elim (Bool-cases (b.abort_recv || ltb 0 b.recv_completions)) [
      | inl held ↦ simp held (finish_recv-Receives (record b { ex = none }) [] held)
      | inr clear ↦
          let nothing : b.recv_completions ≡ 0 = ground arith in
          simp clear (record { recvs = omega arith; sends = omega arith }, nothing)
    ]
    by_exception none b (e ∷ es) = elim (Bool-cases (b.abort_recv || ltb 0 b.recv_completions)) [
      | inl held ↦ simp held (finish_recv-Receives (record b { ex = none }) (e ∷ es) held)
      | inr clear ↦
          let q : Buffer = record b { ex = none } in
          simp clear (Receives-earlier q e es _ (by_exception (handle q e).ex (handle q e) es))
    ]

-- A wait for a reception takes one completion when it returns true, and none when it is aborted,
-- throws or times out; completions are neither lost nor invented, and those of the other kind stay.
pub wait_recv-Receives : (b : Buffer) (es : List Event) → Receives b es (wait_recv b es)
unfolding wait_recv Receives
wait_recv-Receives b es = elim (Bool-cases (b.recv_completions == 0)) [
  | inl zero ↦ simp zero (await_recv-Receives b es)
  | inr some_left ↦ simp some_left (finish_recv-Receives b es (ground arith))
]

Transmits-earlier :
    (b : Buffer) (e : Event) (es : List Event) (w : Waited)
    → Transmits (handle b e) es w
    → Transmits b (e ∷ es) w
unfolding Transmits
Transmits-earlier b e es (completed rank b' later) k = earlier k
Transmits-earlier b e es (aborted b' later) k = (earlier k.0, k.1)
Transmits-earlier b e es (rethrown f b' later) k = (earlier k.0, k.1)
Transmits-earlier b e es (timed_out b') k = (earlier k.0, k.1)

finish_send-Transmits :
    (b : Buffer) (es : List Event)
    → (b.abort_send || ltb 0 b.send_completions) ≡ true
    → Transmits b es (finish_send b es)
unfolding Transmits finish_send
finish_send-Transmits b es h = elim (Bool-cases b.abort_send) [
  | inl held ↦ simp held (record { recvs = omega arith; sends = omega arith }, refl)
  | inr clear ↦
      let some_left : 0 < b.send_completions = ground arith in
      simp clear (record { recvs = omega arith; sends = omega arith })
]

await_send-Transmits : (b : Buffer) (es : List Event) → Transmits b es (await_send b es)
unfolding await_send Transmits
await_send-Transmits b es = by_exception b.ex b es
  where
    by_exception :
        (x : Option Failure) (b : Buffer) (es : List Event)
        → let q : Buffer = record b { ex = x } in Transmits q es (await_send q es)
    by_exception (some f) b [] = (record { recvs = omega arith; sends = omega arith }, refl)
    by_exception (some f) b (e ∷ es) = (record { recvs = omega arith; sends = omega arith }, refl)
    by_exception none b [] = elim (Bool-cases (b.abort_send || ltb 0 b.send_completions)) [
      | inl held ↦ simp held (finish_send-Transmits (record b { ex = none }) [] held)
      | inr clear ↦
          let nothing : b.send_completions ≡ 0 = ground arith in
          simp clear (record { recvs = omega arith; sends = omega arith }, nothing)
    ]
    by_exception none b (e ∷ es) = elim (Bool-cases (b.abort_send || ltb 0 b.send_completions)) [
      | inl held ↦ simp held (finish_send-Transmits (record b { ex = none }) (e ∷ es) held)
      | inr clear ↦
          let q : Buffer = record b { ex = none } in
          simp clear (Transmits-earlier q e es _ (by_exception (handle q e).ex (handle q e) es))
    ]

-- A wait for a transmission takes one completion when it returns true, and none when it is aborted,
-- throws or times out; completions are neither lost nor invented, and those of the other kind stay.
pub wait_send-Transmits : (b : Buffer) (es : List Event) → Transmits b es (wait_send b es)
unfolding wait_send Transmits
wait_send-Transmits b es = elim (Bool-cases (b.send_completions == 0)) [
  | inl zero ↦ simp zero (await_send-Transmits b es)
  | inr some_left ↦ simp some_left (finish_send-Transmits b es (ground arith))
]
