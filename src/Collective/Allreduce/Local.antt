-- ===== src/Collective/Allreduce/Local.antt =====
-- gloo/allreduce.cc: `genLocalReduceFunction`, `genLocalBroadcastFunction` and the calls of `reduce`
-- on a rank's own buffers. A buffer is read as the element that starts at each of its addresses.
use gloo.Prelude.{
  ℕ, zero, suc, ◌+◌, ◌-◌, ◌*◌, ◌/◌, ◌%◌, ◌&&◌, List, [], ◌∷◌, ltb, leb, ◌==◌, if◌then◌else◌,
}
use gloo.Collective.{memcpy}
use gloo.Collective.Ring.{set}
use gloo.Collective.Allreduce.{Action}

-- The options that the local functions use: `reduce`, `elementSize`, `in`, and `out.size()`.
pub record Options {ℓ} (A : Type ℓ) : Type ℓ where
  pub op : A → A → A
  pub element_size : ℕ
  pub inputs : List (ℕ → A)
  pub outputs : ℕ

-- The buffers of one rank: `out[0]`, the other outputs by their index, the temporary space, and the
-- bytes of the messages sent, by number.
pub record Buffers {ℓ} (A : Type ℓ) : Type ℓ where
  pub out : ℕ → A
  pub copies : ℕ → ℕ → A
  pub tmp : ℕ → A
  pub sent : ℕ → ℕ → A

-- `fn(target + offset, a + offset, b + from, length / elementSize)`.
unfoldable pub reduce_elements {ℓ} :
    {A : Type ℓ} → Options A → (offset from length : ℕ) → (target a b : ℕ → A) → ℕ → A
reduce_elements o offset from length target a b x =
    if (leb offset x && ltb x (offset + length / o.element_size * o.element_size))
      && ((x - offset) % o.element_size == 0)
    then o.op (a x) (b (from + (x - offset)))
    else target x

-- The loop over the inputs from the third on.
unfoldable pub reduce_rest {ℓ} :
    {A : Type ℓ} → Options A → (offset length : ℕ) → List (ℕ → A) → (ℕ → A) → ℕ → A
reduce_rest o offset length [] out = out
reduce_rest o offset length (m ∷ ms) out =
    reduce_rest o offset length ms (reduce_elements o offset offset length out out m)

-- The loop over the outputs from the second on: the first `n` of them.
unfoldable pub reduce_outputs {ℓ} :
    {A : Type ℓ} → Options A → (offset length : ℕ) → (ℕ → ℕ → A) → (n : ℕ) → (ℕ → A) → ℕ → A
reduce_outputs o offset length copies zero out = out
reduce_outputs o offset length copies (suc n) out =
    let before = reduce_outputs o offset length copies n out in
    reduce_elements o offset offset length before before (copies (suc n))

unfoldable pub local_reduce {ℓ} :
    {A : Type ℓ} → Options A → (offset length : ℕ) → List (ℕ → A) → (ℕ → ℕ → A) → (ℕ → A) → ℕ → A
local_reduce o offset length [] copies out =
    reduce_outputs o offset length copies (o.outputs - 1) out
local_reduce o offset length (m ∷ []) copies out = memcpy offset offset length m out
local_reduce o offset length (m ∷ m' ∷ ms) copies out =
    reduce_rest o offset length ms (reduce_elements o offset offset length out m m')

-- `genLocalBroadcastFunction`, for the output `i`.
unfoldable pub local_broadcast {ℓ} :
    {A : Type ℓ} → Options A → (offset length : ℕ) → (ℕ → A) → (ℕ → ℕ → A) → ℕ → ℕ → A
local_broadcast o offset length out copies i =
    if leb 1 i && ltb i o.outputs then memcpy offset offset length out (copies i) else copies i

-- What an action does to the buffers at once. A receive changes them later, when its message lands;
-- the length of a send is read then too (Run.antt).
unfoldable pub act {ℓ} : {A : Type ℓ} → Options A → Action → Buffers A → Buffers A
act o (Action.reduce_inputs offset length) b = record b {
  out = local_reduce o offset length o.inputs b.copies b.out;
}
act o (Action.recv_tmp k offset length) b = b
act o (Action.recv_out k offset length) b = b
act o (Action.send_out k offset length) b = record b {
  sent = set b.sent k (λ j. b.out (offset + j));
}
act o (Action.wait_recv k) b = b
act o (Action.wait_send k) b = b
act o (Action.reduce offset from length) b = record b {
  out = reduce_elements o offset from length b.out b.out b.tmp;
}
act o (Action.broadcast_outputs offset length) b = record b {
  copies = local_broadcast o offset length b.out b.copies;
}

unfoldable pub perform {ℓ} : {A : Type ℓ} → Options A → List Action → Buffers A → Buffers A
perform o [] b = b
perform o (x ∷ xs) b = perform o xs (act o x b)
