-- ===== src/Collective/Allreduce/Waits.antt =====
-- gloo/allreduce.cc: what an iteration of `ring` has waited for, and where a message goes.
use gloo.Prelude.{
  ℕ, ◌≡◌, refl, ◌∙◌, ◌+◌, ◌-◌, ◌%◌, ◌≤◌, ◌<◌, ltb, leb, List, [], ◌∷◌, lt→ltb, le→ltb, true, arith,
}
use gloo.Collective.Allreduce.{
  Segments, Offsets, Action, rounds, loop_body, reduce_scatter_iteration, allgather_iteration,
  reduce_previous, broadcast_previous, whenever, tmp_offset, reduce_scatter_offsets,
  allgather_offsets,
}
use gloo.Collective.Allreduce.Run.{Unblocked, arrival_region}
use gloo.Collective.Allreduce.Cuts.{Divided, turn}
use gloo.Collective.Allreduce.Turns.{scatter_recv, gather_recv}
use gloo.Collective.Allreduce.Elements.{covered_iff}
use gloo.Collective.Allreduce.Performs.{Unblocked-append, Unblocked-whenever}

pub loop_body_first :
    (s : Segments) (r t : ℕ) → t < rounds s + 2 → loop_body s r t ≡ reduce_scatter_iteration s r t
unfolding loop_body
loop_body_first s r t h = rw (lt→ltb t (rounds s + 2) h) refl

pub loop_body_second :
    (s : Segments) (r t : ℕ)
    → rounds s + 2 ≤ t
    → loop_body s r t ≡ allgather_iteration s r (t - (rounds s + 2))
unfolding loop_body
loop_body_second s r t h = rw (le→ltb t (rounds s + 2) h) refl

pub arrival_early :
    (s : Segments) (r k : ℕ) → k < rounds s → arrival_region s r k ≡ reduce_scatter_offsets s r k
unfolding arrival_region
arrival_early s r k h = rw (lt→ltb k (rounds s) h) refl

pub arrival_late :
    (s : Segments) (r k : ℕ)
    → rounds s ≤ k
    → arrival_region s r k ≡ allgather_offsets s r (k - rounds s)
unfolding arrival_region
arrival_late s r k h = rw (le→ltb k (rounds s) h) refl

module _ (s : Segments) (div : Divided s) (r a : ℕ) (hr : r < s.size) (ha : a < s.total_bytes)
    (l there : ℕ) where
  pub waits_scatter :
      (t : ℕ)
      → t < rounds s + 2
      → Unblocked l there (reduce_scatter_iteration s r t)
      → 2 ≤ t
      → turn s r a ≡ t - 2 + s.per_rank
      → t - 2 < l
  unfolding reduce_scatter_iteration reduce_previous Unblocked
  waits_scatter t ht u h e =
      let first =
        Unblocked-whenever l there (leb 2 t) (reduce_previous s r t)
          (Unblocked-append l there (whenever (leb 2 t) (reduce_previous s r t)) _ u).0
          (ground arith) in
      (Unblocked-whenever l there (ltb 0 prev.recv_length) actions
        (Unblocked-append l there (whenever (ltb 0 prev.recv_length) actions) _ first).0 positive).0
    where
      prev : Offsets
      prev = reduce_scatter_offsets s r (t - 2)

      actions : List Action
      actions =
          Action.reduce_inputs prev.recv_offset prev.recv_length
          ∷ Action.wait_recv (t - 2)
          ∷ Action.reduce prev.recv_offset (tmp_offset s (t % 2)) prev.recv_length
          ∷ []

      positive : ltb 0 prev.recv_length ≡ true
      positive = ground (
        arith,
        covered_iff prev.recv_offset prev.recv_length a
            (scatter_recv s div r (t - 2) a hr (omega arith) ha ∙ ground arith),
      )

  pub waits_gather :
      (i : ℕ)
      → i < rounds s + 2
      → Unblocked l there (allgather_iteration s r i)
      → 2 ≤ i
      → turn s r a ≡ i - 2
      → rounds s + (i - 2) < l
  unfolding allgather_iteration broadcast_previous Unblocked
  waits_gather i hi u h e =
      let first =
        Unblocked-whenever l there (leb 2 i) (broadcast_previous s r i)
          (Unblocked-append l there (whenever (leb 2 i) (broadcast_previous s r i)) _ u).0
          (ground arith) in
      (Unblocked-whenever l there (ltb 0 prev.recv_length) actions
        (Unblocked-append l there (whenever (ltb 0 prev.recv_length) actions) _ first).0 positive).0
    where
      prev : Offsets
      prev = allgather_offsets s r (i - 2)

      actions : List Action
      actions =
          Action.wait_recv (rounds s + (i - 2))
          ∷ Action.broadcast_outputs prev.recv_offset prev.recv_length
          ∷ []

      positive : ltb 0 prev.recv_length ≡ true
      positive = ground (
        arith,
        covered_iff prev.recv_offset prev.recv_length a
            (gather_recv s div r (i - 2) a hr (omega arith) ha ∙ ground arith),
      )
