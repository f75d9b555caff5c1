-- ===== src/Collective/Allreduce/Call.antt =====
-- gloo/allreduce.cc: `allreduce`, its checks, and the checks at the start of `ring`.
use gloo.Prelude.{
  ℕ, u64, ◌≡◌, ◌∙◌, ◌*◌, ◌%◌, ◌≤◌, ◌<◌, Bool, true, false, not, ◌&&◌, Option, none, some, List, [],
  ◌∷◌, ◌==◌, ltb, leb, if◌then◌else◌, arith,
}
use gloo.Slot.{Slot, build, allreduce_slot_prefix}
use gloo.Collective.{Context}
use gloo.Collective.Allreduce.{Segments, Action, segments_of, next_rank, previous_rank}
use gloo.Collective.Allreduce.Local.{Options, Buffers, local_reduce, act, perform}
use gloo.Collective.Allreduce.Cuts.{covers}
use gloo.Collective.Allreduce.Elements.{inputs_value, local_reduce-hit, local_broadcast-hit}
use Prim.Native.Nat.{◌∣◌}
use native.Mathlib.Nat.{dvd-zero}

-- `AllreduceOptionsImpl::Algorithm`; an int of another value is `other`.
pub data Algorithm : Type 0 where
  unspecified : Algorithm
  ring : Algorithm
  bcube : Algorithm
  other : Algorithm

-- `AllreduceOptionsImpl`, the buffers by their sizes and `reduce` by whether it is set.
pub record AllreduceOptions : Type 0 where
  pub algorithm : Algorithm
  pub elements : ℕ
  pub element_size : ℕ
  pub has_reduce : Bool
  pub in_sizes : List ℕ
  pub out_sizes : List ℕ
  pub tag : ℕ
  pub max_segment_size : ℕ

-- What a call that has passed its checks goes on to: to nothing, to the calls of a single process,
-- to the loops of `ring`, or to `bcube`.
pub data Course : Type 0 where
  nothing : Course
  alone : List Action → Course
  ring_loops : Slot → Segments → Course
  bcube_steps : Slot → Course

unfoldable pub all_equal : (size : ℕ) → List ℕ → Bool
all_equal size [] = true
all_equal size (n ∷ ns) = (n == size) && all_equal size ns

unfoldable pub single : (total_bytes : ℕ) → List Action
single total_bytes =
    Action.reduce_inputs 0 total_bytes ∷ Action.broadcast_outputs 0 total_bytes ∷ []

-- `ring` up to its loops; `none` is a check that fails.
unfoldable pub ring_start : Context → AllreduceOptions → Option Course
ring_start c o =
    let s =
      segments_of c.size (u64 (o.elements * o.element_size)) o.element_size o.max_segment_size in
    if not (c.has_pair (next_rank c.size c.rank))
    then none
    else if not (c.has_pair (previous_rank c.size c.rank))
    then none
    else if not ((s.num_segments % c.size) == 0)
    then none
    else if not (leb (c.size * 2) s.num_segments)
    then none
    else some (Course.ring_loops (build allreduce_slot_prefix o.tag) s)

-- The switch on the algorithm.
unfoldable pub choose : Context → AllreduceOptions → Algorithm → Option Course
choose c o Algorithm.unspecified = ring_start c o
choose c o Algorithm.ring = ring_start c o
choose c o Algorithm.bcube = some (Course.bcube_steps (build allreduce_slot_prefix o.tag))
choose c o Algorithm.other = none

unfoldable pub is_empty_list : List ℕ → Bool
is_empty_list [] = true
is_empty_list (x ∷ xs) = false

unfoldable pub allreduce : Context → AllreduceOptions → Option Course
allreduce c o =
    let total_bytes = u64 (o.elements * o.element_size) in
    if o.elements == 0
    then some Course.nothing
    else if is_empty_list o.out_sizes
    then none
    else if not (ltb 0 o.element_size)
    then none
    else if not o.has_reduce
    then none
    else if not (all_equal total_bytes o.out_sizes)
    then none
    else if not (all_equal total_bytes o.in_sizes)
    then none
    else if c.size == 1
    then some (Course.alone (single total_bytes))
    else choose c o o.algorithm

-- With a single process, whose buffers are of whole elements, every output gets the reduction of
-- all inputs, or of all outputs when there is no input, at each element.
pub allreduce-alone {ℓ} :
    {A : Type ℓ} (o : Options A) (total a : ℕ) (b : Buffers A)
    → a < total
    → o.element_size ∣ total
    → o.element_size ∣ a
    → ((perform o (single total) b).out a ≡ inputs_value o o.inputs b.copies b.out a)
      × ((k : ℕ)
          → 1 ≤ k
          → k < o.outputs
          → (perform o (single total) b).copies k a ≡ inputs_value o o.inputs b.copies b.out a)
unfolding single perform act covers
allreduce-alone o total a b h ht ha =
    (reduced, λ k lo hi. local_broadcast-hit o 0 total a hit _ b.copies k lo hi ∙ reduced)
  where
    hit : covers 0 total a ≡ true
    hit = ground arith

    reduced :
        local_reduce o 0 total o.inputs b.copies b.out a ≡ inputs_value o o.inputs b.copies b.out a
    reduced =
        local_reduce-hit o 0 total a hit (dvd-zero o.element_size) ht ha o.inputs b.copies b.out
