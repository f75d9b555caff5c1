-- ===== src/Collective/Allreduce.antt =====
-- gloo/allreduce.cc: `allreduce` and its ring algorithm, with `roundUp` of gloo/math.h.
pub mod Local
pub mod Run
pub mod Rounding
pub mod Sizes
pub mod Cuts
pub mod Turns
pub mod Elements
pub mod Performs
pub mod Scatters
pub mod Posts
pub mod Scattered
pub mod Gathers
pub mod Parts
pub mod Invariant
pub mod Issues
pub mod LandsTmp
pub mod LandsOut
pub mod Waits
pub mod Places
pub mod Calls
pub mod Posted
pub mod Reduces
pub mod Unblocks
pub mod Completes
pub mod Call
mod Tests
use gloo.Prelude.{
  ℕ, ◌+◌, ◌-◌, ◌*◌, ◌/◌, ◌%◌, min, Bool, List, [], ◌∷◌, ◌++◌, u64, ltb, leb, ◌==◌, if◌then◌else◌,
}

unfoldable pub round_up : (value multiple : ℕ) → ℕ
round_up value multiple =
    let remainder = value % multiple in
    if remainder == 0 then value else value + multiple - remainder

unfoldable pub larger : ℕ → ℕ → ℕ
larger a b = if ltb a b then b else a

-- What `ring` computes before its loops, from `totalBytes`. The sums and products of sizes do not
-- wrap here: they are those of buffers in memory. The loop counter, an int in the source, is a natural number.
pub record Segments : Type 0 where
  pub size : ℕ
  pub total_bytes : ℕ
  pub element_size : ℕ
  pub num_segments : ℕ
  pub per_rank : ℕ
  pub segment_bytes : ℕ

unfoldable pub max_segment_bytes : (element_size max_segment_size : ℕ) → ℕ
max_segment_bytes element_size max_segment_size =
    element_size * larger 1 (max_segment_size / element_size)

unfoldable pub num_segments : (size total_bytes max_bytes : ℕ) → ℕ
num_segments size total_bytes max_bytes =
    round_up (larger ((total_bytes + (max_bytes - 1)) / max_bytes) (size * 2)) size

abbrev pub segments_of : (size total_bytes element_size max_segment_size : ℕ) → Segments
segments_of size total element_size max_segment_size =
    let count = num_segments size total (max_segment_bytes element_size max_segment_size) in
    record {
      size = size;
      total_bytes = total;
      element_size = element_size;
      num_segments = count;
      per_rank = count / size;
      segment_bytes = round_up ((total + count - 1) / count) element_size;
    }

-- Those of a number of elements whose bytes do not wrap.
unfoldable pub segments : (size elements element_size max_segment_size : ℕ) → Segments
segments size elements element_size max_segment_size =
    segments_of size (elements * element_size) element_size max_segment_size

-- The result of `computeReduceScatterOffsets` and of `computeAllgatherOffsets`. A length that is
-- negative in the source is 0 here: the source asks only whether a length is positive.
pub record Offsets : Type 0 where
  pub send_offset : ℕ
  pub send_length : ℕ
  pub recv_offset : ℕ
  pub recv_length : ℕ

-- The offset of the `i`th segment from the first of rank `base`, round the ring.
unfoldable pub ring_offset : Segments → (base i : ℕ) → ℕ
ring_offset s base i =
    u64 ((base * s.per_rank + i) * s.segment_bytes) % u64 (s.num_segments * s.segment_bytes)

unfoldable pub length_at : Segments → (offset : ℕ) → ℕ
length_at s offset = min s.segment_bytes (s.total_bytes - offset)

unfoldable pub offsets_from : Segments → (send_base recv_base i : ℕ) → Offsets
offsets_from s send_base recv_base i = record {
  send_offset = ring_offset s send_base i;
  send_length = length_at s (ring_offset s send_base i);
  recv_offset = ring_offset s recv_base i;
  recv_length = length_at s (ring_offset s recv_base i);
}

unfoldable pub reduce_scatter_offsets : Segments → (rank i : ℕ) → Offsets
reduce_scatter_offsets s rank i = offsets_from s (rank + 1) (rank + 2) i

unfoldable pub allgather_offsets : Segments → (rank i : ℕ) → Offsets
allgather_offsets s rank i = offsets_from s rank (rank + 1) i

-- `segmentOffset`: the halves of the temporary buffer.
unfoldable pub tmp_offset : Segments → (k : ℕ) → ℕ
tmp_offset s k = if k == 0 then 0 else s.segment_bytes

-- What a rank does, in order: `reduceInputs` and `broadcastOutputs` on a region of the outputs, the
-- calls of the unbound buffers of `out[0]` and of the temporary space, and the reduction of a region
-- of `out[0]` with one of the temporary space. A send, a receive and a wait name the message by its
-- number from the start of the algorithm.
pub data Action : Type 0 where
  reduce_inputs : (offset length : ℕ) → Action
  recv_tmp : (k offset length : ℕ) → Action
  recv_out : (k offset length : ℕ) → Action
  send_out : (k offset length : ℕ) → Action
  wait_recv : (k : ℕ) → Action
  wait_send : (k : ℕ) → Action
  reduce : (offset tmp length : ℕ) → Action
  broadcast_outputs : (offset length : ℕ) → Action

-- `numSegments - numSegmentsPerRank`, the number of messages of either loop.
unfoldable pub rounds : Segments → ℕ
rounds s = s.num_segments - s.per_rank

unfoldable pub whenever : Bool → List Action → List Action
whenever b actions = if b then actions else []

-- `if (i >= 2)` of the first loop: the segment of two iterations ago.
unfoldable pub reduce_previous : Segments → (rank i : ℕ) → List Action
reduce_previous s rank i =
    let prev = reduce_scatter_offsets s rank (i - 2) in
    whenever (ltb 0 prev.recv_length) (
      Action.reduce_inputs prev.recv_offset prev.recv_length
      ∷ Action.wait_recv (i - 2)
      ∷ Action.reduce prev.recv_offset (tmp_offset s (i % 2)) prev.recv_length
      ∷ [])
    ++ whenever (ltb 0 prev.send_length) (Action.wait_send (i - 2) ∷ [])

-- The next segments of the first loop.
unfoldable pub scatter_next : Segments → (rank i : ℕ) → List Action
scatter_next s rank i =
    let cur = reduce_scatter_offsets s rank i in
    whenever (ltb 0 cur.recv_length) (Action.recv_tmp i (tmp_offset s (i % 2)) cur.recv_length ∷ [])
    ++ whenever (ltb 0 cur.send_length) (
        whenever (ltb i s.per_rank) (Action.reduce_inputs cur.send_offset cur.send_length ∷ [])
        ++ (Action.send_out i cur.send_offset cur.send_length ∷ []))

unfoldable pub reduce_scatter_iteration : Segments → (rank i : ℕ) → List Action
reduce_scatter_iteration s rank i =
    whenever (leb 2 i) (reduce_previous s rank i)
    ++ whenever (ltb i (rounds s)) (scatter_next s rank i)

unfoldable pub broadcast_previous : Segments → (rank i : ℕ) → List Action
broadcast_previous s rank i =
    let prev = allgather_offsets s rank (i - 2) in
    whenever (ltb 0 prev.recv_length) (
      Action.wait_recv (rounds s + (i - 2))
      ∷ Action.broadcast_outputs prev.recv_offset prev.recv_length
      ∷ [])
    ++ whenever (ltb 0 prev.send_length) (Action.wait_send (rounds s + (i - 2)) ∷ [])

unfoldable pub gather_next : Segments → (rank i : ℕ) → List Action
gather_next s rank i =
    let cur = allgather_offsets s rank i in
    whenever (ltb 0 cur.recv_length)
      (Action.recv_out (rounds s + i) cur.recv_offset cur.recv_length ∷ [])
    ++ whenever (ltb 0 cur.send_length) (
        Action.send_out (rounds s + i) cur.send_offset cur.send_length
        ∷ whenever (ltb i s.per_rank)
            (Action.broadcast_outputs cur.send_offset cur.send_length ∷ []))

unfoldable pub allgather_iteration : Segments → (rank i : ℕ) → List Action
allgather_iteration s rank i =
    whenever (leb 2 i) (broadcast_previous s rank i)
    ++ whenever (ltb i (rounds s)) (gather_next s rank i)

-- The iterations of the two loops, one after the other; each loop has two more than it has messages.
unfoldable pub loop_body : Segments → (rank t : ℕ) → List Action
loop_body s rank t =
    if ltb t (rounds s + 2)
    then reduce_scatter_iteration s rank t
    else allgather_iteration s rank (t - (rounds s + 2))

-- `recvRank` and `sendRank` of the ring.
unfoldable pub next_rank : (size rank : ℕ) → ℕ
next_rank size rank = (size + rank + 1) % size

unfoldable pub previous_rank : (size rank : ℕ) → ℕ
previous_rank size rank = (size + rank - 1) % size
