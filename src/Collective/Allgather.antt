-- ===== src/Collective/Allgather.antt =====
-- gloo/allgather.cc.
pub mod Turns
pub mod Gathers
use gloo.Prelude.{
  ℕ, ◌+◌, ◌-◌, ◌*◌, ◌/◌, ◌%◌, Bool, true, false, not, ◌&&◌, ◌||◌, Option, none, some, List, [], ◌∷◌,
  ◌++◌, u64, ltb, ◌==◌, if◌then◌else◌,
}
use gloo.Slot.{build, allgather_slot_prefix}
use gloo.Collective.{Context, Command, Calls}
use gloo.Collective.Ring.{Plan, Round, recv_rank, send_rank, iterations, final_waits}

-- `AllgatherOptions`, a buffer by its size: `in_size` is absent for an operation in place.
pub record AllgatherOptions : Type 0 where
  pub element_size : ℕ
  pub tag : ℕ
  pub in_size : Option ℕ
  pub out_size : ℕ

-- `chunkSize` and `chunkOffset`: a rank's bytes in two chunks, of which `k` is the first or the
-- second.
unfoldable pub chunk_size : ℕ → ℕ → ℕ
chunk_size in_bytes k = let half = in_bytes / 2 in if k == 0 then half else in_bytes - half

unfoldable pub chunk_offset : ℕ → ℕ → ℕ
chunk_offset in_bytes k = if k == 0 then 0 else in_bytes / 2

-- The offset of a chunk of a segment; segments go round.
unfoldable pub segment_offset : (in_bytes out_bytes segment k : ℕ) → ℕ
segment_offset in_bytes out_bytes segment k =
    u64 (u64 (segment * in_bytes) + chunk_offset in_bytes k) % out_bytes

unfoldable pub allgather_round : (size out_bytes rank i : ℕ) → Round
allgather_round size out_bytes rank i =
    let in_bytes = out_bytes / size in
    let send_segment = size + rank - i / 2 in
    let recv_segment = send_segment - 1 in
    record {
      send_offset = segment_offset in_bytes out_bytes send_segment (i % 2);
      send_size = chunk_size in_bytes (i % 2);
      recv_offset = segment_offset in_bytes out_bytes recv_segment (i % 2);
      recv_size = chunk_size in_bytes (i % 2);
    }

unfoldable pub allgather_plan : (size out_bytes : ℕ) → Plan
allgather_plan size out_bytes = record {
  size = size;
  steps = (size - 1) * 2;
  depth = 2;
  round = allgather_round size out_bytes;
}

-- `GLOO_ENFORCE(peer == rank || getPair(peer))`.
unfoldable pub connected : Context → ℕ → Bool
connected c peer = (peer == c.rank) || c.has_pair peer

-- The sizes agree.
unfoldable pub sizes_fit : Context → AllgatherOptions → Bool
sizes_fit c o = elim o.in_size [
  | some in_size ↦ o.out_size == u64 (in_size * c.size)
  | none ↦ (o.out_size % c.size) == 0
]

-- The output is primed with the input, unless the operation is in place.
unfoldable pub primed : Context → AllgatherOptions → List Command
primed c o = elim o.in_size [
  | some in_size ↦ Command.copy (c.rank * in_size) 0 in_size ∷ []
  | none ↦ []
]

-- `allgather`; `none` is a check that fails.
unfoldable pub allgather : Context → AllgatherOptions → Option Calls
allgather c o =
    let slot = build allgather_slot_prefix o.tag in
    let plan = allgather_plan c.size o.out_size in
    if not (ltb 0 o.element_size)
    then none
    else if not (connected c (recv_rank c.size c.rank))
    then none
    else if not (connected c (send_rank c.size c.rank))
    then none
    else if not (sizes_fit c o)
    then none
    else if (c.size == 1) || (o.out_size == 0)
    then some (record { slot = slot; commands = primed c o })
    else some (record {
      slot = slot;
      commands = primed c o ++ (iterations plan c.rank plan.steps ++ final_waits plan.depth);
    })
