-- ===== src/Collective/Allgatherv.antt =====
-- gloo/allgatherv.cc.
pub mod Gathers
use gloo.Prelude.{
  ℕ, ◌+◌, ◌-◌, ◌*◌, ◌%◌, Bool, true, false, not, ◌||◌, Option, none, some, List, [], ◌∷◌, ◌++◌, u64,
  ltb, ◌==◌, if◌then◌else◌,
}
use gloo.Slot.{build, allgather_slot_prefix}
use gloo.Collective.{Context, Command, Calls}
use gloo.Collective.Ring.{Plan, Round, recv_rank, send_rank, iterations, final_waits}
use gloo.Collective.Layout.{lengths, offsets, end_offset, entry}
use gloo.Collective.Allgather.{connected}

-- `AllgathervOptions`: `elements` of each rank, and the size of the input unless in place.
pub record AllgathervOptions : Type 0 where
  pub element_size : ℕ
  pub tag : ℕ
  pub in_size : Option ℕ
  pub elements : List ℕ

-- `byteCounts` is `lengths`, `byteOffsets` is `offsets 0`.
unfoldable pub allgatherv_round : (size : ℕ) → (byte_counts : List ℕ) → (rank i : ℕ) → Round
allgatherv_round size byte_counts rank i =
    let base_index = size + rank in
    let send_index = (base_index - i) % size in
    let recv_index = (base_index - i - 1) % size in
    record {
      send_offset = entry (offsets 0 byte_counts) send_index;
      send_size = entry byte_counts send_index;
      recv_offset = entry (offsets 0 byte_counts) recv_index;
      recv_size = entry byte_counts recv_index;
    }

unfoldable pub allgatherv_plan : (size : ℕ) → (byte_counts : List ℕ) → Plan
allgatherv_plan size byte_counts = record {
  size = size;
  steps = size - 1;
  depth = 1;
  round = allgatherv_round size byte_counts;
}

unfoldable pub input_fits : Context → AllgathervOptions → Bool
input_fits c o = elim o.in_size [
  | some in_size ↦ entry (lengths o.elements o.element_size) c.rank == in_size
  | none ↦ true
]

unfoldable pub primed_block : Context → AllgathervOptions → List Command
primed_block c o =
    let counts = lengths o.elements o.element_size in
    elim o.in_size [
      | some in_size ↦
          if ltb 0 (entry counts c.rank)
          then Command.copy (entry (offsets 0 counts) c.rank) 0 in_size ∷ []
          else []
      | none ↦ []
    ]

-- `allgatherv`; `none` is a check that fails.
unfoldable pub allgatherv : Context → AllgathervOptions → Option Calls
allgatherv c o =
    let slot = build allgather_slot_prefix o.tag in
    let counts = lengths o.elements o.element_size in
    let plan = allgatherv_plan c.size counts in
    if not (ltb 0 o.element_size)
    then none
    else if not (connected c (recv_rank c.size c.rank))
    then none
    else if not (connected c (send_rank c.size c.rank))
    then none
    else if not (input_fits c o)
    then none
    else if (c.size == 1) || (end_offset 0 counts == 0)
    then some (record { slot = slot; commands = primed_block c o })
    else some (record {
      slot = slot;
      commands = primed_block c o ++ (iterations plan c.rank plan.steps ++ final_waits plan.depth);
    })
