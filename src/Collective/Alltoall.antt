-- ===== src/Collective/Alltoall.antt =====
-- gloo/alltoall.cc and gloo/alltoallv.cc.
pub mod Delivers
pub mod Uniform
use gloo.Prelude.{
  ℕ, ◌-◌, ◌*◌, ◌/◌, ◌%◌, Bool, not, Option, none, some, List, [], ◌∷◌, ◌++◌, ltb, ◌==◌,
  if◌then◌else◌,
}
use gloo.Slot.{build, alltoall_slot_prefix}
use gloo.Collective.{Context, Command, Calls}
use gloo.Collective.Layout.{lengths, offsets, entry}
use gloo.Collective.Exchange.{Blocks, exchange, exchange_waits}

-- `AlltoallOptions`, the buffers by their sizes.
pub record AlltoallOptions : Type 0 where
  pub element_size : ℕ
  pub tag : ℕ
  pub in_size : Option ℕ
  pub out_size : Option ℕ

-- Blocks of `chunk_size` bytes.
unfoldable pub chunks : ℕ → Blocks
chunks chunk_size = record { offset = λ rank. rank * chunk_size; length = λ rank. chunk_size }

-- The local copy.
unfoldable pub own_chunk : Context → Blocks → Blocks → Command
own_chunk c ins outs = Command.copy (outs.offset c.rank) (ins.offset c.rank) (ins.length c.rank)

unfoldable pub alltoall_sized : Context → AlltoallOptions → (in_size out_size : ℕ) → Option Calls
alltoall_sized c o in_size out_size =
    let blocks = chunks (in_size / c.size) in
    if not (in_size % c.size == 0)
    then none
    else if not (in_size == out_size)
    then none
    else some (record {
      slot = build alltoall_slot_prefix o.tag;
      commands =
          own_chunk c blocks blocks
          ∷ (exchange c.size c.rank blocks blocks (c.size - 1) ++ exchange_waits (c.size - 1));
    })

-- `alltoall`; `none` is a check that fails.
unfoldable pub alltoall : Context → AlltoallOptions → Option Calls
alltoall c o = if not (ltb 0 o.element_size) then none else elim o.in_size [
  | none ↦ none
  | some in_size ↦ elim o.out_size [
    | none ↦ none
    | some out_size ↦ alltoall_sized c o in_size out_size
  ]
]

-- `AlltoallvOptions`: the elements for each rank that `setInput` and `setOutput` were given.
pub record AlltoallvOptions : Type 0 where
  pub element_size : ℕ
  pub tag : ℕ
  pub in_elements : Option (List ℕ)
  pub out_elements : Option (List ℕ)

-- `splitOffsetsAndLengths`, from offset 0.
unfoldable pub split_offsets_and_lengths : List ℕ → ℕ → Blocks
split_offsets_and_lengths elements_per_rank element_size = record {
  offset = entry (offsets 0 (lengths elements_per_rank element_size));
  length = entry (lengths elements_per_rank element_size);
}

unfoldable pub alltoallv_split : Context → AlltoallvOptions → (ins outs : Blocks) → Option Calls
alltoallv_split c o ins outs =
    if not (ins.length c.rank == outs.length c.rank)
    then none
    else some (record {
      slot = build alltoall_slot_prefix o.tag;
      commands =
          own_chunk c ins outs
          ∷ (exchange c.size c.rank ins outs (c.size - 1) ++ exchange_waits (c.size - 1));
    })

-- `alltoallv`; `none` is a check that fails.
unfoldable pub alltoallv : Context → AlltoallvOptions → Option Calls
alltoallv c o = if not (ltb 0 o.element_size) then none else elim o.in_elements [
  | none ↦ none
  | some in_elements ↦ elim o.out_elements [
    | none ↦ none
    | some out_elements ↦
        alltoallv_split c o (split_offsets_and_lengths in_elements o.element_size)
          (split_offsets_and_lengths out_elements o.element_size)
  ]
]
