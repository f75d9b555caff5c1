-- ===== src/Slot.antt =====
-- gloo/types.h and gloo/types.cc: the slot numbers of the collectives.
pub mod Unique
mod Tests
use gloo.Prelude.{ℕ, ◌+◌, ◌*◌, ◌^◌, bit_and, bit_or, Option, none, some, u64, ltb, if◌then◌else◌}

-- `base_` and `delta_`, both uint64_t.
pub record Slot : Type 0 where
  pub base : ℕ
  pub delta : ℕ

-- The constants that tell the collectives apart.
abbrev pub gather_slot_prefix : ℕ
gather_slot_prefix = 0x01

abbrev pub allgather_slot_prefix : ℕ
allgather_slot_prefix = 0x02

abbrev pub reduce_slot_prefix : ℕ
reduce_slot_prefix = 0x03

abbrev pub allreduce_slot_prefix : ℕ
allreduce_slot_prefix = 0x04

abbrev pub scatter_slot_prefix : ℕ
scatter_slot_prefix = 0x05

abbrev pub broadcast_slot_prefix : ℕ
broadcast_slot_prefix = 0x06

abbrev pub barrier_slot_prefix : ℕ
barrier_slot_prefix = 0x07

abbrev pub alltoall_slot_prefix : ℕ
alltoall_slot_prefix = 0x08

-- `Slot::build`: `prefix << 56 | (tag & 0xffffffff) << 24`.
pub build : ℕ → ℕ → Slot
build prefix tag =
    let shifted = u64 (prefix * 2 ^ 56) in
    let tagged = u64 (bit_and tag 0xffff_ffff * 2 ^ 24) in
    record { base = bit_or shifted tagged; delta = 0 }

-- `Slot::operator+`; `none` is the exception.
pub add : Slot → ℕ → Option Slot
add s i =
    let delta = u64 (s.delta + i) in
    if ltb 0xff delta then none else some (record s { delta = delta })

-- The conversion to uint64_t.
pub to_u64 : Slot → ℕ
to_u64 s = u64 (s.base + s.delta)
