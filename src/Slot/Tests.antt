-- ===== src/Slot/Tests.antt =====
-- Slots of an allreduce with tag 7, and of an operation that runs out of indices.
use gloo.Prelude.{ℕ, ◌≡◌, refl, arith}
use gloo.Slot.{Slot, build, add, allreduce_slot_prefix}
use gloo.Slot.Unique.{slot_unique}

slot_unique_example :
    (allreduce_slot_prefix ≡ allreduce_slot_prefix) × ◌≡◌ {A = ℕ} 7 7 × ◌≡◌ {A = ℕ} 1 1
unfolding add build
slot_unique_example =
    slot_unique allreduce_slot_prefix allreduce_slot_prefix 7 7 1 1 (omega arith) (omega arith)
      (omega arith) (omega arith) (omega arith) (omega arith) refl refl refl

abbrev nearly_full : Slot
nearly_full = record { base = 0; delta = 200 }
