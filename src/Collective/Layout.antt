-- ===== src/Collective/Layout.antt =====
-- Buffers with a block of its own length for each rank: `splitOffsetsAndLengths` of
-- gloo/alltoallv.cc and the loops of gloo/allgatherv.cc and gloo/gatherv.cc.
pub mod Owner
use gloo.Prelude.{ℕ, zero, suc, ◌+◌, ◌-◌, ◌*◌, List, [], ◌∷◌, map, u64, ltb, if◌then◌else◌, get_or}

-- The length in bytes of each rank's block.
unfoldable pub lengths : List ℕ → ℕ → List ℕ
lengths elements_per_rank element_size =
    map (λ elements. u64 (elements * element_size)) elements_per_rank

-- The offsets, from a running offset on.
unfoldable pub offsets : ℕ → List ℕ → List ℕ
offsets offset [] = []
offsets offset (l ∷ ls) = offset ∷ offsets (u64 (offset + l)) ls

-- The running offset after the last block.
unfoldable pub end_offset : ℕ → List ℕ → ℕ
end_offset offset [] = offset
end_offset offset (l ∷ ls) = end_offset (u64 (offset + l)) ls

-- `v[i]`, where it is asked for within the vector.
abbrev pub entry : List ℕ → ℕ → ℕ
entry xs i = get_or xs i 0

-- The bytes of the blocks before the `i`th, and of all.
unfoldable pub before : List ℕ → ℕ → ℕ
before [] i = 0
before (l ∷ ls) zero = 0
before (l ∷ ls) (suc i) = l + before ls i

unfoldable pub total : List ℕ → ℕ
total [] = 0
total (l ∷ ls) = l + total ls

-- The block that an address lies in.
unfoldable pub owner : List ℕ → ℕ → ℕ
owner [] a = 0
owner (l ∷ ls) a = let rest = owner ls (a - l) in if ltb a l then 0 else suc rest
