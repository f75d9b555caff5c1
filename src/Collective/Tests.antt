-- ===== src/Collective/Tests.antt =====
-- The collectives on small groups.
use gloo.Prelude.{
  ℕ, zero, suc, ◌≡◌, refl, sym, ap, ◌+◌, ◌*◌, ◌≤◌, ◌<◌, true, false, some, List, [], ◌∷◌, arith,
}
use mathlib.Core.List.{Memᴰ}
use gloo.Collective.{Context, Calls, copied}
use gloo.Collective.Ring.{World, Reach, Done, begin, set}
use gloo.Collective.Layout.{lengths, entry, total, owner, before}
use gloo.Collective.Allgather.{AllgatherOptions, allgather_plan, primed}
use gloo.Collective.Allgather.Gathers.{allgather-gathers, allgather-completes}
use gloo.Collective.Allgatherv.{AllgathervOptions, allgatherv_plan, primed_block}
use gloo.Collective.Allgatherv.Gathers.{allgatherv-gathers, allgatherv-completes}
use gloo.Collective.Exchange.{Blocks, land_all, AllLanded, Posted, from_rank}
use gloo.Collective.Alltoall.{own_chunk, split_offsets_and_lengths, alltoall, alltoallv}
use gloo.Collective.Alltoall.Uniform.{alltoall-alltoallv}
use gloo.Collective.Alltoall.Delivers.{alltoallv-delivers}
use gloo.Collective.Barrier.{barrier, Hall, enter, pass, wait_for}
use gloo.Collective.Barrier as Barrier
use gloo.Collective.Barrier.Waits.{barrier-waits, barrier-returns}

-- Two ranks, with a pair for each other.
abbrev two : ℕ → Context
two r = record { rank = r; size = 2; has_pair = λ k. true }

-- The byte `x` of rank `r` is 10 * r + x.
abbrev bytes : ℕ → ℕ → ℕ
bytes r x = 10 * r + x

abbrev zeros : ℕ → ℕ → ℕ
zeros r x = 0

abbrev options : AllgatherOptions
options = record { element_size = 1; tag = 0; in_size = some 2; out_size = 4 }

gathered :
    (v : World ℕ) × (Reach
        (allgather_plan 2 4)
        (begin (λ r. copied (primed (two r) options) (bytes r) (zeros r)))
        v
      × Done (allgather_plan 2 4) v)
gathered =
    allgather-completes 2 2 (omega arith) (omega arith) (omega arith) two options bytes zeros
      Reach.starts

allgather-completes_example :
    (v : World ℕ) × (Reach
        (allgather_plan 2 4)
        (begin (λ r. copied (primed (two r) options) (bytes r) (zeros r)))
        v
      × Done (allgather_plan 2 4) v)
allgather-completes_example =
    allgather-completes 2 2 (omega arith) (omega arith) (omega arith) two options bytes zeros
      Reach.starts

allgather-gathers_example : gathered.0.memory 0 3 ≡ 11
allgather-gathers_example =
    allgather-gathers 2 2 (omega arith) (omega arith) (omega arith) two options bytes zeros
      (λ r h. refl) refl gathered.1.0 gathered.1.1 0 3 (omega arith) (omega arith)

-- One byte of rank 0 and two of rank 1.
abbrev counts : List ℕ
counts = 1 ∷ 2 ∷ []

abbrev options_of : ℕ → AllgathervOptions
options_of r = record {
  element_size = 1;
  tag = 0;
  in_size = some (entry counts r);
  elements = counts;
}

abbrev started : ℕ → ℕ → ℕ
started r = copied (primed_block (two r) (options_of r)) (bytes r) (zeros r)

gathered_blocks :
    (v : World ℕ) × (Reach (allgatherv_plan 2 counts) (begin started) v
      × Done (allgatherv_plan 2 counts) v)
unfolding total
gathered_blocks = allgatherv-completes counts (omega arith) (omega arith) started Reach.starts

allgatherv-gathers_example : gathered_blocks.0.memory 0 2 ≡ 11
unfolding total owner before lengths
allgatherv-gathers_example =
    allgatherv-gathers counts (omega arith) (omega arith) two options_of bytes zeros (λ r h. refl)
      (λ r h. refl) (λ r h. refl) gathered_blocks.1.0 gathered_blocks.1.1 0 2 (omega arith)
      (omega arith)

-- Rank 0 receives from rank 1.
from_one : AllLanded 2 0 (1 ∷ [])
unfolding AllLanded from_rank
from_one = (only, all)
  where
    only : (s : ℕ) → Memᴰ s (1 ∷ []) → (i : ℕ) × ((1 ≤ i) × (i < 2) × (from_rank 2 0 i ≡ s))
    only s (Memᴰ.head e) = (1, (omega arith, omega arith, sym e))
    only s (Memᴰ.tail m) = elim m [ ]

    all : (i : ℕ) → 1 ≤ i → i < 2 → Memᴰ (from_rank 2 0 i) (1 ∷ [])
    all i lo hi = Memᴰ.head (ap (from_rank 2 0) (one i lo hi))
      where
        one : (j : ℕ) → 1 ≤ j → j < 2 → j ≡ 1
        one j l h = omega arith

-- What rank `s` sends to rank 0.
abbrev message : (ℕ → Blocks) → ℕ → ℕ → ℕ
message ins s x = bytes s ((ins s).offset 0 + x)

message-Posted : (ins : ℕ → Blocks) (s : ℕ) → s < 2 → Posted 2 ins bytes 0 s (message ins s)
unfolding Posted
message-Posted ins s hs i x lo hi e hx = ap (λ t. bytes s ((ins s).offset t + x)) (sym e)

-- Rank 0 keeps a byte and sends two, rank 1 sends three and keeps one.
abbrev ins_of : ℕ → List ℕ
ins_of zero = 1 ∷ 2 ∷ []
ins_of (suc k) = 3 ∷ 1 ∷ []

abbrev outs_of : ℕ → List ℕ
outs_of zero = 1 ∷ 3 ∷ []
outs_of (suc k) = 2 ∷ 1 ∷ []

alltoallv-delivers_example :
    land_all
      (split_offsets_and_lengths (1 ∷ 3 ∷ []) 1)
      (message (λ k. split_offsets_and_lengths (ins_of k) 1))
      (1 ∷ [])
      (copied
        (own_chunk
            (two 0)
            (split_offsets_and_lengths (1 ∷ 2 ∷ []) 1)
            (split_offsets_and_lengths (1 ∷ 3 ∷ []) 1)
          ∷ [])
        (bytes 0)
        (zeros 0))
      ((split_offsets_and_lengths (1 ∷ 3 ∷ []) 1).offset 1 + 2)
    ≡ bytes 1 ((split_offsets_and_lengths (3 ∷ 1 ∷ []) 1).offset 0 + 2)
unfolding lengths total
alltoallv-delivers_example =
    alltoallv-delivers (two 0) 0 (omega arith) refl bytes (zeros 0)
      (message (λ k. split_offsets_and_lengths (ins_of k) 1)) 1 ins_of outs_of refl (omega arith)
      sizes (message-Posted (λ k. split_offsets_and_lengths (ins_of k) 1)) (1 ∷ []) from_one 1 2
      (omega arith) (omega arith)
  where
    sizes : (s : ℕ) → s < 2 → entry (lengths (outs_of 0) 1) s ≡ entry (lengths (ins_of s) 1) 0
    sizes zero h = refl
    sizes (suc zero) h = refl
    sizes (suc (suc k)) h = absurd (omega arith)

-- Both ranks have entered, and rank 0 has completed its iteration.
abbrev nobody : Hall
nobody = record { entered = λ r. false; rounds = λ r. 0 }

abbrev passed : Hall
passed = pass 0 (enter 1 (enter 0 nobody))

passed-Reach : Barrier.Reach 2 passed
unfolding enter pass wait_for set
passed-Reach =
    Barrier.Reach.continues
      (Barrier.Reach.continues
        (Barrier.Reach.continues Barrier.Reach.starts (Barrier.Step.enters 0 (omega arith)))
        (Barrier.Step.enters 1 (omega arith)))
      (Barrier.Step.passes 0 (omega arith) refl (omega arith) refl (omega arith))

barrier-waits_example : passed.entered 1 ≡ true
unfolding enter pass set
barrier-waits_example =
    barrier-waits 2 passed-Reach 0 1 (omega arith) (omega arith) refl (omega arith)

barrier-returns_example :
    (calls : Calls) × (barrier (record { rank = 3; size = 5; has_pair = λ k. true }) 7 ≡ some calls)
barrier-returns_example =
    barrier-returns (record { rank = 3; size = 5; has_pair = λ k. true }) 7 (omega arith)

alltoall-alltoallv_example :
    alltoall (two 1) (record { element_size = 4; tag = 7; in_size = some 24; out_size = some 24 })
    ≡ alltoallv (two 1) (record {
      element_size = 4;
      tag = 7;
      in_elements = some (3 ∷ 3 ∷ []);
      out_elements = some (3 ∷ 3 ∷ []);
    })
alltoall-alltoallv_example =
    alltoall-alltoallv (two 1) 7 3 4 (omega arith) (omega arith) (omega arith) (omega arith)
