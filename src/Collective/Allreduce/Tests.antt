-- ===== src/Collective/Allreduce/Tests.antt =====
-- An allreduce of four elements on two ranks.
use gloo.Prelude.{ℕ, ◌≡◌, refl, ◌+◌, ◌*◌, ◌^◌, ◌≤◌, ◌<◌, [], ◌∷◌, arith}
use gloo.Collective.Allreduce.{
  Segments, rounds, next_rank, segments, round_up, larger, num_segments, max_segment_bytes,
}
use gloo.Collective.Allreduce.Local.{Options, Buffers}
use gloo.Collective.Allreduce.Run.{Rank, Reaches, at_start}
use gloo.Collective.Allreduce.Cuts.{Divided}
use gloo.Collective.Allreduce.Sizes.{segments-Divided, segment_bytes_le}
use gloo.Collective.Allreduce.Elements.{inputs_value, rest_value}
use gloo.Collective.Allreduce.Parts.{reduction, part, input_of, chunk}
use gloo.Collective.Allreduce.Reduces.{allreduce-reduces}
use gloo.Collective.Allreduce.Completes.{Returned, allreduce-completes}
use native.Mathlib.Nat.{one-dvd}

abbrev four : Segments
four = segments 2 4 1 1

-- Two inputs and two outputs at each rank.
abbrev options : ℕ → Options ℕ
options r = record {
  op = λ x y. x + y;
  element_size = 1;
  inputs = (λ a. 10 * r + a) ∷ (λ a. a) ∷ [];
  outputs = 2;
}

abbrev buffers : ℕ → Buffers ℕ
buffers r = record { out = λ a. 0; copies = λ k a. 0; tmp = λ a. 0; sent = λ k a. 0 }

four_fits : 2 * (four.num_segments * four.segment_bytes) < 2 ^ 64
unfolding segments round_up larger num_segments max_segment_bytes
four_fits = omega arith

segments-Divided_example : Divided four
segments-Divided_example = segments-Divided 2 4 1 1 (omega arith) (omega arith) four_fits

four-Divided : Divided four
four-Divided = segments-Divided 2 4 1 1 (omega arith) (omega arith) four_fits

segment_bytes_le_example : four.segment_bytes ≤ max_segment_bytes 1 1
segment_bytes_le_example = segment_bytes_le 2 4 1 1 (omega arith) (omega arith)

finished : (v : ℕ → Rank ℕ) × (Reaches four options (at_start buffers) v × Returned four v)
finished = allreduce-completes four four-Divided options buffers Reaches.starts

allreduce-completes_example :
    (v : ℕ → Rank ℕ) × (Reaches four options (at_start buffers) v × Returned four v)
allreduce-completes_example = allreduce-completes four four-Divided options buffers Reaches.starts

finished_issued : (finished.0 1).issued ≡ 2 * (rounds four + 2)
unfolding Returned segments
finished_issued = finished.1.1 1 (omega arith)

allreduce-reduces_example :
    ((finished.0 1).buffers.out 2 ≡ reduction four options buffers 2)
    × ((k : ℕ)
        → 1 ≤ k
        → k < 2
        → (finished.0 1).buffers.copies k 2 ≡ reduction four options buffers 2)
unfolding segments
allreduce-reduces_example =
    allreduce-reduces four four-Divided options buffers 2 (omega arith) (λ r. refl) (λ r. one-dvd 2)
      finished.1.0 1 (omega arith) finished_issued

-- The third element: 12 + 2 at rank 1, and 2 + 2 at rank 0.
reduction_two : reduction four options buffers 2 ≡ 18
unfolding reduction part segments input_of inputs_value rest_value chunk round_up num_segments
    larger max_segment_bytes next_rank
reduction_two = refl
