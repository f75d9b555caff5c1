-- ===== src/Collective/Allreduce/Parts.antt =====
-- gloo/allreduce.cc: the reductions that the ring passes on, and when each segment has them.
use gloo.Prelude.{
  ℕ, zero, suc, ◌≡◌, sym, ap, ◌∙◌, ◌+◌, ◌-◌, ◌*◌, ◌/◌, ◌%◌, ◌≤◌, ◌<◌, ◌⊎◌, inl, inr, ltb,
  if◌then◌else◌, lt-or_le, wrap-cases, arith,
}
use gloo.Collective.Allreduce.{Segments, rounds, next_rank}
use gloo.Collective.Allreduce.Local.{Options, Buffers}
use gloo.Collective.Allreduce.Run.{posted_at}
use gloo.Collective.Allreduce.Elements.{inputs_value}
use gloo.Collective.Allreduce.Cuts.{
  Divided, turn, turn_lt, first_sent, first_sent_lt, segment_lt, segments_rounds,
}
use native.Mathlib.Nat.{
  add-div_right, div-eq_of_lt, div-eq_of_lt-le, add-mul, mod_self, mod-eq_of_lt, mul-le-mul_right,
}

module _ {ℓ} {A : Type ℓ} (s : Segments) (o : ℕ → Options A) (start : ℕ → Buffers A) (a : ℕ) where
  -- The reduction of the inputs of rank `r`.
  unfoldable pub input_of : ℕ → A
  input_of r = inputs_value (o r) (o r).inputs (start r).copies (start r).out a

  -- That of rank `r` and of the `k` ranks after it, from the last to the first.
  unfoldable pub part : (k r : ℕ) → A
  part zero r = input_of r
  part (suc k) r = (o r).op (input_of r) (part k (next_rank s.size r))

  -- The rank that the chunk of the address is reduced at, and its whole reduction there.
  unfoldable pub chunk : ℕ
  chunk = a / s.segment_bytes / s.per_rank

  unfoldable pub reduction : A
  reduction = part (s.size - 1) chunk

-- The iteration after which the output of a rank has its part of the reduction.
unfoldable pub ready : Segments → (d : ℕ) → ℕ
ready s d = if ltb d s.per_rank then d else d - s.per_rank + 2

-- The iteration after which its other outputs have the whole.
unfoldable pub copied_at : Segments → (d : ℕ) → ℕ
copied_at s d = if ltb d (rounds s) then rounds s + 2 + (d + 2) else d + 2

pub ready_cases :
    (s : Segments) (d : ℕ)
    → ((d < s.per_rank) × (ready s d ≡ d)) ⊎ ((s.per_rank ≤ d) × (ready s d ≡ d - s.per_rank + 2))
unfolding ready
ready_cases s d = ground arith

pub copied_at_cases :
    (s : Segments) (d : ℕ)
    → ((d < rounds s) × (copied_at s d ≡ rounds s + 2 + (d + 2)))
      ⊎ ((rounds s ≤ d) × (copied_at s d ≡ d + 2))
unfolding copied_at
copied_at_cases s d = ground arith

pub posted_at_cases :
    (s : Segments) (k : ℕ)
    → ((k < rounds s) × (posted_at s k ≡ k)) ⊎ ((rounds s ≤ k) × (posted_at s k ≡ k + 2))
unfolding posted_at
posted_at_cases s k = ground arith

module _ (s : Segments) (div : Divided s) where
  pub part_first : (d : ℕ) → d < s.per_rank → d / s.per_rank ≡ 0
  part_first d h = div-eq_of_lt h

  pub part_next : (k d : ℕ) → k + s.per_rank ≡ d → d / s.per_rank ≡ suc (k / s.per_rank)
  part_next k d e =
      ap (λ x. x / s.per_rank) (sym e) ∙ add-div_right k (omega (arith, div.pairs)) ∙ omega arith

  first_sent_cases :
      (r : ℕ)
      → r < s.size
      → (((r + 1) * s.per_rank < s.num_segments) × (first_sent s r ≡ (r + 1) * s.per_rank))
        ⊎ (((r + 1) * s.per_rank ≡ s.num_segments) × (first_sent s r ≡ 0))
  unfolding first_sent
  first_sent_cases r h = elim (lt-or_le ((r + 1) * s.per_rank) s.num_segments) [
    | inl l ↦ inl (l, mod-eq_of_lt l)
    | inr g ↦ inr (whole g, ap (λ x. x % s.num_segments) (whole g) ∙ mod_self s.num_segments)
  ]
    where
      le_suc : r + 1 ≤ s.size
      le_suc = omega arith

      whole : s.num_segments ≤ (r + 1) * s.per_rank → (r + 1) * s.per_rank ≡ s.num_segments
      whole g = omega (arith, div.even, mul-le-mul_right s.per_rank le_suc)

  -- The segments that a rank does not send in the first loop are those of its own chunk.
  pub last-chunk :
      (r a : ℕ)
      → r < s.size
      → a < s.total_bytes
      → rounds s ≤ turn s r a
      → (turn s r a / s.per_rank ≡ s.size - 1) × (a / s.segment_bytes / s.per_rank ≡ r)
  unfolding turn
  last-chunk r a hr ha h = (
    div-eq_of_lt-le s.per_rank (omega (arith, before_last, h)) (
        omega (
          arith,
          turn_lt s div r a,
          before_last,
          segments_rounds s div,
          add-mul (s.size - 1) 1 s.per_rank,
        )),
    div-eq_of_lt-le s.per_rank (bounds.0) (omega (arith, bounds.1, add-mul r 1 s.per_rank)),
  )
    where
      one_less : s.size ≡ s.size - 1 + 1
      one_less = omega (arith, div.ranks)

      before_last : (s.size - 1) * s.per_rank ≡ rounds s
      before_last = omega (
        arith,
        segments_rounds s div,
        div.even,
        ap (λ n. n * s.per_rank) one_less,
        add-mul (s.size - 1) 1 s.per_rank,
      )

      le_suc : r + 1 ≤ s.size
      le_suc = omega arith

      next_chunk : (r + 1) * s.per_rank ≡ r * s.per_rank + s.per_rank
      next_chunk = omega (arith, add-mul r 1 s.per_rank)

      bounds :
          (r * s.per_rank ≤ a / s.segment_bytes)
          × (a / s.segment_bytes < r * s.per_rank + s.per_rank)
      bounds = ground (
        arith,
        next_chunk,
        first_sent_cases r hr,
        segment_lt s div a ha,
        segments_rounds s div,
        wrap-cases (a / s.segment_bytes + s.num_segments - first_sent s r) s.num_segments
            (omega (arith, segment_lt s div a ha, first_sent_lt s div r)),
      )
