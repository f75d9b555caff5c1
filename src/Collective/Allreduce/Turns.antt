-- ===== src/Collective/Allreduce/Turns.antt =====
-- gloo/allreduce.cc: which bytes the regions of `computeReduceScatterOffsets` and
-- `computeAllgatherOffsets` hold, and that neighbours agree on them.
use gloo.Prelude.{
  ℕ, ◌≡◌, sym, ap, ◌∙◌, ◌+◌, ◌-◌, ◌*◌, ◌%◌, ◌≤◌, ◌<◌, min, ◌⊎◌, inl, inr, ltb, ◌==◌, if◌then◌else◌,
  lt-or_le, arith,
}
use gloo.Collective.Allreduce.{
  Segments, offsets_from, ring_offset, length_at, rounds, next_rank, reduce_scatter_offsets,
  allgather_offsets,
}
use gloo.Collective.Allreduce.Cuts.{
  Divided, covers, turn, first_sent, segments_rounds, covers-turn, turn_lt, next_rank_cases,
  next_rank_lt, first_sent-next, ring_offset-mul,
}
use Prim.Native.Nat.{◌∣◌}
use native.Mathlib.Nat.{
  mul-le-mul_right, add-mod_left, mod-add-mod, add-mul, add-mod_left, mod-add-mod, add-mul,
  dvd-mul_left_of_dvd, dvd-sub,
}

-- The iteration of the second loop that sends the segment.
unfoldable pub gather_turn : Segments → (r a : ℕ) → ℕ
gather_turn s r a =
    if ltb (turn s r a) (rounds s) then turn s r a + s.per_rank else turn s r a - rounds s

pub gather_turn_cases :
    (s : Segments) (r a : ℕ)
    → ((turn s r a < rounds s) × (gather_turn s r a ≡ turn s r a + s.per_rank))
      ⊎ ((rounds s ≤ turn s r a) × (gather_turn s r a ≡ turn s r a - rounds s))
unfolding gather_turn
gather_turn_cases s r a = ground arith

module _ (s : Segments) (div : Divided s) where
  place : (r : ℕ) → r < s.size → (r + 1) * s.per_rank ≤ s.num_segments
  place r h = omega (arith, div.even, mul-le-mul_right s.per_rank (le_suc r h))
    where
      le_suc : (r : ℕ) → r < s.size → r + 1 ≤ s.size
      le_suc r h = omega arith

  from_first :
      (r i : ℕ)
      → ((r + 1) * s.per_rank + i) % s.num_segments ≡ (first_sent s r + i) % s.num_segments
  unfolding first_sent
  from_first r i = sym (mod-add-mod ((r + 1) * s.per_rank) s.num_segments i)

  module _ (r i a : ℕ) (hr : r < s.size) (hi : i < rounds s) (ha : a < s.total_bytes) where
    pub scatter_send :
        covers
          (reduce_scatter_offsets s r i).send_offset
          (reduce_scatter_offsets s r i).send_length
          a
        ≡ (turn s r a == i)
    unfolding reduce_scatter_offsets offsets_from
    scatter_send =
        covers-turn s div r (r + 1) i i a (from_first r i)
          (omega (arith, place r hr, segments_rounds s div)) (omega (arith, segments_rounds s div))
          ha

    pub scatter_recv :
        covers
          (reduce_scatter_offsets s r i).recv_offset
          (reduce_scatter_offsets s r i).recv_length
          a
        ≡ (turn s r a == i + s.per_rank)
    unfolding reduce_scatter_offsets offsets_from
    scatter_recv =
        covers-turn s div r (r + 2) i (i + s.per_rank) a
          (ap (λ x. x % s.num_segments) step ∙ from_first r (i + s.per_rank))
          (omega (arith, step, place r hr, segments_rounds s div))
          (omega (arith, segments_rounds s div)) ha
      where
        step : (r + 2) * s.per_rank + i ≡ (r + 1) * s.per_rank + (i + s.per_rank)
        step = omega (arith, add-mul (r + 1) 1 s.per_rank)

    pub gather_recv :
        covers (allgather_offsets s r i).recv_offset (allgather_offsets s r i).recv_length a
        ≡ (turn s r a == i)
    unfolding allgather_offsets offsets_from
    gather_recv =
        covers-turn s div r (r + 1) i i a (from_first r i)
          (omega (arith, place r hr, segments_rounds s div)) (omega (arith, segments_rounds s div))
          ha

    pub gather_send :
        covers (allgather_offsets s r i).send_offset (allgather_offsets s r i).send_length a
        ≡ (gather_turn s r a == i)
    unfolding allgather_offsets offsets_from gather_turn
    gather_send = elim (lt-or_le i s.per_rank) [
      | inl l ↦
          covers-turn s div r r i (i + rounds s) a (round_again ∙ from_first r (i + rounds s)) small
            (omega (arith, segments_rounds s div)) ha
          ∙ ground (arith, segments_rounds s div, turn_lt s div r a)
      | inr g ↦
          covers-turn s div r r i (i - s.per_rank) a
            (ap (λ x. x % s.num_segments) (back g) ∙ from_first r (i - s.per_rank)) small
            (omega (arith, segments_rounds s div)) ha
          ∙ ground (arith, segments_rounds s div, turn_lt s div r a)
    ]
      where
        step : (r + 1) * s.per_rank ≡ r * s.per_rank + s.per_rank
        step = omega (arith, add-mul r 1 s.per_rank)

        small : r * s.per_rank + i < s.num_segments + s.num_segments
        small = omega (arith, step, place r hr, segments_rounds s div)

        back : s.per_rank ≤ i → r * s.per_rank + i ≡ (r + 1) * s.per_rank + (i - s.per_rank)
        back g = omega (arith, step)

        round_again :
            (r * s.per_rank + i) % s.num_segments
            ≡ ((r + 1) * s.per_rank + (i + rounds s)) % s.num_segments
        round_again =
            sym (add-mod_left s.num_segments (r * s.per_rank + i))
            ∙ ap (λ x. x % s.num_segments) (omega (arith, step, segments_rounds s div))

  -- What a rank sends is what the rank before it receives, at the same offset.
  module _ (r i : ℕ) (hr : r < s.size) (hi : i < rounds s) (pos : 0 < s.segment_bytes) where
    same_offset :
        (base base' : ℕ)
        → base * s.per_rank + i < s.num_segments + s.num_segments
        → base' * s.per_rank + i < s.num_segments + s.num_segments
        → (base * s.per_rank + i) % s.num_segments ≡ (base' * s.per_rank + i) % s.num_segments
        → ring_offset s base i ≡ ring_offset s base' i
    same_offset base base' h h' e =
        ring_offset-mul s div base i pos h
        ∙ ap (λ x. x * s.segment_bytes) e
        ∙ sym (ring_offset-mul s div base' i pos h')

    fits : (r : ℕ) → r < s.size → (r + 1) * s.per_rank + i < s.num_segments + s.num_segments
    fits r h = omega (arith, place r h, segments_rounds s div)

    pub scatter_matches :
        (reduce_scatter_offsets s r i).recv_offset
        ≡ (reduce_scatter_offsets s (next_rank s.size r) i).send_offset
    unfolding reduce_scatter_offsets offsets_from
    scatter_matches =
        same_offset (r + 2) (next_rank s.size r + 1)
          (omega (arith, add-mul (r + 1) 1 s.per_rank, place r hr, segments_rounds s div))
          (fits (next_rank s.size r) (next_rank_lt s div r hr))
          (ap (λ x. x % s.num_segments) step
            ∙ from_first r (s.per_rank + i)
            ∙ sym (
                from_first (next_rank s.size r) i
                ∙ ap (λ x. (x + i) % s.num_segments) (first_sent-next s div r hr)
                ∙ mod-add-mod (first_sent s r + s.per_rank) s.num_segments i
                ∙ ap (λ x. x % s.num_segments) (omega arith)))
      where
        step : (r + 2) * s.per_rank + i ≡ (r + 1) * s.per_rank + (s.per_rank + i)
        step = omega (arith, add-mul (r + 1) 1 s.per_rank)

    pub gather_matches :
        (allgather_offsets s r i).recv_offset
        ≡ (allgather_offsets s (next_rank s.size r) i).send_offset
    unfolding allgather_offsets offsets_from
    gather_matches = elim (next_rank_cases s div r hr) [
      | inl (l, e) ↦ ap (λ b. ring_offset s b i) (sym e)
      | inr (l, e) ↦
          same_offset (r + 1) (next_rank s.size r) (fits r hr)
            (omega (arith, ap (λ b. b * s.per_rank) e, segments_rounds s div))
            (ap (λ x. x % s.num_segments) (round_again l)
              ∙ add-mod_left s.num_segments i
              ∙ ap (λ x. x % s.num_segments) (omega (arith, ap (λ b. b * s.per_rank) e)))
    ]
      where
        round_again : r + 1 ≡ s.size → (r + 1) * s.per_rank + i ≡ s.num_segments + i
        round_again l = omega (arith, ap (λ b. b * s.per_rank) l, div.even)

  -- Regions are of whole elements.
  region-dvd :
      (base i : ℕ)
      → 0 < s.segment_bytes
      → base * s.per_rank + i < s.num_segments + s.num_segments
      → (s.element_size ∣ ring_offset s base i)
        × (s.element_size ∣ length_at s (ring_offset s base i))
  unfolding length_at
  region-dvd base i pos h = rw (ring_offset-mul s div base i pos h) (
    offset_dvd ((base * s.per_rank + i) % s.num_segments),
    elim (min_cases s.segment_bytes
        (s.total_bytes - (base * s.per_rank + i) % s.num_segments * s.segment_bytes)) [
          | inl e ↦ rw e div.whole
          | inr e ↦ rw e (
              dvd-sub s.element_size div.whole_total
                (offset_dvd ((base * s.per_rank + i) % s.num_segments)))
        ],
  )
    where
      offset_dvd : (m : ℕ) → s.element_size ∣ m * s.segment_bytes
      offset_dvd m = dvd-mul_left_of_dvd s.element_size div.whole m

      min_cases : (x y : ℕ) → (min x y ≡ x) ⊎ (min x y ≡ y)
      min_cases x y = ground arith

  module _ (r i : ℕ) (hr : r < s.size) (hi : i < rounds s) (pos : 0 < s.segment_bytes) where
    pub scatter_send-dvd :
        (s.element_size ∣ (reduce_scatter_offsets s r i).send_offset)
        × (s.element_size ∣ (reduce_scatter_offsets s r i).send_length)
    unfolding reduce_scatter_offsets offsets_from
    scatter_send-dvd = region-dvd (r + 1) i pos (omega (arith, place r hr, segments_rounds s div))

    pub scatter_recv-dvd :
        (s.element_size ∣ (reduce_scatter_offsets s r i).recv_offset)
        × (s.element_size ∣ (reduce_scatter_offsets s r i).recv_length)
    unfolding reduce_scatter_offsets offsets_from
    scatter_recv-dvd =
        region-dvd (r + 2) i pos
          (omega (arith, add-mul (r + 1) 1 s.per_rank, place r hr, segments_rounds s div))
