-- ===== src/Collective/Allreduce/Cuts.antt =====
-- gloo/allreduce.cc: how `ring` cuts the buffer into segments, and whose turn each segment is at
-- each iteration.
use gloo.Prelude.{
  ℕ, ◌≡◌, sym, ap, ◌∙◌, ◌+◌, ◌-◌, ◌*◌, ◌/◌, ◌%◌, ◌^◌, ◌≤◌, ◌<◌, min, Bool, true, false, ◌≢◌, ◌&&◌,
  ◌⊎◌, inl, inr, u64, ltb, leb, ◌==◌, lt-or_le, inside, outside, wrap-cases, wrap-cases₂,
  wrap_blocks, block_end, arith,
}
use gloo.Collective.Allreduce.{Segments, ring_offset, length_at, rounds, next_rank}
use Prim.Native.Nat.{◌∣◌}
use native.Mathlib.Nat.{
  add-zero, mod-lt, mod-eq_of_lt, add-mod_left, mod-add-mod, add-mul, div-add-mod',
  div-lt_iff_lt-mul, div-eq_of_lt-le, mul-le-mul_right,
}

-- `2 <= size`, segments of whole elements, at least two per rank, that hold all bytes; and the
-- products of the offsets fit.
pub record Divided (s : Segments) : Type 0 where
  pub ranks : 2 ≤ s.size
  pub even : s.num_segments ≡ s.size * s.per_rank
  pub pairs : 2 ≤ s.per_rank
  pub elements : 0 < s.element_size
  pub whole : s.element_size ∣ s.segment_bytes
  pub whole_total : s.element_size ∣ s.total_bytes
  pub holds : s.total_bytes ≤ s.num_segments * s.segment_bytes
  pub fits : 2 * (s.num_segments * s.segment_bytes) < 2 ^ 64

unwrapped : (n : ℕ) → n < 2 ^ 64 → u64 n ≡ n
unwrapped n h = mod-eq_of_lt h

unfoldable pub covers : (offset length a : ℕ) → Bool
covers offset length a = leb offset a && ltb a (offset + length)

-- The first segment that rank `r` sends.
unfoldable pub first_sent : Segments → ℕ → ℕ
first_sent s r = ((r + 1) * s.per_rank) % s.num_segments

-- How many segments after that one the one of the address `a` is.
unfoldable pub turn : Segments → (r a : ℕ) → ℕ
turn s r a = (a / s.segment_bytes + s.num_segments - first_sent s r) % s.num_segments

module _ (s : Segments) (div : Divided s) where
  pub segment_pos : (a : ℕ) → a < s.total_bytes → 0 < s.segment_bytes
  segment_pos a h = elim (lt-or_le 0 s.segment_bytes) [
    | inl l ↦ l
    | inr g ↦ absurd (omega (arith, div.holds, ap (λ b. s.num_segments * b) (zeroed g)))
  ]
    where
      zeroed : s.segment_bytes ≤ 0 → s.segment_bytes ≡ 0
      zeroed g = omega arith

  pub segments_rounds : (s.num_segments ≡ rounds s + s.per_rank) × (s.per_rank ≤ rounds s)
  unfolding rounds
  segments_rounds = (omega (arith, twice), omega (arith, twice))
    where
      twice : 2 * s.per_rank ≤ s.num_segments
      twice = omega (arith, div.even, mul-le-mul_right s.per_rank div.ranks)

  -- Offsets are those of whole segments.
  pub ring_offset-mul :
      (base i : ℕ)
      → 0 < s.segment_bytes
      → base * s.per_rank + i < s.num_segments + s.num_segments
      → ring_offset s base i ≡ (base * s.per_rank + i) % s.num_segments * s.segment_bytes
  unfolding ring_offset
  ring_offset-mul base i pos h =
      rw
        (
          unwrapped ((base * s.per_rank + i) * s.segment_bytes) small,
          unwrapped (s.num_segments * s.segment_bytes) (omega (arith, div.fits)),
        )
        (simp add-zero at
          (wrap_blocks (base * s.per_rank + i) s.num_segments s.segment_bytes 0 pos h))
    where
      small : (base * s.per_rank + i) * s.segment_bytes < 2 ^ 64
      small = omega (
        arith,
        div.fits,
        block_end (base * s.per_rank + i) (s.num_segments + s.num_segments) s.segment_bytes h,
        add-mul s.num_segments s.num_segments s.segment_bytes,
      )

  segment_covers :
      (m a : ℕ)
      → m < s.num_segments
      → a < s.total_bytes
      → covers (m * s.segment_bytes) (length_at s (m * s.segment_bytes)) a
        ≡ (a / s.segment_bytes == m)
  unfolding covers length_at
  segment_covers m a h ha = elim (eq-or_ne (a / s.segment_bytes) m) [
    | inl e ↦ rw (here e) (inside (m * s.segment_bytes) a _ (low e) (high e))
    | inr n ↦
        rw
          (outside (m * s.segment_bytes) a
            (m * s.segment_bytes + min s.segment_bytes (s.total_bytes - m * s.segment_bytes))
            (λ b. n (
              div-eq_of_lt-le s.segment_bytes b.0
                (omega (arith, add-mul m 1 s.segment_bytes, b.1)))))
          (there n)
  ]
    where
      eq-or_ne : (x y : ℕ) → (x ≡ y) ⊎ (x ≢ y)
      eq-or_ne x y = ground arith

      here : a / s.segment_bytes ≡ m → (a / s.segment_bytes == m) ≡ true
      here e = ground arith

      there : a / s.segment_bytes ≢ m → false ≡ (a / s.segment_bytes == m)
      there n = ground arith

      split : a / s.segment_bytes * s.segment_bytes + a % s.segment_bytes ≡ a
      split = div-add-mod' a s.segment_bytes

      low : a / s.segment_bytes ≡ m → m * s.segment_bytes ≤ a
      low e = omega (arith, split, ap (λ x. x * s.segment_bytes) e)

      high :
          a / s.segment_bytes ≡ m
          → a < m * s.segment_bytes + min s.segment_bytes (s.total_bytes - m * s.segment_bytes)
      high e = omega (arith, split, ap (λ x. x * s.segment_bytes) e, mod-lt a (segment_pos a ha))

  pub num_segments_pos : 0 < s.num_segments
  num_segments_pos = omega (arith, segments_rounds, div.pairs)

  pub first_sent_lt : (r : ℕ) → first_sent s r < s.num_segments
  unfolding first_sent
  first_sent_lt r = mod-lt ((r + 1) * s.per_rank) num_segments_pos

  pub segment_lt : (a : ℕ) → a < s.total_bytes → a / s.segment_bytes < s.num_segments
  segment_lt a h = (div-lt_iff_lt-mul (segment_pos a h)).1 (omega (arith, div.holds))

  pub turn_lt : (r a : ℕ) → turn s r a < s.num_segments
  unfolding turn
  turn_lt r a = mod-lt (a / s.segment_bytes + s.num_segments - first_sent s r) num_segments_pos

  -- The segment at the `x`th turn.
  turn_test :
      (r x a : ℕ)
      → x < s.num_segments
      → a < s.total_bytes
      → (a / s.segment_bytes == (first_sent s r + x) % s.num_segments) ≡ (turn s r a == x)
  unfolding turn
  turn_test r x a h ha = ground (
    arith,
    segment_lt a ha,
    first_sent_lt r,
    wrap-cases (first_sent s r + x) s.num_segments (omega (arith, first_sent_lt r)),
    wrap-cases (a / s.segment_bytes + s.num_segments - first_sent s r) s.num_segments
        (omega (arith, segment_lt a ha, first_sent_lt r)),
  )

  -- A region of the ring, by its turn.
  pub covers-turn :
      (r base i x a : ℕ)
      → (base * s.per_rank + i) % s.num_segments ≡ (first_sent s r + x) % s.num_segments
      → base * s.per_rank + i < s.num_segments + s.num_segments
      → x < s.num_segments
      → a < s.total_bytes
      → covers (ring_offset s base i) (length_at s (ring_offset s base i)) a ≡ (turn s r a == x)
  covers-turn r base i x a e h hx ha = rw (ring_offset-mul base i (segment_pos a ha) h) (
      segment_covers ((base * s.per_rank + i) % s.num_segments) a
        (mod-lt (base * s.per_rank + i) num_segments_pos) ha
      ∙ ap (λ m. a / s.segment_bytes == m) e
      ∙ turn_test r x a hx ha)

  pub next_rank_cases :
      (r : ℕ)
      → r < s.size
      → ((r + 1 < s.size) × (next_rank s.size r ≡ r + 1))
        ⊎ ((r + 1 ≡ s.size) × (next_rank s.size r ≡ 0))
  unfolding next_rank
  next_rank_cases r h = ground (arith, wrap-cases₂ (r + 1) s.size (omega arith))

  pub next_rank_lt : (r : ℕ) → r < s.size → next_rank s.size r < s.size
  next_rank_lt r h = ground (arith, next_rank_cases r h)

  pub first_sent-next :
      (r : ℕ)
      → r < s.size
      → first_sent s (next_rank s.size r) ≡ (first_sent s r + s.per_rank) % s.num_segments
  unfolding first_sent
  first_sent-next r h = sym (mod-add-mod ((r + 1) * s.per_rank) s.num_segments s.per_rank ∙ go)
    where
      go :
          ((r + 1) * s.per_rank + s.per_rank) % s.num_segments
          ≡ ((next_rank s.size r + 1) * s.per_rank) % s.num_segments
      go = elim (next_rank_cases r h) [
        | inl (l, e) ↦
            ap (λ x. x % s.num_segments)
              (omega (arith, ap (λ x. (x + 1) * s.per_rank) e, add-mul (r + 1) 1 s.per_rank))
        | inr (l, e) ↦
            ap (λ x. x % s.num_segments) (omega (arith, ap (λ x. x * s.per_rank) l, div.even))
            ∙ add-mod_left s.num_segments s.per_rank
            ∙ ap (λ x. x % s.num_segments) (omega (arith, ap (λ x. (x + 1) * s.per_rank) e))
      ]

  -- One rank on, a segment comes a chunk earlier.
  pub turn-next :
      (r a : ℕ)
      → r < s.size
      → a < s.total_bytes
      → ((s.per_rank ≤ turn s r a) × (turn s (next_rank s.size r) a + s.per_rank ≡ turn s r a))
        ⊎ ((turn s r a < s.per_rank) × (turn s (next_rank s.size r) a ≡ turn s r a + rounds s))
  unfolding turn
  turn-next r a h ha = ground (
    arith,
    segments_rounds,
    segment_lt a ha,
    first_sent_lt r,
    first_sent_lt (next_rank s.size r),
    first_sent-next r h,
    wrap-cases (first_sent s r + s.per_rank) s.num_segments
        (omega (arith, segments_rounds, first_sent_lt r)),
    wrap-cases (a / s.segment_bytes + s.num_segments - first_sent s r) s.num_segments
        (omega (arith, segment_lt a ha, first_sent_lt r)),
    wrap-cases (a / s.segment_bytes + s.num_segments - first_sent s (next_rank s.size r))
        s.num_segments (omega (arith, segment_lt a ha, first_sent_lt (next_rank s.size r))),
  )
