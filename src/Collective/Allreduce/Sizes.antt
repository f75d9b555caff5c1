-- ===== src/Collective/Allreduce/Sizes.antt =====
-- gloo/allreduce.cc: the sizes that `ring` computes before its loops.
use gloo.Prelude.{
  ℕ, ◌≡◌, sym, ap, subst, ◌+◌, ◌-◌, ◌*◌, ◌/◌, ◌%◌, ◌^◌, ◌≤◌, ◌<◌, inl, inr, lt-or_le, arith,
}
use gloo.Collective.Allreduce.{round_up, larger, segments, num_segments, max_segment_bytes}
use gloo.Collective.Allreduce.Cuts.{Divided}
use gloo.Collective.Allreduce.Rounding.{round_up-dvd, round_up_pos, round_up_zero, larger_le}
use Prim.Native.Nat.{◌∣◌}
use native.Mathlib.Nat.{
  mul-div_cancel', dvd-mul_left, dvd-mul_right, le-div_iff_mul-le, lt-mul-div-succ, mul-le-mul_left,
  add-mul, mul-add, mul-one, mul_comm, lt_of_mul-lt-mul_right, div-add-mod', div-mul_cancel,
  mul-le-mul_right, div-lt_iff_lt-mul,
}

-- The least multiple.
round_up_least : (v m w : ℕ) → 0 < m → m ∣ w → v ≤ w → round_up v m ≤ w
round_up_least v m w h d hv = elim (lt-or_le 0 (v % m)) [
  | inl l ↦
      subst (λ x. x ≤ w) (sym (round_up_pos v m h l))
        (omega (arith, mul-le-mul_right m (above l), div-mul_cancel m d))
  | inr g ↦ subst (λ x. x ≤ w) (sym (round_up_zero v m (omega arith))) hv
]
  where
    below : 0 < v % m → v / m < w / m
    below l = lt_of_mul-lt-mul_right m (omega (arith, div-mul_cancel m d, div-add-mod' v m))

    above : 0 < v % m → v / m + 1 ≤ w / m
    above l = omega (arith, below l)

-- Division rounded up.
ceil_covers : (v n : ℕ) → 0 < n → v ≤ n * ((v + n - 1) / n)
ceil_covers v n h =
    omega (arith, lt-mul-div-succ (v + n - 1) h, mul-add n ((v + n - 1) / n) 1, mul-one n)

ceil_le : (v n w : ℕ) → 0 < n → v ≤ n * w → (v + n - 1) / n ≤ w
ceil_le v n w h hv = omega (arith, below)
  where
    small : v + n - 1 < (w + 1) * n
    small = omega (arith, mul_comm n w, add-mul w 1 n)

    below : (v + n - 1) / n < w + 1
    below = (div-lt_iff_lt-mul h).1 small

pub num_segments-count :
    (size total_bytes max_bytes : ℕ)
    → 0 < size
    → (size ∣ num_segments size total_bytes max_bytes)
      × (size * 2 ≤ num_segments size total_bytes max_bytes)
unfolding num_segments
num_segments-count size total_bytes max_bytes h = (
  (round_up-dvd wanted size h).0,
  omega (
    arith,
    (round_up-dvd wanted size h).1,
    larger_le ((total_bytes + (max_bytes - 1)) / max_bytes) (size * 2),
  ),
)
  where
    wanted : ℕ
    wanted = larger ((total_bytes + (max_bytes - 1)) / max_bytes) (size * 2)

module _ (size elements element_size max_segment_size : ℕ) (hs : 2 ≤ size)
    (he : 0 < element_size) where
  abbrev count : ℕ
  count =
      num_segments size (elements * element_size) (max_segment_bytes element_size max_segment_size)

  abbrev largest : ℕ
  largest = max_segment_bytes element_size max_segment_size

  abbrev wanted : ℕ
  wanted = (elements * element_size + (largest - 1)) / largest

  rounded : (size ∣ count) × (larger wanted (size * 2) ≤ count)
  unfolding num_segments
  rounded = round_up-dvd (larger wanted (size * 2)) size (omega arith)

  count_le : (wanted ≤ count) × (size * 2 ≤ count)
  count_le = (
    omega (arith, rounded.1, larger_le wanted (size * 2)),
    omega (arith, rounded.1, larger_le wanted (size * 2)),
  )

  largest_dvd : (element_size ∣ largest) × (element_size ≤ largest)
  unfolding max_segment_bytes
  largest_dvd = (
    dvd-mul_right element_size (larger 1 (max_segment_size / element_size)),
    omega (
      arith,
      mul-le-mul_left element_size (larger_le 1 (max_segment_size / element_size)).0,
      mul-one element_size,
    ),
  )

  -- For two ranks or more and elements of at least one byte, when twice the bytes of all segments
  -- fit in 64 bits, the segments that `ring` computes are `Divided`: at least two for each rank and
  -- as many for each, of whole elements, and room for all bytes.
  pub segments-Divided :
      2
          * ((segments size elements element_size max_segment_size).num_segments
              * (segments size elements element_size max_segment_size).segment_bytes)
        < 2 ^ 64
      → Divided (segments size elements element_size max_segment_size)
  unfolding segments
  segments-Divided fits = record {
    ranks = hs;
    even = sym (mul-div_cancel' size rounded.0);
    pairs = (le-div_iff_mul-le (omega arith)).1 (omega (arith, count_le, mul_comm size 2));
    elements = he;
    whole = (round_up-dvd _ element_size he).0;
    whole_total = dvd-mul_left element_size elements;
    holds = omega (
      arith,
      ceil_covers (elements * element_size) count (omega (arith, count_le)),
      mul-le-mul_left count
          (round_up-dvd ((elements * element_size + count - 1) / count) element_size he).1,
    );
    fits = fits;
  }

  -- For two ranks or more and elements of at least one byte, no segment of `ring` is larger than
  -- `maxSegmentBytes`.
  pub segment_bytes_le :
      (segments size elements element_size max_segment_size).segment_bytes
      ≤ max_segment_bytes element_size max_segment_size
  unfolding segments
  segment_bytes_le =
      round_up_least ((elements * element_size + count - 1) / count) element_size largest he
        largest_dvd.0
        (ceil_le (elements * element_size) count largest (omega (arith, count_le)) total_le)
    where
      same : elements * element_size + largest - 1 ≡ elements * element_size + (largest - 1)
      same = omega (arith, largest_dvd)

      total_le : elements * element_size ≤ count * largest
      total_le = omega (
        arith,
        ceil_covers (elements * element_size) largest (omega (arith, largest_dvd)),
        ap (λ x. largest * (x / largest)) same,
        mul-le-mul_left largest count_le.0,
        mul_comm largest count,
      )
