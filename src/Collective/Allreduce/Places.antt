-- ===== src/Collective/Allreduce/Places.antt =====
-- gloo/allreduce.cc: where a message of `ring` is to be received, and how long it is.
use gloo.Prelude.{
  ℕ, ◌≡◌, refl, sym, ap, subst, ◌∙◌, ◌-◌, ◌*◌, ◌%◌, ◌≤◌, ◌<◌, inl, inr, Option, none, some, ltb,
  if◌then◌else◌, lt-or_le, lt→ltb, le→ltb, arith,
}
use gloo.Collective.Allreduce.{
  Segments, offsets_from, rounds, tmp_offset, reduce_scatter_offsets, allgather_offsets, next_rank,
  length_at,
}
use gloo.Collective.Allreduce.Run.{Place, place_length, arrival_region}
use mathlib.Core.Option.{none-ne-some, some-injective}
use gloo.Collective.Allreduce.Waits.{arrival_early, arrival_late}
use gloo.Collective.Allreduce.Cuts.{Divided}
use gloo.Collective.Allreduce.Turns.{scatter_matches, gather_matches}

-- A message of some bytes.
unfoldable pub if_any {ℓ} : {X : Type ℓ} → ℕ → X → Option X
if_any n x = if ltb 0 n then some x else none

-- Where message `k` is to be received at a rank, and how long the one that it sends is.
unfoldable pub place : Segments → (rank k : ℕ) → Place
place s r k =
    if ltb k (rounds s)
    then Place.in_tmp (tmp_offset s (k % 2)) (reduce_scatter_offsets s r k).recv_length
    else Place.in_out (allgather_offsets s r (k - rounds s)).recv_offset
        (allgather_offsets s r (k - rounds s)).recv_length

unfoldable pub send_length : Segments → (rank k : ℕ) → ℕ
send_length s r k =
    if ltb k (rounds s)
    then (reduce_scatter_offsets s r k).send_length
    else (allgather_offsets s r (k - rounds s)).send_length

pub if_any-some {ℓ} : {X : Type ℓ} (n : ℕ) (x y : X) → if_any n x ≡ some y → (0 < n) × (x ≡ y)
unfolding if_any
if_any-some n x y e = elim (lt-or_le 0 n) [
  | inl l ↦ (l, some-injective x y (sym (ap (λ b. if b then some x else none) (lt→ltb 0 n l)) ∙ e))
  | inr g ↦ absurd (none-ne-some y (sym (ap (λ b. if b then some x else none) (le→ltb 0 n g)) ∙ e))
]

pub if_any_pos {ℓ} : {X : Type ℓ} (n : ℕ) (x : X) → 0 < n → if_any n x ≡ some x
unfolding if_any
if_any_pos n x h = rw (lt→ltb 0 n h) refl

pub place_length-place :
    (s : Segments) (r k : ℕ) → place_length (place s r k) ≡ (arrival_region s r k).recv_length
unfolding place place_length arrival_region
place_length-place s r k = elim (lt-or_le k (rounds s)) [
  | inl l ↦ rw (lt→ltb k (rounds s) l) refl
  | inr g ↦ rw (le→ltb k (rounds s) g) refl
]

pub place_early :
    (s : Segments) (r k : ℕ)
    → k < rounds s
    → place s r k ≡ Place.in_tmp (tmp_offset s (k % 2)) (reduce_scatter_offsets s r k).recv_length
unfolding place
place_early s r k h = rw (lt→ltb k (rounds s) h) refl

pub place_late :
    (s : Segments) (r k : ℕ)
    → rounds s ≤ k
    → place s r k
      ≡ Place.in_out
          (allgather_offsets s r (k - rounds s)).recv_offset
          (allgather_offsets s r (k - rounds s)).recv_length
unfolding place
place_late s r k h = rw (le→ltb k (rounds s) h) refl

-- The next rank sends as many bytes as the rank receives.
pub send_length-next :
    (s : Segments) (div : Divided s) (r k : ℕ)
    → r < s.size
    → k < 2 * rounds s
    → 0 < (arrival_region s r k).recv_length
    → send_length s (next_rank s.size r) k ≡ (arrival_region s r k).recv_length
unfolding send_length reduce_scatter_offsets allgather_offsets offsets_from length_at
send_length-next s div r k hr hk h = elim (lt-or_le k (rounds s)) [
  | inl l ↦
      rw (lt→ltb k (rounds s) l, arrival_early s r k l)
        (ap (length_at s) (
          sym (
            scatter_matches s div r k hr l
              (early_pos (subst (λ x. 0 < x.recv_length) (arrival_early s r k l) h)))))
  | inr g ↦
      rw (le→ltb k (rounds s) g, arrival_late s r k g)
        (ap (length_at s) (
          sym (
            gather_matches s div r (k - rounds s) hr (omega arith)
              (late_pos (subst (λ x. 0 < x.recv_length) (arrival_late s r k g) h)))))
]
  where
    early_pos : 0 < (reduce_scatter_offsets s r k).recv_length → 0 < s.segment_bytes
    early_pos l = ground arith

    late_pos : 0 < (allgather_offsets s r (k - rounds s)).recv_length → 0 < s.segment_bytes
    late_pos l = ground arith
