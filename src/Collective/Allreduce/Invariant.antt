-- ===== src/Collective/Allreduce/Invariant.antt =====
-- gloo/allreduce.cc: what the buffers of a rank hold at one element, at every moment of `ring`.
use gloo.Prelude.{
  ℕ, ◌≡◌, sym, ap, ◌∙◌, ◌+◌, ◌-◌, ◌*◌, ◌/◌, ◌%◌, ◌≤◌, ◌<◌, ◌⊎◌, inl, inr, lt-or_le, arith,
}
use gloo.Collective.Allreduce.{
  Segments, rounds, tmp_offset, next_rank, reduce_scatter_offsets, allgather_offsets,
}
use gloo.Collective.Allreduce.Local.{Options, Buffers}
use gloo.Collective.Allreduce.Run.{posted_at}
use gloo.Collective.Allreduce.Cuts.{Divided, turn, turn_lt, segments_rounds}
use gloo.Collective.Allreduce.Turns.{gather_turn}
use gloo.Collective.Allreduce.Parts.{part, reduction, chunk, ready, copied_at, last-chunk}

module _ {ℓ} {A : Type ℓ} (s : Segments) (o : ℕ → Options A) (start : ℕ → Buffers A) (a r : ℕ) where
  pub record Good (issued landed : ℕ) (b : Buffers A) : Type ℓ where
    pub issued_le : issued ≤ 2 * (rounds s + 2)
    pub begun : (k : ℕ) → k < landed → posted_at s k < issued
    pub untouched : issued ≤ ready s (turn s r a) → b.out a ≡ (start r).out a
    pub copies_untouched : issued ≤ rounds s + 2 → (i : ℕ) → b.copies i a ≡ (start r).copies i a
    pub partial :
        ready s (turn s r a) < issued
        → (rounds s ≤ turn s r a) ⊎ (landed ≤ rounds s + turn s r a)
        → b.out a ≡ part s o start a (turn s r a / s.per_rank) r
    pub full :
        turn s r a < rounds s → rounds s + turn s r a < landed → b.out a ≡ reduction s o start a
    pub held :
        (k : ℕ)
        → k + s.per_rank ≡ turn s r a
        → k < landed
        → issued ≤ k + 2
        → b.tmp (tmp_offset s (k % 2) + (a - (reduce_scatter_offsets s r k).recv_offset))
          ≡ part s o start a (k / s.per_rank) (next_rank s.size r)
    pub sent_partial :
        turn s r a < rounds s
        → turn s r a < issued
        → b.sent (turn s r a) (a - (reduce_scatter_offsets s r (turn s r a)).send_offset)
          ≡ part s o start a (turn s r a / s.per_rank) r
    pub sent_full :
        gather_turn s r a < rounds s
        → rounds s + 2 + gather_turn s r a < issued
        → b.sent
            (rounds s + gather_turn s r a)
            (a - (allgather_offsets s r (gather_turn s r a)).send_offset)
          ≡ reduction s o start a
    pub waited :
        turn s r a < rounds s
        → rounds s + 2 + (turn s r a + 2) < issued
        → rounds s + turn s r a < landed
    pub copies_full :
        copied_at s (turn s r a) < issued
        → (k : ℕ) → 1 ≤ k
        → k < (o r).outputs
        → b.copies k a ≡ reduction s o start a

  module _ (div : Divided s) (hr : r < s.size) (ha : a < s.total_bytes) where
    -- Once a rank has its part, and the whole if that comes from the next rank, it has the whole.
    pub out_full :
        {t l : ℕ} {b : Buffers A}
        → Good t l b
        → ready s (turn s r a) < t
        → (turn s r a < rounds s → rounds s + turn s r a < l)
        → b.out a ≡ reduction s o start a
    unfolding reduction chunk
    out_full good h w = elim (lt-or_le (turn s r a) (rounds s)) [
      | inl l ↦ good.full l (w l)
      | inr g ↦
          let (e, f) = last-chunk s div r a hr ha g in
          good.partial h (inl g)
          ∙ ap (λ k. part s o start a k r) e
          ∙ ap (part s o start a (s.size - 1)) (sym f)
    ]

    pub turn_bound : turn s r a < rounds s + s.per_rank
    turn_bound = omega (arith, turn_lt s div r a, segments_rounds s div)
