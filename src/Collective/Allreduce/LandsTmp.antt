-- ===== src/Collective/Allreduce/LandsTmp.antt =====
-- gloo/allreduce.cc: a message of the first loop that comes in keeps what the buffers of `ring` hold at one element.
use gloo.Prelude.{
  ℕ, suc, ◌≡◌, sym, ap, subst, ◌∙◌, ◌+◌, ◌-◌, ◌/◌, ◌%◌, ◌≤◌, ◌<◌, false, inl, inr, lt-or_le, inside,
  arith,
}
use gloo.Collective.{memcpy}
use gloo.Collective.Allreduce.{
  Segments, offsets_from, length_at, rounds, tmp_offset, next_rank, reduce_scatter_offsets,
}
use gloo.Collective.Allreduce.Local.{Options, Buffers}
use gloo.Collective.Allreduce.Elements.{covered_iff, memcpy-miss}
use gloo.Collective.Allreduce.Run.{posted_at}
use gloo.Collective.Allreduce.Cuts.{Divided, covers, turn, segment_pos, turn-next}
use gloo.Collective.Allreduce.Turns.{scatter_recv, scatter_matches}
use gloo.Collective.Allreduce.Parts.{part, posted_at_cases}
use gloo.Collective.Allreduce.Invariant.{Good, turn_bound}

memcpy_inside {ℓ} :
    {A : Type ℓ} (to length x : ℕ) (m out : ℕ → A)
    → x < length
    → memcpy to 0 length m out (to + x) ≡ m x
unfolding memcpy
memcpy_inside to length x m out h =
    rw (inside to (to + x) (to + length) (omega arith) (omega arith)) (ap m (omega arith))

module _ {ℓ} {A : Type ℓ} (s : Segments) (o : ℕ → Options A) (start : ℕ → Buffers A) (a r : ℕ)
    (div : Divided s) (hr : r < s.size) (ha : a < s.total_bytes) (t l t' l' : ℕ) (w w' : Buffers A)
    (good : Good s o start a r t l w) (next_good : Good s o start a (next_rank s.size r) t' l' w')
    (posted : posted_at s l < t) where
  bound : turn s r a < rounds s + s.per_rank
  bound = turn_bound s o start a r div hr ha

  begun_now : (k : ℕ) → k < suc l → posted_at s k < t
  begun_now k h = elim (lt-or_le k l) [
    | inl b ↦ good.begun k b
    | inr b ↦ subst (λ k. posted_at s k < t) (same b h) posted
  ]
    where
      same : l ≤ k → k < suc l → l ≡ k
      same b h = omega arith

  -- A message of the first loop goes into the temporary space.
  module _ (early : l < rounds s) where
    length_le : (k : ℕ) → (reduce_scatter_offsets s r k).recv_length ≤ s.segment_bytes
    unfolding reduce_scatter_offsets offsets_from length_at
    length_le k = ground arith

    covered :
        (k : ℕ)
        → k + s.per_rank ≡ turn s r a
        → ((reduce_scatter_offsets s r k).recv_offset ≤ a)
          × (a
              < (reduce_scatter_offsets s r k).recv_offset
                + (reduce_scatter_offsets s r k).recv_length)
    covered k e =
        covered_iff (reduce_scatter_offsets s r k).recv_offset
          (reduce_scatter_offsets s r k).recv_length a
          (scatter_recv s div r k a hr (omega (arith, bound)) ha ∙ ground arith)

    -- The message that comes in now.
    message :
        l + s.per_rank ≡ turn s r a
        → l < t'
        → w'.sent l (a - (reduce_scatter_offsets s r l).recv_offset)
          ≡ part s o start a (l / s.per_rank) (next_rank s.size r)
    message e h =
        ap (λ x. w'.sent l (a - x)) (scatter_matches s div r l hr early (segment_pos s div a ha))
        ∙ subst
            (λ k.
              w'.sent k (a - (reduce_scatter_offsets s (next_rank s.size r) k).send_offset)
              ≡ part s o start a (k / s.per_rank) (next_rank s.size r))
            next_turn (next_good.sent_partial (omega (arith, next_turn)) (omega (arith, next_turn)))
      where
        next_turn : turn s (next_rank s.size r) a ≡ l
        next_turn = ground (arith, turn-next s div r a hr ha)

    -- The other half of the temporary space keeps the message before.
    apart :
        (k x : ℕ)
        → l ≡ suc k
        → x < s.segment_bytes
        → covers
            (tmp_offset s (l % 2))
            (reduce_scatter_offsets s r l).recv_length
            (tmp_offset s (k % 2) + x)
          ≡ false
    unfolding covers tmp_offset
    apart k x e h = ground (arith, length_le l)

    held_now :
        (0 < (reduce_scatter_offsets s r l).recv_length → posted_at s l < t')
        → (k : ℕ) → k + s.per_rank ≡ turn s r a
        → k < suc l
        → t ≤ k + 2
        → memcpy
            (tmp_offset s (l % 2))
            0
            (reduce_scatter_offsets s r l).recv_length
            (w'.sent l)
            w.tmp
            (tmp_offset s (k % 2) + (a - (reduce_scatter_offsets s r k).recv_offset))
          ≡ part s o start a (k / s.per_rank) (next_rank s.size r)
    held_now sent k e h h' = elim (lt-or_le k l) [
      | inl b ↦
          memcpy-miss (tmp_offset s (l % 2)) 0 (reduce_scatter_offsets s r l).recv_length _
            (w'.sent l) w.tmp
            (apart k (a - (reduce_scatter_offsets s r k).recv_offset)
              (ground (arith, posted, posted_at_cases s l))
              (omega (arith, covered k e, length_le k)))
          ∙ good.held k e b h'
      | inr b ↦ newest k (same b) e
    ]
      where
        same : l ≤ k → k ≡ l
        same b = omega arith

        newest :
            (k : ℕ)
            → k ≡ l
            → k + s.per_rank ≡ turn s r a
            → memcpy
                (tmp_offset s (l % 2))
                0
                (reduce_scatter_offsets s r l).recv_length
                (w'.sent l)
                w.tmp
                (tmp_offset s (k % 2) + (a - (reduce_scatter_offsets s r k).recv_offset))
              ≡ part s o start a (k / s.per_rank) (next_rank s.size r)
        newest k b e =
            subst
              (λ k.
                memcpy (tmp_offset s (l % 2)) 0 (reduce_scatter_offsets s r l).recv_length
                  (w'.sent l) w.tmp
                  (tmp_offset s (k % 2) + (a - (reduce_scatter_offsets s r k).recv_offset))
                ≡ part s o start a (k / s.per_rank) (next_rank s.size r))
              (sym b)
              (memcpy_inside (tmp_offset s (l % 2)) (reduce_scatter_offsets s r l).recv_length
                  (a - (reduce_scatter_offsets s r l).recv_offset) (w'.sent l) w.tmp
                  (omega (arith, covered l (omega arith)))
                ∙ message (omega arith) (
                    ground
                      (arith, sent (omega (arith, covered l (omega arith))), posted_at_cases s l)))

    pub receive_tmp-Good :
        (0 < (reduce_scatter_offsets s r l).recv_length → posted_at s l < t')
        → Good s o start a r t (suc l) (record w {
          tmp =
              memcpy
                (tmp_offset s (l % 2))
                0
                (reduce_scatter_offsets s r l).recv_length
                (w'.sent l)
                w.tmp;
        })
    receive_tmp-Good sent = record {
      issued_le = good.issued_le;
      begun = begun_now;
      untouched = good.untouched;
      copies_untouched = good.copies_untouched;
      partial = λ h c. good.partial h (inr (omega arith));
      full = λ h h'. absurd (omega arith);
      held = held_now sent;
      sent_partial = good.sent_partial;
      sent_full = good.sent_full;
      waited = λ h h'. omega (arith, good.waited h h');
      copies_full = good.copies_full;
    }
