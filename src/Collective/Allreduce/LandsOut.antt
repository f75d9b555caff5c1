-- ===== src/Collective/Allreduce/LandsOut.antt =====
-- gloo/allreduce.cc: a message of the second loop that comes in keeps what the buffers of `ring` hold at one element.
use gloo.Prelude.{
  ℕ, suc, ◌≡◌, ap, subst, subst₂, ◌∙◌, ◌+◌, ◌-◌, ◌*◌, ◌≤◌, ◌<◌, ◌≢◌, true, false, inl, inr,
  lt-or_le, arith,
}
use gloo.Collective.{memcpy}
use gloo.Collective.Allreduce.{Segments, rounds, next_rank, allgather_offsets}
use gloo.Collective.Allreduce.Local.{Options, Buffers}
use gloo.Collective.Allreduce.Elements.{covered_iff, memcpy-miss}
use gloo.Collective.Allreduce.Run.{posted_at}
use gloo.Collective.Allreduce.Cuts.{Divided, covers, turn, segments_rounds, segment_pos, turn-next}
use gloo.Collective.Allreduce.Turns.{gather_turn, gather_turn_cases, gather_recv, gather_matches}
use gloo.Collective.Allreduce.Parts.{reduction, ready_cases, posted_at_cases}
use gloo.Collective.Allreduce.Invariant.{Good, turn_bound}

memcpy_at {ℓ} :
    {A : Type ℓ} (to length a : ℕ) (m out : ℕ → A)
    → covers to length a ≡ true
    → memcpy to 0 length m out a ≡ m (a - to)
unfolding memcpy covers
memcpy_at to length a m out h = rw h (ap m (omega arith))

module _ {ℓ} {A : Type ℓ} (s : Segments) (o : ℕ → Options A) (start : ℕ → Buffers A) (a r : ℕ)
    (div : Divided s) (hr : r < s.size) (ha : a < s.total_bytes) (t l t' l' : ℕ) (w w' : Buffers A)
    (good : Good s o start a r t l w) (next_good : Good s o start a (next_rank s.size r) t' l' w')
    (posted : posted_at s l < t) where
  bound : turn s r a < rounds s + s.per_rank
  bound = turn_bound s o start a r div hr ha

  begun_now : (k : ℕ) → k < suc l → posted_at s k < t
  begun_now k h = elim (lt-or_le k l) [
    | inl b ↦ good.begun k b
    | inr b ↦ subst (λ k. posted_at s k < t) (same b h) posted
  ]
    where
      same : l ≤ k → k < suc l → l ≡ k
      same b h = omega arith

  -- A message of the second loop goes into the output.
  module _ (late : rounds s ≤ l) (late_lt : l < 2 * rounds s) where
    region_hit :
        turn s r a + rounds s ≡ l
        → covers
            (allgather_offsets s r (l - rounds s)).recv_offset
            (allgather_offsets s r (l - rounds s)).recv_length
            a
          ≡ true
    region_hit e = gather_recv s div r (l - rounds s) a hr (omega arith) ha ∙ ground arith

    region_miss :
        turn s r a + rounds s ≢ l
        → covers
            (allgather_offsets s r (l - rounds s)).recv_offset
            (allgather_offsets s r (l - rounds s)).recv_length
            a
          ≡ false
    region_miss n = gather_recv s div r (l - rounds s) a hr (omega arith) ha ∙ ground arith

    kept :
        turn s r a + rounds s ≢ l
        → memcpy
            (allgather_offsets s r (l - rounds s)).recv_offset
            0
            (allgather_offsets s r (l - rounds s)).recv_length
            (w'.sent l)
            w.out
            a
          ≡ w.out a
    kept n =
        memcpy-miss (allgather_offsets s r (l - rounds s)).recv_offset 0
          (allgather_offsets s r (l - rounds s)).recv_length a (w'.sent l) w.out (region_miss n)

    -- The message that comes in now.
    whole_message :
        turn s r a + rounds s ≡ l
        → l + 2 < t'
        → w'.sent l (a - (allgather_offsets s r (l - rounds s)).recv_offset) ≡ reduction s o start a
    whole_message e h =
        ap (λ x. w'.sent l (a - x))
          (gather_matches s div r (l - rounds s) hr (omega arith) (segment_pos s div a ha))
        ∙ subst₂
            (λ m k.
              w'.sent m (a - (allgather_offsets s (next_rank s.size r) k).send_offset)
              ≡ reduction s o start a)
            (omega (arith, next_turn)) next_turn
            (next_good.sent_full (omega (arith, next_turn)) (omega (arith, next_turn)))
      where
        next_turn : gather_turn s (next_rank s.size r) a ≡ l - rounds s
        next_turn = ground (
          arith,
          bound,
          segments_rounds s div,
          turn-next s div r a hr ha,
          gather_turn_cases s (next_rank s.size r) a,
        )

    out_now :
        (0 < (allgather_offsets s r (l - rounds s)).recv_length → posted_at s l < t')
        → turn s r a < rounds s
        → rounds s + turn s r a < suc l
        → memcpy
            (allgather_offsets s r (l - rounds s)).recv_offset
            0
            (allgather_offsets s r (l - rounds s)).recv_length
            (w'.sent l)
            w.out
            a
          ≡ reduction s o start a
    out_now sent h h' = elim (lt-or_le (rounds s + turn s r a) l) [
      | inl b ↦ kept (λ e. omega arith) ∙ good.full h b
      | inr b ↦
          memcpy_at (allgather_offsets s r (l - rounds s)).recv_offset
            (allgather_offsets s r (l - rounds s)).recv_length a (w'.sent l) w.out
            (region_hit (omega arith))
          ∙ whole_message (omega arith) (
              ground (
                arith,
                sent (
                    omega (
                      arith,
                      covered_iff (allgather_offsets s r (l - rounds s)).recv_offset
                          (allgather_offsets s r (l - rounds s)).recv_length a
                          (region_hit (omega arith)),
                    )),
                posted_at_cases s l,
              ))
    ]

    late_posted : rounds s + 2 < t
    late_posted = ground (arith, posted, posted_at_cases s l)

    pub receive_out-Good :
        (0 < (allgather_offsets s r (l - rounds s)).recv_length → posted_at s l < t')
        → Good s o start a r t (suc l) (record w {
          out =
              memcpy
                (allgather_offsets s r (l - rounds s)).recv_offset
                0
                (allgather_offsets s r (l - rounds s)).recv_length
                (w'.sent l)
                w.out;
        })
    receive_out-Good sent = record {
      issued_le = good.issued_le;
      begun = begun_now;
      untouched = λ h.
          absurd
            (omega (arith, late_posted, bound, ready_cases s (turn s r a), segments_rounds s div));
      copies_untouched = good.copies_untouched;
      partial = λ h c. kept (λ e. ground arith) ∙ good.partial h (ground arith);
      full = out_now sent;
      held = λ k e h h'. absurd (omega (arith, late_posted, bound));
      sent_partial = good.sent_partial;
      sent_full = good.sent_full;
      waited = λ h h'. omega (arith, good.waited h h');
      copies_full = good.copies_full;
    }
