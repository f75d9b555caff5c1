-- ===== src/Collective/Allreduce/Issues.antt =====
-- gloo/allreduce.cc: an iteration of `ring` keeps what the buffers hold at one element.
use gloo.Prelude.{
  ℕ, suc, ◌≡◌, sym, ap, subst, ◌∙◌, ◌+◌, ◌-◌, ◌/◌, ◌%◌, ◌≤◌, ◌<◌, ◌≢◌, ◌⊎◌, inl, inr, lt-or_le,
  arith,
}
use gloo.Collective.Allreduce.{
  Segments, rounds, tmp_offset, next_rank, reduce_scatter_offsets, allgather_offsets,
}
use gloo.Collective.Allreduce.Local.{Options, Buffers}
use gloo.Collective.Allreduce.Elements.{inputs_value, inputs_value_same}
use gloo.Collective.Allreduce.Cuts.{Divided, turn, segments_rounds}
use gloo.Collective.Allreduce.Turns.{gather_turn, gather_turn_cases}
use gloo.Collective.Allreduce.Parts.{
  input_of, part, reduction, ready, copied_at, ready_cases, copied_at_cases, posted_at_cases,
  part_first, part_next,
}
use gloo.Collective.Allreduce.Scattered.{Scattered}
use gloo.Collective.Allreduce.Gathers.{Gathered}
use gloo.Collective.Allreduce.Invariant.{Good, out_full, turn_bound}
use native.Mathlib.Nat.{mod-eq-sub-mod}

module _ {ℓ} {A : Type ℓ} (s : Segments) (o : ℕ → Options A) (start : ℕ → Buffers A) (a r : ℕ)
    (div : Divided s) (hr : r < s.size) (ha : a < s.total_bytes) (t l : ℕ) (w v : Buffers A)
    (good : Good s o start a r t l w) where
  d : ℕ
  d = turn s r a

  bound : turn s r a < rounds s + s.per_rank
  bound = turn_bound s o start a r div hr ha

  module _ (ht : t < rounds s + 2) (sc : Scattered s div (o r) r a t w v)
      (wait : 2 ≤ t → turn s r a ≡ t - 2 + s.per_rank → t - 2 < l) where
    copies_same : (i : ℕ) → w.copies i a ≡ (start r).copies i a
    copies_same i = good.copies_untouched (omega arith) i

    local_input :
        t ≤ ready s (turn s r a)
        → (inputs_value (o r) (o r).inputs w.copies w.out a) ≡ input_of s o start a r
    unfolding input_of
    local_input h =
        inputs_value_same (o r) w.copies (start r).copies w.out (start r).out a (o r).inputs
          (good.untouched h) copies_same

    kept : ready s (turn s r a) ≢ t → v.out a ≡ w.out a
    kept n =
        sc.untouched (λ h e. n (ground (arith, div.pairs, ready_cases s (turn s r a))))
          (λ h e. n (ground (arith, ready_cases s (turn s r a))))

    landed_le : l ≤ rounds s
    landed_le = elim (lt-or_le (rounds s) l) [
      | inl h ↦ absurd (ground (arith, good.begun (rounds s) h, posted_at_cases s (rounds s)))
      | inr h ↦ h
    ]

    -- The message that the iteration reduces.
    message :
        2 ≤ t
        → turn s r a ≡ t - 2 + s.per_rank
        → w.tmp (tmp_offset s (t % 2) + (a - (reduce_scatter_offsets s r (t - 2)).recv_offset))
          ≡ part s o start a ((t - 2) / s.per_rank) (next_rank s.size r)
    message h e =
        ap (λ x. w.tmp (tmp_offset s x + (a - (reduce_scatter_offsets s r (t - 2)).recv_offset)))
          (mod-eq-sub-mod h)
        ∙ good.held (t - 2) (sym e) (wait h e) (omega arith)

    now : ready s (turn s r a) < suc t → v.out a ≡ part s o start a (turn s r a / s.per_rank) r
    unfolding part
    now h = elim (lt-or_le (ready s (turn s r a)) t) [
      | inl before ↦ kept (λ e. omega arith) ∙ good.partial before (inr (omega (arith, landed_le)))
      | inr g ↦ elim (ready_cases s (turn s r a)) [
        | inl (f, e) ↦
            sc.prepared (omega arith) (omega arith)
            ∙ local_input g
            ∙ ap (λ k. part s o start a k r) (sym (part_first s div (turn s r a) f))
        | inr (f, e) ↦
            sc.reduced (omega arith) (turned f e g)
            ∙ ap
                (λ x. (o r).op x (
                  w.tmp (
                    tmp_offset s (t % 2) + (a - (reduce_scatter_offsets s r (t - 2)).recv_offset))))
                (local_input g)
            ∙ ap ((o r).op (input_of s o start a r)) (message (omega arith) (turned f e g))
            ∙ ap (λ k. part s o start a k r)
                (sym (part_next s div (t - 2) (turn s r a) (sym (turned f e g))))
      ]
    ]
      where
        turned :
            s.per_rank ≤ turn s r a
            → ready s (turn s r a) ≡ turn s r a - s.per_rank + 2
            → t ≤ ready s (turn s r a)
            → turn s r a ≡ t - 2 + s.per_rank
        turned f e g = omega arith

    -- An iteration of the first loop.
    pub scatter-Good : Good s o start a r (suc t) l v
    scatter-Good = record {
      issued_le = omega arith;
      begun = λ k h. omega (arith, good.begun k h);
      untouched = λ h. kept (λ e. omega arith) ∙ good.untouched (omega arith);
      copies_untouched = λ h i. ap (λ f. f i a) sc.copies_kept ∙ copies_same i;
      partial = λ h _. now h;
      full = λ h h'. absurd (omega (arith, landed_le));
      held = λ k e h h'.
          ap (λ f. f (tmp_offset s (k % 2) + (a - (reduce_scatter_offsets s r k).recv_offset)))
            sc.tmp_kept
          ∙ good.held k e h (omega arith);
      sent_partial = λ h h'. elim (lt-or_le (turn s r a) t) [
        | inl b ↦
            ap (λ f. f (a - (reduce_scatter_offsets s r (turn s r a)).send_offset))
              (sc.sent_else (turn s r a) (λ _ e. omega arith))
            ∙ good.sent_partial h b
        | inr b ↦
            subst (λ k. v.sent k (a - (reduce_scatter_offsets s r k).send_offset) ≡ v.out a)
              (at_turn h' b) (sc.posted (omega arith) (sym (at_turn h' b)))
            ∙ now (ready_now h' b)
      ];
      sent_full = λ h h'. absurd (omega arith);
      waited = λ h h'. absurd (omega arith);
      copies_full = λ h k lo hi.
          absurd (ground (arith, copied_at_cases s (turn s r a), div.pairs, segments_rounds s div));
    }
      where
        at_turn : turn s r a < suc t → t ≤ turn s r a → t ≡ turn s r a
        at_turn h b = omega arith

        ready_now : turn s r a < suc t → t ≤ turn s r a → ready s (turn s r a) < suc t
        ready_now h b = ground (arith, div.pairs, ready_cases s (turn s r a))

  module _ (i : ℕ) (now_at : t ≡ rounds s + 2 + i) (hi : i < rounds s + 2)
      (ga : Gathered s div (o r) r a i w v)
      (wait : 2 ≤ i → turn s r a ≡ i - 2 → rounds s + (i - 2) < l) where
    already : ready s (turn s r a) < t
    already = ground (arith, bound, segments_rounds s div, ready_cases s (turn s r a))

    -- What comes from the next rank has come before it is sent on or copied.
    has_come : turn s r a < rounds s → turn s r a + 2 ≤ i → rounds s + turn s r a < l
    has_come h b = elim (lt-or_le (turn s r a + 2) i) [
      | inl c ↦ good.waited h (omega arith)
      | inr c ↦ omega (arith, wait (omega arith) (omega arith))
    ]

    whole : (turn s r a < rounds s → turn s r a + 2 ≤ i) → w.out a ≡ reduction s o start a
    whole h = out_full s o start a r div hr ha good already (λ k. has_come k (h k))

    -- An iteration of the second loop.
    pub gather-Good : Good s o start a r (suc t) l v
    gather-Good = record {
      issued_le = omega arith;
      begun = λ k h. omega (arith, good.begun k h);
      untouched = λ h. absurd (omega (arith, already));
      copies_untouched = λ h i. absurd (omega arith);
      partial = λ h c. ap (λ f. f a) ga.out_kept ∙ good.partial already c;
      full = λ h h'. ap (λ f. f a) ga.out_kept ∙ good.full h h';
      held = λ k e h h'. absurd (omega (arith, bound));
      sent_partial = λ h h'.
          ap (λ f. f (a - (reduce_scatter_offsets s r (turn s r a)).send_offset))
            (ga.sent_else (turn s r a) (λ _ e. omega arith))
          ∙ good.sent_partial h (omega arith);
      sent_full = λ h h'. elim (lt-or_le (gather_turn s r a) i) [
        | inl b ↦
            ap (λ f. f (a - (allgather_offsets s r (gather_turn s r a)).send_offset))
              (ga.sent_else (rounds s + gather_turn s r a) (λ _ e. omega arith))
            ∙ good.sent_full h (omega arith)
        | inr b ↦
            subst (λ k. v.sent (rounds s + k) (a - (allgather_offsets s r k).send_offset) ≡ w.out a)
              (at_turn h' b) (ga.posted (omega arith) (sym (at_turn h' b)))
            ∙ whole (λ k. ground (arith, div.pairs, gather_turn_cases s r a))
      ];
      waited = λ h h'. omega (arith, has_come h (omega arith));
      copies_full = λ h k lo hi. elim (lt-or_le (copied_at s (turn s r a)) t) [
        | inl b ↦ elim (ga.copies_either k) [
          | inl e ↦ e ∙ good.copies_full b k lo hi
          | inr e ↦ e ∙ whole (λ c. ground (arith, copied_at_cases s (turn s r a)))
        ]
        | inr b ↦
            ga.copied (copy_now h b) k lo hi
            ∙ whole (λ c. ground (arith, copied_at_cases s (turn s r a)))
      ];
    }
      where
        at_turn :
            rounds s + 2 + gather_turn s r a < suc t → i ≤ gather_turn s r a → i ≡ gather_turn s r a
        at_turn h b = omega arith

        copy_now :
            copied_at s (turn s r a) < suc t
            → t ≤ copied_at s (turn s r a)
            → ((2 ≤ i) × (turn s r a ≡ i - 2))
              ⊎ ((i < rounds s) × ((gather_turn s r a ≡ i) × (i < s.per_rank)))
        copy_now h b = elim (copied_at_cases s (turn s r a)) [
          | inl (k, e) ↦ inl (omega arith, omega arith)
          | inr (k, e) ↦ inr (
            omega (arith, bound, segments_rounds s div),
            (ground (arith, gather_turn_cases s r a), omega (arith, bound)),
          )
        ]
