-- ===== src/Collective/Allreduce/Scattered.antt =====
-- gloo/allreduce.cc: an iteration of the first loop of `ring`, by the turn of the element.
use gloo.Prelude.{
  ℕ, ◌≡◌, refl, sym, ap, subst, ◌∙◌, ◌+◌, ◌-◌, ◌%◌, ◌≤◌, ◌<◌, ◌≢◌, true, false, ◌⊎◌, inl, inr, ltb,
  leb, ◌==◌, lt-or_le, leb→le, ltb→lt, lt→ltb, le→ltb, arith,
}
use gloo.Collective.Allreduce.{
  Segments, tmp_offset, whenever, rounds, reduce_scatter_offsets, reduce_previous, scatter_next,
  reduce_scatter_iteration,
}
use gloo.Collective.Allreduce.Local.{Options, Buffers, perform}
use gloo.Collective.Allreduce.Cuts.{Divided, covers, turn, segments_rounds, segment_pos}
use gloo.Collective.Allreduce.Turns.{scatter_send, scatter_recv, scatter_send-dvd, scatter_recv-dvd}
use gloo.Collective.Allreduce.Elements.{inputs_value, inputs_value_same}
use gloo.Collective.Allreduce.Performs.{perform-append, perform-whenever}
use gloo.Collective.Allreduce.Scatters.{Reduced, reduce_previous-hit, reduce_previous-miss}
use gloo.Collective.Allreduce.Posts.{
  Posted, scatter_next-miss, scatter_next-first, scatter_next-later,
}
use Prim.Native.Nat.{◌∣◌}

module _ {ℓ} {A : Type ℓ} (s : Segments) (div : Divided s) (o : Options A) (r a : ℕ) where
  -- What iteration `t` makes of the buffers `w`, at `a`.
  pub record Scattered (t : ℕ) (w v : Buffers A) : Type ℓ where
    pub reduced :
        2 ≤ t
        → turn s r a ≡ t - 2 + s.per_rank
        → v.out a
          ≡ o.op (inputs_value o o.inputs w.copies w.out a) (
              w.tmp (tmp_offset s (t % 2) + (a - (reduce_scatter_offsets s r (t - 2)).recv_offset)))
    pub prepared :
        t < s.per_rank → turn s r a ≡ t → v.out a ≡ inputs_value o o.inputs w.copies w.out a
    pub untouched :
        (2 ≤ t → turn s r a ≢ t - 2 + s.per_rank)
        → (t < s.per_rank → turn s r a ≢ t)
        → v.out a ≡ w.out a
    pub posted :
        t < rounds s
        → turn s r a ≡ t
        → v.sent t (a - (reduce_scatter_offsets s r t).send_offset) ≡ v.out a
    pub sent_else : (j : ℕ) → ((t < rounds s) → j ≢ t) → v.sent j ≡ w.sent j
    pub copies_kept : v.copies ≡ w.copies
    pub tmp_kept : v.tmp ≡ w.tmp

  module _ (same : o.element_size ≡ s.element_size) (hr : r < s.size) (ha : a < s.total_bytes)
      (wa : o.element_size ∣ a) (t : ℕ) (ht : t < rounds s + 2) where
    pos : 0 < s.segment_bytes
    pos = segment_pos s div a ha

    to_options :
        (x y : ℕ)
        → (s.element_size ∣ x) × (s.element_size ∣ y)
        → (o.element_size ∣ x) × (o.element_size ∣ y)
    to_options x y h = subst (λ e. (e ∣ x) × (e ∣ y)) (sym same) h

    recv_test :
        2 ≤ t
        → covers
            (reduce_scatter_offsets s r (t - 2)).recv_offset
            (reduce_scatter_offsets s r (t - 2)).recv_length
            a
          ≡ (turn s r a == t - 2 + s.per_rank)
    recv_test h = scatter_recv s div r (t - 2) a hr (omega arith) ha

    abbrev previous : Buffers A → Buffers A
    previous w = perform o (whenever (leb 2 t) (reduce_previous s r t)) w

    previous_recv :
        (w : Buffers A)
        → 2 ≤ t
        → turn s r a ≡ t - 2 + s.per_rank
        → Reduced w (previous w) a (
            o.op (inputs_value o o.inputs w.copies w.out a) (
              w.tmp
                (tmp_offset s (t % 2) + (a - (reduce_scatter_offsets s r (t - 2)).recv_offset))))
    previous_recv w h e =
        perform-whenever
          (λ v. Reduced w v a (
            o.op (inputs_value o o.inputs w.copies w.out a) (
              w.tmp
                (tmp_offset s (t % 2) + (a - (reduce_scatter_offsets s r (t - 2)).recv_offset)))))
          o (leb 2 t) (reduce_previous s r t) w
          (λ _.
            reduce_previous-hit s o r a w t (recv_test h ∙ ground arith)
              (to_options _ _ (scatter_recv-dvd s div r (t - 2) hr (omega arith) pos)) wa)
          (λ l. absurd (ground arith))

    previous_else :
        (w : Buffers A)
        → (2 ≤ t → turn s r a ≢ t - 2 + s.per_rank)
        → Reduced w (previous w) a (w.out a)
    previous_else w n =
        perform-whenever (λ v. Reduced w v a (w.out a)) o (leb 2 t) (reduce_previous s r t) w
          (λ l.
            reduce_previous-miss s o r a w t
              (recv_test (leb→le 2 t l) ∙ not_here (leb→le 2 t l) (n (leb→le 2 t l))))
          (λ _. record { out_here = refl; copies_kept = refl; tmp_kept = refl; sent_kept = refl })
      where
        not_here :
            2 ≤ t → turn s r a ≢ t - 2 + s.per_rank → (turn s r a == t - 2 + s.per_rank) ≡ false
        not_here h n = ground arith

    abbrev next : Buffers A → Buffers A
    next w = perform o (whenever (ltb t (rounds s)) (scatter_next s r t)) w

    send_test :
        t < rounds s
        → covers
            (reduce_scatter_offsets s r t).send_offset
            (reduce_scatter_offsets s r t).send_length
            a
          ≡ (turn s r a == t)
    send_test h = scatter_send s div r t a hr h ha

    next_else :
        (w : Buffers A)
        → (t < rounds s → turn s r a ≢ t)
        → Posted w (next w) a (w.out a) t × (rounds s ≤ t → (next w).sent t ≡ w.sent t)
    next_else w n =
        perform-whenever (λ v. Posted w v a (w.out a) t × (rounds s ≤ t → v.sent t ≡ w.sent t)) o
          (ltb t (rounds s)) (scatter_next s r t) w
          (λ l. (
            scatter_next-miss s o r a w t
                (send_test (ltb→lt t (rounds s) l) ∙ not_here (n (ltb→lt t (rounds s) l))),
            λ g. absurd (omega (arith, ltb→lt t (rounds s) l)),
          ))
          (λ _. (
            record {
              out_here = refl;
              copies_kept = refl;
              tmp_kept = refl;
              sent_else = λ j m. refl;
            },
            λ _. refl,
          ))
      where
        not_here : turn s r a ≢ t → (turn s r a == t) ≡ false
        not_here n = ground arith

    module _ (h : t < rounds s) (e : turn s r a ≡ t) where
      here :
          covers
            (reduce_scatter_offsets s r t).send_offset
            (reduce_scatter_offsets s r t).send_length
            a
          ≡ true
      here = send_test h ∙ ground arith

      next_first :
          (w : Buffers A)
          → t < s.per_rank
          → Posted w (next w) a (inputs_value o o.inputs w.copies w.out a) t
            × ((next w).sent t (a - (reduce_scatter_offsets s r t).send_offset)
                ≡ inputs_value o o.inputs w.copies w.out a)
      next_first w l =
          perform-whenever
            (λ v.
              Posted w v a (inputs_value o o.inputs w.copies w.out a) t
              × (v.sent t (a - (reduce_scatter_offsets s r t).send_offset)
                  ≡ inputs_value o o.inputs w.copies w.out a))
            o (ltb t (rounds s)) (scatter_next s r t) w
            (λ _.
              scatter_next-first s o r a w t here (lt→ltb t s.per_rank l)
                (to_options _ _ (scatter_send-dvd s div r t hr h pos)) wa)
            (λ l. absurd (ground arith))

      next_later :
          (w : Buffers A)
          → s.per_rank ≤ t
          → Posted w (next w) a (w.out a) t
            × ((next w).sent t (a - (reduce_scatter_offsets s r t).send_offset) ≡ w.out a)
      next_later w l =
          perform-whenever
            (λ v.
              Posted w v a (w.out a) t
              × (v.sent t (a - (reduce_scatter_offsets s r t).send_offset) ≡ w.out a))
            o (ltb t (rounds s)) (scatter_next s r t) w
            (λ _. scatter_next-later s o r a w t here (le→ltb t s.per_rank l))
            (λ l. absurd (ground arith))

    cases :
        (t < rounds s → turn s r a ≢ t)
        ⊎ (((t < rounds s) × (turn s r a ≡ t)) × ((t < s.per_rank) ⊎ (s.per_rank ≤ t)))
    cases = ground arith

    next_any : (w : Buffers A) → (x : A) × Posted w (next w) a x t
    next_any w = elim cases [
      | inl n ↦ (w.out a, (next_else w n).0)
      | inr ((h, e), inl l) ↦ (inputs_value o o.inputs w.copies w.out a, (next_first h e w l).0)
      | inr ((h, e), inr l) ↦ (w.out a, (next_later h e w l).0)
    ]

    next_kept : (w : Buffers A) → (t < s.per_rank → turn s r a ≢ t) → (next w).out a ≡ w.out a
    next_kept w n = elim cases [
      | inl m ↦ (next_else w m).0.out_here
      | inr ((h, e), inl l) ↦ absurd (n l e)
      | inr ((h, e), inr l) ↦ (next_later h e w l).0.out_here
    ]

    next_posted :
        (w : Buffers A)
        → t < rounds s
        → turn s r a ≡ t
        → (next w).sent t (a - (reduce_scatter_offsets s r t).send_offset) ≡ (next w).out a
    next_posted w h e = elim (lt-or_le t s.per_rank) [
      | inl l ↦ (next_first h e w l).1 ∙ sym (next_first h e w l).0.out_here
      | inr l ↦ (next_later h e w l).1 ∙ sym (next_later h e w l).0.out_here
    ]

    next_sent : (w : Buffers A) (j : ℕ) → (t < rounds s → j ≢ t) → (next w).sent j ≡ w.sent j
    next_sent w j n = elim (same_or j) [
      | inl e ↦
          ap (next w).sent e ∙ (next_else w (λ h. absurd (n h e))).1 (past e) ∙ ap w.sent (sym e)
      | inr m ↦ (next_any w).1.sent_else j m
    ]
      where
        same_or : (j : ℕ) → (j ≡ t) ⊎ (j ≢ t)
        same_or j = ground arith

        past : j ≡ t → rounds s ≤ t
        past e = ground (arith, n)

    pub body-Scattered :
        (w : Buffers A) → Scattered t w (perform o (reduce_scatter_iteration s r t) w)
    unfolding reduce_scatter_iteration
    body-Scattered w =
        subst (Scattered t w)
          (sym (
            perform-append o (whenever (leb 2 t) (reduce_previous s r t))
              (whenever (ltb t (rounds s)) (scatter_next s r t)) w))
          (record {
            reduced = λ h e.
                next_kept u (λ l e'. absurd (omega (arith, div.pairs)))
                ∙ (previous_recv w h e).out_here;
            prepared = λ l e.
                (next_first (omega (arith, segments_rounds s div)) e u l).0.out_here
                ∙ inputs_value_same o u.copies w.copies u.out w.out a o.inputs
                    (previous_else w (λ k e'. absurd (omega (arith, div.pairs)))).out_here
                    (λ i. ap (λ c. c i a) copies_kept_);
            untouched = λ n m. next_kept u m ∙ (previous_else w n).out_here;
            posted = next_posted u;
            sent_else = λ j n. next_sent u j n ∙ ap (λ f. f j) sent_kept_;
            copies_kept = (next_any u).1.copies_kept ∙ copies_kept_;
            tmp_kept = (next_any u).1.tmp_kept ∙ tmp_kept_;
          })
      where
        u : Buffers A
        u = previous w

        Kept : Type ℓ
        Kept = (x : A) × Reduced w u a x

        kept : Kept
        kept = elim turn_cases [
          | inl (h, e) ↦ (_, previous_recv w h e)
          | inr n ↦ (_, previous_else w n)
        ]
          where
            turn_cases :
                ((2 ≤ t) × (turn s r a ≡ t - 2 + s.per_rank))
                ⊎ (2 ≤ t → turn s r a ≢ t - 2 + s.per_rank)
            turn_cases = ground arith

        sent_kept_ : u.sent ≡ w.sent
        sent_kept_ = kept.1.sent_kept

        copies_kept_ : u.copies ≡ w.copies
        copies_kept_ = kept.1.copies_kept

        tmp_kept_ : u.tmp ≡ w.tmp
        tmp_kept_ = kept.1.tmp_kept
