-- ===== src/Collective/Allreduce/Gathers.antt =====
-- gloo/allreduce.cc: an iteration of the second loop of `ring`, by the turn of the element.
use gloo.Prelude.{
  ℕ, ◌≡◌, refl, sym, ap, subst, ◌∙◌, ◌+◌, ◌-◌, ◌≤◌, ◌<◌, ◌≢◌, true, ◌⊎◌, inl, inr, List, [], ◌∷◌,
  ltb, leb, ltb→lt, arith,
}
use gloo.Collective.Ring.{set}
use gloo.Collective.Allreduce.{
  Segments, Action, Offsets, whenever, rounds, allgather_offsets, broadcast_previous, gather_next,
  allgather_iteration,
}
use gloo.Collective.Allreduce.Local.{Options, Buffers, act, perform}
use gloo.Collective.Allreduce.Cuts.{Divided, covers, turn}
use gloo.Collective.Allreduce.Turns.{gather_turn, gather_send, gather_recv}
use gloo.Collective.Allreduce.Elements.{covered_iff, local_broadcast-hit, local_broadcast_either}
use gloo.Collective.Allreduce.Performs.{
  perform-append, perform-previous, perform-parts, perform-whenever, covered_pos, set_same,
  set_other,
}

module _ {ℓ} {A : Type ℓ} (s : Segments) (div : Divided s) (o : Options A) (r a : ℕ) where
  -- What iteration `i` makes of the buffers `w`, at `a`.
  pub record Gathered (i : ℕ) (w v : Buffers A) : Type ℓ where
    pub out_kept : v.out ≡ w.out
    pub tmp_kept : v.tmp ≡ w.tmp
    pub posted :
        i < rounds s
        → gather_turn s r a ≡ i
        → v.sent (rounds s + i) (a - (allgather_offsets s r i).send_offset) ≡ w.out a
    pub sent_else : (j : ℕ) → (i < rounds s → j ≢ rounds s + i) → v.sent j ≡ w.sent j
    pub copies_either : (k : ℕ) → (v.copies k a ≡ w.copies k a) ⊎ (v.copies k a ≡ w.out a)
    pub copied :
        ((2 ≤ i) × (turn s r a ≡ i - 2))
          ⊎ ((i < rounds s) × ((gather_turn s r a ≡ i) × (i < s.per_rank)))
        → (k : ℕ) → 1 ≤ k
        → k < o.outputs
        → v.copies k a ≡ w.out a

  -- Buffers that differ in the other outputs at most; `P` says where those have the element.
  record Copied {ℓ'} (P : Type ℓ') (w v : Buffers A) : Type (ℓ ⊔ ℓ') where
    out_same : v.out ≡ w.out
    tmp_same : v.tmp ≡ w.tmp
    sent_same : v.sent ≡ w.sent
    either : (k : ℕ) → (v.copies k a ≡ w.copies k a) ⊎ (v.copies k a ≡ w.out a)
    here : P → (k : ℕ) → 1 ≤ k → k < o.outputs → v.copies k a ≡ w.out a

  module _ (hr : r < s.size) (ha : a < s.total_bytes) (i : ℕ) (hi : i < rounds s + 2) where
    abbrev previous : Buffers A → Buffers A
    previous w = perform o (whenever (leb 2 i) (broadcast_previous s r i)) w

    previous-Copied : (w : Buffers A) → Copied ((2 ≤ i) × (turn s r a ≡ i - 2)) w (previous w)
    unfolding broadcast_previous perform act
    previous-Copied w =
        perform-whenever (Copied ((2 ≤ i) × (turn s r a ≡ i - 2)) w) o (leb 2 i)
          (broadcast_previous s r i) w
          (λ l.
            perform-previous (Copied ((2 ≤ i) × (turn s r a ≡ i - 2)) w) o (ltb 0 prev.recv_length)
              (ltb 0 prev.send_length)
              (Action.wait_recv (rounds s + (i - 2))
                ∷ Action.broadcast_outputs prev.recv_offset prev.recv_length
                ∷ [])
              (rounds s + (i - 2)) w
              (λ _. record {
                out_same = refl;
                tmp_same = refl;
                sent_same = refl;
                either =
                    local_broadcast_either o prev.recv_offset prev.recv_length a w.out w.copies;
                here = λ (h, e).
                    local_broadcast-hit o prev.recv_offset prev.recv_length a (covered h e) w.out
                      w.copies;
              })
              (λ z. record {
                out_same = refl;
                tmp_same = refl;
                sent_same = refl;
                either = λ k. inl refl;
                here = λ (h, e).
                    absurd (covered_pos prev.recv_offset prev.recv_length a (covered h e) z);
              }))
          (λ l. record {
            out_same = refl;
            tmp_same = refl;
            sent_same = refl;
            either = λ k. inl refl;
            here = λ (h, e). absurd (ground arith);
          })
      where
        prev : Offsets
        prev = allgather_offsets s r (i - 2)

        covered : 2 ≤ i → turn s r a ≡ i - 2 → covers prev.recv_offset prev.recv_length a ≡ true
        covered h e = gather_recv s div r (i - 2) a hr (omega arith) ha ∙ ground arith

    abbrev next : Buffers A → Buffers A
    next w = perform o (whenever (ltb i (rounds s)) (gather_next s r i)) w

    -- The copies after the second part; the message is posted before them.
    abbrev Next : Buffers A → Buffers A → Type ℓ
    Next w v =
        Copied ((i < rounds s) × ((gather_turn s r a ≡ i) × (i < s.per_rank)))
          (record w { sent = v.sent }) v
        × ((i < rounds s
              → gather_turn s r a ≡ i
              → v.sent (rounds s + i) (a - (allgather_offsets s r i).send_offset) ≡ w.out a)
            × ((j : ℕ) → (i < rounds s → j ≢ rounds s + i) → v.sent j ≡ w.sent j))

    next-Copied : (w : Buffers A) → Next w (next w)
    unfolding gather_next perform act
    next-Copied w =
        perform-whenever (Next w) o (ltb i (rounds s)) (gather_next s r i) w
          (λ l.
            perform-parts (Next w) o (ltb 0 cur.recv_length)
              (Action.recv_out (rounds s + i) cur.recv_offset cur.recv_length ∷ []) rest w
              (λ _. after_recv (ltb→lt i (rounds s) l)) (λ _. after_recv (ltb→lt i (rounds s) l)))
          (λ l. unposted (λ h e. absurd (ground arith)))
      where
        cur : Offsets
        cur = allgather_offsets s r i

        rest : List Action
        rest = whenever (ltb 0 cur.send_length) (
            Action.send_out (rounds s + i) cur.send_offset cur.send_length
            ∷ whenever (ltb i s.per_rank)
                (Action.broadcast_outputs cur.send_offset cur.send_length ∷ []))

        unposted : (i < rounds s → gather_turn s r a ≢ i) → Next w w
        unposted n = (
          record {
            out_same = refl;
            tmp_same = refl;
            sent_same = refl;
            either = λ k. inl refl;
            here = λ (h, (e, l)). absurd (n h e);
          },
          (λ h e. absurd (n h e), λ j m. refl),
        )

        covered :
            i < rounds s → gather_turn s r a ≡ i → covers cur.send_offset cur.send_length a ≡ true
        covered h e = gather_send s div r i a hr h ha ∙ ground arith

        sending : Buffers A
        sending = record w { sent = set w.sent (rounds s + i) (λ j. w.out (cur.send_offset + j)) }

        sending_posted :
            i < rounds s
            → gather_turn s r a ≡ i
            → sending.sent (rounds s + i) (a - cur.send_offset) ≡ w.out a
        sending_posted h e =
            ap (λ f. f (a - cur.send_offset)) (set_same w.sent (rounds s + i) _)
            ∙ ap w.out (omega (arith, covered_iff cur.send_offset cur.send_length a (covered h e)))

        sending_else :
            i < rounds s → (j : ℕ) → (i < rounds s → j ≢ rounds s + i) → sending.sent j ≡ w.sent j
        sending_else h j n = set_other w.sent (rounds s + i) j _ (n h)

        after_recv : i < rounds s → Next w (perform o rest w)
        after_recv h =
            perform-whenever (Next w) o (ltb 0 cur.send_length) _ w
              (λ _.
                perform-whenever (Next w) o (ltb i s.per_rank)
                  (Action.broadcast_outputs cur.send_offset cur.send_length ∷ []) sending
                  (λ _. (
                    record {
                      out_same = refl;
                      tmp_same = refl;
                      sent_same = refl;
                      either =
                          local_broadcast_either o cur.send_offset cur.send_length a w.out w.copies;
                      here = λ (h', (e, l)).
                          local_broadcast-hit o cur.send_offset cur.send_length a (covered h' e)
                            w.out w.copies;
                    },
                    (sending_posted, sending_else h),
                  ))
                  (λ z. (
                    record {
                      out_same = refl;
                      tmp_same = refl;
                      sent_same = refl;
                      either = λ k. inl refl;
                      here = λ (h', (e, l)). absurd (ground arith);
                    },
                    (sending_posted, sending_else h),
                  )))
              (λ z.
                unposted (λ h' e. covered_pos cur.send_offset cur.send_length a (covered h' e) z))

    pub body-Gathered : (w : Buffers A) → Gathered i w (perform o (allgather_iteration s r i) w)
    unfolding allgather_iteration
    body-Gathered w =
        subst (Gathered i w)
          (sym (
            perform-append o (whenever (leb 2 i) (broadcast_previous s r i))
              (whenever (ltb i (rounds s)) (gather_next s r i)) w))
          (record {
            out_kept = second.0.out_same ∙ first.out_same;
            tmp_kept = second.0.tmp_same ∙ first.tmp_same;
            posted = λ h e. second.1.0 h e ∙ ap (λ f. f a) first.out_same;
            sent_else = λ j n. second.1.1 j n ∙ ap (λ f. f j) first.sent_same;
            copies_either = λ k. elim (second.0.either k) [
              | inl e ↦ elim (first.either k) [ inl e' ↦ inl (e ∙ e') | inr e' ↦ inr (e ∙ e') ]
              | inr e ↦ inr (e ∙ ap (λ f. f a) first.out_same)
            ];
            copied = λ h k lo hi. elim h [
              | inl p ↦ elim (second.0.either k) [
                | inl e ↦ e ∙ first.here p k lo hi
                | inr e ↦ e ∙ ap (λ f. f a) first.out_same
              ]
              | inr p ↦ second.0.here p k lo hi ∙ ap (λ f. f a) first.out_same
            ];
          })
      where
        first : Copied ((2 ≤ i) × (turn s r a ≡ i - 2)) w (previous w)
        first = previous-Copied w

        second : Next (previous w) (next (previous w))
        second = next-Copied (previous w)
