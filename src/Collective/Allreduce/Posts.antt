-- ===== src/Collective/Allreduce/Posts.antt =====
-- gloo/allreduce.cc: what the second part of an iteration of the first loop does at one element.
use gloo.Prelude.{
  ℕ, ◌≡◌, refl, sym, ap, ◌∙◌, ◌+◌, ◌-◌, ◌%◌, ◌≢◌, true, false, [], ◌∷◌, ◌++◌, ltb, arith,
}
use gloo.Collective.Allreduce.{
  Segments, Action, Offsets, tmp_offset, whenever, reduce_scatter_offsets, scatter_next,
}
use gloo.Collective.Allreduce.Local.{Options, Buffers, local_reduce, act, perform}
use gloo.Collective.Allreduce.Cuts.{covers}
use gloo.Collective.Allreduce.Elements.{
  inputs_value, covered_iff, local_reduce-hit, local_reduce-miss,
}
use gloo.Collective.Allreduce.Performs.{
  perform-parts, perform-whenever, covered_pos, true-ne_false, set_same, set_other,
}
use Prim.Native.Nat.{◌∣◌}

-- Buffers that differ in the output and in the message `k` at most.
pub record Posted {ℓ} {A : Type ℓ} (w v : Buffers A) (a : ℕ) (x : A) (k : ℕ) : Type ℓ where
  pub out_here : v.out a ≡ x
  pub copies_kept : v.copies ≡ w.copies
  pub tmp_kept : v.tmp ≡ w.tmp
  pub sent_else : (j : ℕ) → j ≢ k → v.sent j ≡ w.sent j

module _ {ℓ} {A : Type ℓ} (s : Segments) (o : Options A) (r a : ℕ) (w : Buffers A) where
  module _ (t : ℕ) where
    abbrev cur : Offsets
    cur = reduce_scatter_offsets s r t

    -- The two parts of `scatter_next`.
    scatter_next-parts {ℓ'} :
        (P : Buffers A → Type ℓ')
        → (ltb 0 cur.send_length ≡ true
            → ltb t s.per_rank ≡ true
            → P (
                perform o
                  (Action.reduce_inputs cur.send_offset cur.send_length
                    ∷ Action.send_out t cur.send_offset cur.send_length
                    ∷ [])
                  w))
        → (ltb 0 cur.send_length ≡ true
            → ltb t s.per_rank ≡ false
            → P (perform o (Action.send_out t cur.send_offset cur.send_length ∷ []) w))
        → (ltb 0 cur.send_length ≡ false → P w)
        → P (perform o (scatter_next s r t) w)
    unfolding scatter_next perform act
    scatter_next-parts P first later none_ =
        perform-parts P o (ltb 0 cur.recv_length)
          (Action.recv_tmp t (tmp_offset s (t % 2)) cur.recv_length ∷ [])
          (whenever (ltb 0 cur.send_length) (
            whenever (ltb t s.per_rank) (Action.reduce_inputs cur.send_offset cur.send_length ∷ [])
            ++ (Action.send_out t cur.send_offset cur.send_length ∷ [])))
          w (λ _. rest) (λ _. rest)
      where
        rest : P (
            perform o
              (whenever (ltb 0 cur.send_length) (
                whenever
                  (ltb t s.per_rank)
                  (Action.reduce_inputs cur.send_offset cur.send_length ∷ [])
                ++ (Action.send_out t cur.send_offset cur.send_length ∷ [])))
              w)
        rest =
            perform-whenever P o (ltb 0 cur.send_length) _ w
              (λ e.
                perform-parts P o (ltb t s.per_rank)
                  (Action.reduce_inputs cur.send_offset cur.send_length ∷ [])
                  (Action.send_out t cur.send_offset cur.send_length ∷ []) w (first e) (later e))
              none_

    pub scatter_next-miss :
        covers
            (reduce_scatter_offsets s r t).send_offset
            (reduce_scatter_offsets s r t).send_length
            a
          ≡ false
        → Posted w (perform o (scatter_next s r t) w) a (w.out a) t
    unfolding perform act
    scatter_next-miss h =
        scatter_next-parts (λ v. Posted w v a (w.out a) t)
          (λ _ _. record {
            out_here =
                local_reduce-miss o cur.send_offset cur.send_length a o.inputs w.copies w.out h;
            copies_kept = refl;
            tmp_kept = refl;
            sent_else = λ j n. set_other w.sent t j _ n;
          })
          (λ _ _. record {
            out_here = refl;
            copies_kept = refl;
            tmp_kept = refl;
            sent_else = λ j n. set_other w.sent t j _ n;
          })
          (λ _. record {
            out_here = refl;
            copies_kept = refl;
            tmp_kept = refl;
            sent_else = λ j n. refl;
          })

    module _ (h : covers cur.send_offset cur.send_length a ≡ true) where
      send_here : (out : ℕ → A) → out (cur.send_offset + (a - cur.send_offset)) ≡ out a
      send_here out = ap out (omega (arith, covered_iff cur.send_offset cur.send_length a h))

      pub scatter_next-later :
          ltb t s.per_rank ≡ false
          → Posted w (perform o (scatter_next s r t) w) a (w.out a) t
            × ((perform o (scatter_next s r t) w).sent t (a - cur.send_offset) ≡ w.out a)
      unfolding perform act
      scatter_next-later l =
          scatter_next-parts
            (λ v. Posted w v a (w.out a) t × (v.sent t (a - cur.send_offset) ≡ w.out a))
            (λ _ e. absurd (true-ne_false (sym e ∙ l)))
            (λ _ _. (
              record {
                out_here = refl;
                copies_kept = refl;
                tmp_kept = refl;
                sent_else = λ j n. set_other w.sent t j _ n;
              },
              ap (λ f. f (a - cur.send_offset)) (set_same w.sent t _) ∙ send_here w.out,
            ))
            (λ e. absurd (covered_pos cur.send_offset cur.send_length a h e))

      pub scatter_next-first :
          ltb t s.per_rank ≡ true
          → (o.element_size ∣ cur.send_offset) × (o.element_size ∣ cur.send_length)
          → o.element_size ∣ a
          → Posted w
              (perform o (scatter_next s r t) w)
              a
              (inputs_value o o.inputs w.copies w.out a)
              t
            × ((perform o (scatter_next s r t) w).sent t (a - cur.send_offset)
                ≡ inputs_value o o.inputs w.copies w.out a)
      unfolding perform act
      scatter_next-first l (wo, wl) wa =
          scatter_next-parts
            (λ v.
              Posted w v a (inputs_value o o.inputs w.copies w.out a) t
              × (v.sent t (a - cur.send_offset) ≡ inputs_value o o.inputs w.copies w.out a))
            (λ _ _. (
              record {
                out_here = prepared;
                copies_kept = refl;
                tmp_kept = refl;
                sent_else = λ j n. set_other w.sent t j _ n;
              },
              ap (λ f. f (a - cur.send_offset)) (set_same w.sent t _)
                  ∙ send_here
                      (local_reduce o cur.send_offset cur.send_length o.inputs w.copies w.out)
                  ∙ prepared,
            ))
            (λ _ e. absurd (true-ne_false (sym l ∙ e)))
            (λ e. absurd (covered_pos cur.send_offset cur.send_length a h e))
        where
          prepared :
              local_reduce o cur.send_offset cur.send_length o.inputs w.copies w.out a
              ≡ inputs_value o o.inputs w.copies w.out a
          prepared =
              local_reduce-hit o cur.send_offset cur.send_length a h wo wl wa o.inputs w.copies
                w.out
