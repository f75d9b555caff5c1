-- ===== src/Collective/Allreduce/Scatters.antt =====
-- gloo/allreduce.cc: what the first part of an iteration of the first loop does at one element.
use gloo.Prelude.{ℕ, ◌≡◌, refl, ap, ◌∙◌, ◌+◌, ◌-◌, ◌%◌, true, false, List, [], ◌∷◌, ltb}
use gloo.Collective.Allreduce.{
  Segments, Action, Offsets, tmp_offset, reduce_scatter_offsets, reduce_previous,
}
use gloo.Collective.Allreduce.Local.{Options, Buffers, act, perform}
use gloo.Collective.Allreduce.Cuts.{covers}
use gloo.Collective.Allreduce.Elements.{
  inputs_value, local_reduce-hit, local_reduce-miss, reduce_elements-hit, reduce_elements-miss,
}
use gloo.Collective.Allreduce.Performs.{perform-previous, covered_pos}
use Prim.Native.Nat.{◌∣◌}

-- Buffers that differ in the output at most, with the element `x` at `a`.
pub record Reduced {ℓ} {A : Type ℓ} (w v : Buffers A) (a : ℕ) (x : A) : Type ℓ where
  pub out_here : v.out a ≡ x
  pub copies_kept : v.copies ≡ w.copies
  pub tmp_kept : v.tmp ≡ w.tmp
  pub sent_kept : v.sent ≡ w.sent

module _ {ℓ} {A : Type ℓ} (s : Segments) (o : Options A) (r a : ℕ) (w : Buffers A) where
  abbrev pub Whole : (offset length : ℕ) → Type 0
  Whole offset length = (o.element_size ∣ offset) × (o.element_size ∣ length)

  module _ (t : ℕ) where
    abbrev prev : Offsets
    prev = reduce_scatter_offsets s r (t - 2)

    abbrev reductions : List Action
    reductions =
        Action.reduce_inputs prev.recv_offset prev.recv_length
        ∷ Action.wait_recv (t - 2)
        ∷ Action.reduce prev.recv_offset (tmp_offset s (t % 2)) prev.recv_length
        ∷ []

    pub reduce_previous-hit :
        covers
            (reduce_scatter_offsets s r (t - 2)).recv_offset
            (reduce_scatter_offsets s r (t - 2)).recv_length
            a
          ≡ true
        → Whole
            (reduce_scatter_offsets s r (t - 2)).recv_offset
            (reduce_scatter_offsets s r (t - 2)).recv_length
        → o.element_size ∣ a
        → Reduced w (perform o (reduce_previous s r t) w) a (
            o.op (inputs_value o o.inputs w.copies w.out a) (
              w.tmp
                (tmp_offset s (t % 2) + (a - (reduce_scatter_offsets s r (t - 2)).recv_offset))))
    unfolding reduce_previous perform act
    reduce_previous-hit h (wo, wl) wa =
        perform-previous (λ v. Reduced w v a value) o (ltb 0 prev.recv_length)
          (ltb 0 prev.send_length) reductions (t - 2) w (λ _. done)
          (λ e. absurd (covered_pos prev.recv_offset prev.recv_length a h e))
      where
        value : A
        value =
            o.op (inputs_value o o.inputs w.copies w.out a)
              (w.tmp (tmp_offset s (t % 2) + (a - prev.recv_offset)))

        done : Reduced w (perform o reductions w) a value
        done = record {
          out_here =
              reduce_elements-hit o prev.recv_offset prev.recv_length a h wo wl wa
                (tmp_offset s (t % 2)) _ _ w.tmp
              ∙ ap (λ x. o.op x (w.tmp (tmp_offset s (t % 2) + (a - prev.recv_offset))))
                  (local_reduce-hit o prev.recv_offset prev.recv_length a h wo wl wa o.inputs
                    w.copies w.out);
          copies_kept = refl;
          tmp_kept = refl;
          sent_kept = refl;
        }

    pub reduce_previous-miss :
        covers
            (reduce_scatter_offsets s r (t - 2)).recv_offset
            (reduce_scatter_offsets s r (t - 2)).recv_length
            a
          ≡ false
        → Reduced w (perform o (reduce_previous s r t) w) a (w.out a)
    unfolding reduce_previous perform act
    reduce_previous-miss h =
        perform-previous (λ v. Reduced w v a (w.out a)) o (ltb 0 prev.recv_length)
          (ltb 0 prev.send_length) reductions (t - 2) w (λ _. done) (λ _. same)
      where
        same : Reduced w w a (w.out a)
        same = record { out_here = refl; copies_kept = refl; tmp_kept = refl; sent_kept = refl }

        done : Reduced w (perform o reductions w) a (w.out a)
        done = record {
          out_here =
              reduce_elements-miss o prev.recv_offset prev.recv_length a (tmp_offset s (t % 2)) _ _
                w.tmp h
              ∙ local_reduce-miss o prev.recv_offset prev.recv_length a o.inputs w.copies w.out h;
          copies_kept = refl;
          tmp_kept = refl;
          sent_kept = refl;
        }
