-- ===== src/Collective/Allreduce/Unblocks.antt =====
-- gloo/allreduce.cc: what an iteration of `ring` waits for, and nothing else.
use gloo.Prelude.{
  ℕ, ◌≡◌, refl, sym, subst, ◌+◌, ◌-◌, ◌≤◌, ◌<◌, inl, inr, List, [], ◌∷◌, ◌++◌, Bool, true, false,
  leb, lt-or_le, leb→le, arith,
}
use gloo.Collective.Allreduce.{
  Segments, Action, rounds, loop_body, reduce_scatter_iteration, allgather_iteration,
  reduce_previous, scatter_next, broadcast_previous, gather_next, whenever,
}
use gloo.Collective.Allreduce.Run.{Unblocked, posted_at}
use gloo.Collective.Allreduce.Parts.{posted_at_cases}
use gloo.Collective.Allreduce.Waits.{loop_body_first, loop_body_second}

module _ (here there : ℕ) where
  append-Unblocked :
      (xs ys : List Action)
      → Unblocked here there xs
      → Unblocked here there ys
      → Unblocked here there (xs ++ ys)
  unfolding Unblocked
  append-Unblocked [] ys u v = v
  append-Unblocked (Action.reduce_inputs o n ∷ xs) ys u v = append-Unblocked xs ys u v
  append-Unblocked (Action.recv_tmp k o n ∷ xs) ys u v = append-Unblocked xs ys u v
  append-Unblocked (Action.recv_out k o n ∷ xs) ys u v = append-Unblocked xs ys u v
  append-Unblocked (Action.send_out k o n ∷ xs) ys u v = append-Unblocked xs ys u v
  append-Unblocked (Action.wait_recv k ∷ xs) ys (h, u) v = (h, append-Unblocked xs ys u v)
  append-Unblocked (Action.wait_send k ∷ xs) ys (h, u) v = (h, append-Unblocked xs ys u v)
  append-Unblocked (Action.reduce o f n ∷ xs) ys u v = append-Unblocked xs ys u v
  append-Unblocked (Action.broadcast_outputs o n ∷ xs) ys u v = append-Unblocked xs ys u v

  whenever-Unblocked :
      (b : Bool) (xs : List Action)
      → (b ≡ true → Unblocked here there xs)
      → Unblocked here there (whenever b xs)
  unfolding whenever Unblocked
  whenever-Unblocked true xs u = u refl
  whenever-Unblocked false xs u = tt

  -- An iteration waits for the two messages that are posted two iterations before.
  module _ (s : Segments) (r : ℕ) where
    scatter-Unblocked :
        (t : ℕ)
        → (2 ≤ t → (t - 2 < here) × (t - 2 < there))
        → Unblocked here there (reduce_scatter_iteration s r t)
    unfolding reduce_scatter_iteration reduce_previous scatter_next Unblocked
    scatter-Unblocked t h =
        append-Unblocked (whenever (leb 2 t) (reduce_previous s r t)) _
          (whenever-Unblocked (leb 2 t) (reduce_previous s r t) (λ l.
            append-Unblocked (whenever _ _) _
              (whenever-Unblocked _ _ (λ _. ((h (leb→le 2 t l)).0, tt)))
              (whenever-Unblocked _ _ (λ _. ((h (leb→le 2 t l)).1, tt)))))
          (whenever-Unblocked _ _ (λ _.
            append-Unblocked (whenever _ _) _ (whenever-Unblocked _ _ (λ _. tt)) (
              whenever-Unblocked _ _
                (λ _. append-Unblocked (whenever _ _) _ (whenever-Unblocked _ _ (λ _. tt)) tt))))

    gather-Unblocked :
        (i : ℕ)
        → (2 ≤ i → (rounds s + (i - 2) < here) × (rounds s + (i - 2) < there))
        → Unblocked here there (allgather_iteration s r i)
    unfolding allgather_iteration broadcast_previous gather_next Unblocked
    gather-Unblocked i h =
        append-Unblocked (whenever (leb 2 i) (broadcast_previous s r i)) _
          (whenever-Unblocked (leb 2 i) (broadcast_previous s r i) (λ l.
            append-Unblocked (whenever _ _) _
              (whenever-Unblocked _ _ (λ _. ((h (leb→le 2 i l)).0, tt)))
              (whenever-Unblocked _ _ (λ _. ((h (leb→le 2 i l)).1, tt)))))
          (whenever-Unblocked _ _ (λ _.
            append-Unblocked (whenever _ _) _ (whenever-Unblocked _ _ (λ _. tt))
              (whenever-Unblocked _ _ (λ _. whenever-Unblocked _ _ (λ _. tt)))))

    pub body-Unblocked :
        (t : ℕ)
        → ((k : ℕ) → posted_at s k + 2 ≡ t → (k < here) × (k < there))
        → Unblocked here there (loop_body s r t)
    body-Unblocked t h = elim (lt-or_le t (rounds s + 2)) [
      | inl l ↦
          subst (Unblocked here there) (sym (loop_body_first s r t l))
            (scatter-Unblocked t (λ g. h (t - 2) (ground (arith, posted_at_cases s (t - 2)))))
      | inr l ↦ subst (Unblocked here there) (sym (loop_body_second s r t l)) (
          gather-Unblocked (t - (rounds s + 2)) (λ g.
            h (rounds s + (t - (rounds s + 2) - 2))
              (ground (arith, posted_at_cases s (rounds s + (t - (rounds s + 2) - 2))))))
    ]
