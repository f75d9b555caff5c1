-- ===== src/Collective/Allreduce/Posted.antt =====
-- gloo/allreduce.cc: the receives and sends that a rank of `ring` has posted by an iteration.
use gloo.Prelude.{
  ℕ, zero, suc, ◌≡◌, refl, sym, ap, ◌∙◌, ◌+◌, ◌-◌, ◌*◌, ◌≤◌, ◌<◌, ◌≢◌, ◌⊎◌, inl, inr, true, false,
  Option, none, some, ltb, ◌==◌, lt-or_le, lt→ltb, le→ltb, arith,
}
use gloo.Collective.Allreduce.{Segments, Action, rounds, loop_body}
use gloo.Collective.Allreduce.Run.{
  Place, place_length, or_else, find_call, as_receive, as_send, actions_before, posted_receive,
  posted_send, posted_at,
}
use mathlib.Core.Option.{none-ne-some}
use gloo.Collective.Allreduce.Parts.{posted_at_cases}
use gloo.Collective.Allreduce.Waits.{loop_body_first, loop_body_second}
use gloo.Collective.Allreduce.Places.{if_any, place, send_length}
use gloo.Collective.Allreduce.Calls.{
  skip, skip_after, scatter_receive, gather_receive, scatter_send, gather_send, not_reached,
}

module _ (s : Segments) (r k : ℕ) where
  itself : (j : ℕ) → (j == j) ≡ true
  itself j = ground arith

  back : rounds s ≤ k → ((rounds s + (k - rounds s)) == k) ≡ true
  back g = ground arith

  -- No other iteration posts message `k`, and none posts one that the loops do not have.
  not_first :
      (t : ℕ)
      → (posted_at s k ≢ t) ⊎ (2 * rounds s ≤ k)
      → ltb t (rounds s) ≡ true
      → (t == k) ≡ false
  not_first t h b = ground (arith, posted_at_cases s k, h)

  not_second :
      (t : ℕ)
      → (posted_at s k ≢ t) ⊎ (2 * rounds s ≤ k)
      → rounds s + 2 ≤ t
      → ltb (t - (rounds s + 2)) (rounds s) ≡ true
      → ((rounds s + (t - (rounds s + 2))) == k) ≡ false
  not_second t h g b = ground (arith, posted_at_cases s k, h)

  body_receive :
      (t : ℕ)
      → k < 2 * rounds s
      → posted_at s k ≡ t
      → find_call (as_receive k) (loop_body s r t)
        ≡ if_any (place_length (place s r k)) (place s r k)
  unfolding if_any place place_length
  body_receive t h e = elim (posted_at_cases s k) [
    | inl (l, p) ↦
        let same : t ≡ k = omega arith in
        ap (find_call (as_receive k)) (loop_body_first s r t (omega arith))
        ∙ scatter_receive s r k t
        ∙ rw (same, lt→ltb k (rounds s) l, itself k) refl
    | inr (g, p) ↦
        let same : t - (rounds s + 2) ≡ k - rounds s = omega arith in
        ap (find_call (as_receive k)) (loop_body_second s r t (omega arith))
        ∙ gather_receive s r k (t - (rounds s + 2))
        ∙ rw (same, le→ltb k (rounds s) g, lt→ltb (k - rounds s) (rounds s) (omega arith), back g)
            refl
  ]

  other_receive :
      (t : ℕ)
      → (posted_at s k ≢ t) ⊎ (2 * rounds s ≤ k)
      → find_call (as_receive k) (loop_body s r t) ≡ none
  other_receive t h = elim (lt-or_le t (rounds s + 2)) [
    | inl l ↦
        ap (find_call (as_receive k)) (loop_body_first s r t l)
        ∙ scatter_receive s r k t
        ∙ not_reached (ltb t (rounds s)) _ (t == k) _ (λ b. not_first t h b)
    | inr g ↦
        ap (find_call (as_receive k)) (loop_body_second s r t g)
        ∙ gather_receive s r k (t - (rounds s + 2))
        ∙ not_reached (ltb (t - (rounds s + 2)) (rounds s)) _
            ((rounds s + (t - (rounds s + 2))) == k) _ (λ b. not_second t h g b)
  ]

  body_send :
      (t : ℕ)
      → k < 2 * rounds s
      → posted_at s k ≡ t
      → find_call (as_send k) (loop_body s r t) ≡ if_any (send_length s r k) (send_length s r k)
  unfolding if_any send_length
  body_send t h e = elim (posted_at_cases s k) [
    | inl (l, p) ↦
        let same : t ≡ k = omega arith in
        ap (find_call (as_send k)) (loop_body_first s r t (omega arith))
        ∙ scatter_send s r k t
        ∙ rw (same, lt→ltb k (rounds s) l, itself k) refl
    | inr (g, p) ↦
        let same : t - (rounds s + 2) ≡ k - rounds s = omega arith in
        ap (find_call (as_send k)) (loop_body_second s r t (omega arith))
        ∙ gather_send s r k (t - (rounds s + 2))
        ∙ rw (same, le→ltb k (rounds s) g, lt→ltb (k - rounds s) (rounds s) (omega arith), back g)
            refl
  ]

  other_send :
      (t : ℕ)
      → (posted_at s k ≢ t) ⊎ (2 * rounds s ≤ k)
      → find_call (as_send k) (loop_body s r t) ≡ none
  other_send t h = elim (lt-or_le t (rounds s + 2)) [
    | inl l ↦
        ap (find_call (as_send k)) (loop_body_first s r t l)
        ∙ scatter_send s r k t
        ∙ not_reached (ltb t (rounds s)) _ (t == k) _ (λ b. not_first t h b)
    | inr g ↦
        ap (find_call (as_send k)) (loop_body_second s r t g)
        ∙ gather_send s r k (t - (rounds s + 2))
        ∙ not_reached (ltb (t - (rounds s + 2)) (rounds s)) _
            ((rounds s + (t - (rounds s + 2))) == k) _ (λ b. not_second t h g b)
  ]

  -- By iteration `t`, from what each iteration posts.
  by_iteration {ℓ} :
      {X : Type ℓ} (f : Action → Option X) (x : Option X)
      → find_call f (loop_body s r (posted_at s k)) ≡ x
      → ((t : ℕ) → posted_at s k ≢ t → find_call f (loop_body s r t) ≡ none)
      → (t : ℕ)
      → (posted_at s k < t → find_call f (actions_before s r t) ≡ x)
        × (t ≤ posted_at s k → find_call f (actions_before s r t) ≡ none)
  unfolding actions_before find_call or_else
  by_iteration f x now other zero = (λ h. absurd (omega arith), λ h. refl)
  by_iteration f x now other (suc t) =
      let (after, before) = by_iteration f x now other t in
      (
        λ h. elim (lt-or_le (posted_at s k) t) [
          | inl l ↦
              skip_after f (actions_before s r t) _ (other t (λ e. absurd (omega arith))) ∙ after l
          | inr g ↦
              let e : posted_at s k ≡ t = omega arith in
              skip f (actions_before s r t) _ (before g)
              ∙ ap (λ j. find_call f (loop_body s r j)) (sym e)
              ∙ now
        ],
        λ h.
            skip f (actions_before s r t) _ (before (omega arith))
            ∙ other t (λ e. absurd (omega arith)),
      )

  pub receive_posted :
      (t : ℕ)
      → k < 2 * rounds s
      → posted_at s k < t
      → posted_receive s r t k ≡ if_any (place_length (place s r k)) (place s r k)
  unfolding posted_receive
  receive_posted t h l =
      (by_iteration (as_receive k) _ (body_receive _ h refl) (λ j n. other_receive j (inl n)) t).0 l

  pub send_posted :
      (t : ℕ)
      → k < 2 * rounds s
      → posted_at s k < t
      → posted_send s r t k ≡ if_any (send_length s r k) (send_length s r k)
  unfolding posted_send
  send_posted t h l =
      (by_iteration (as_send k) _ (body_send _ h refl) (λ j n. other_send j (inl n)) t).0 l

  -- A call that has been made is that of an iteration begun.
  pub receive_made :
      (t : ℕ) (x : Place)
      → posted_receive s r t k ≡ some x
      → (k < 2 * rounds s) × (posted_at s k < t)
  unfolding posted_receive
  receive_made t x e = elim (lt-or_le k (2 * rounds s)) [
    | inl l ↦ elim (lt-or_le (posted_at s k) t) [
      | inl b ↦ (l, b)
      | inr g ↦ absurd (
          none-ne-some x
            (sym ((by_iteration (as_receive k) _ refl (λ j n. other_receive j (inl n)) t).1 g) ∙ e))
    ]
    | inr g ↦ absurd (none-ne-some x (sym (never g) ∙ e))
  ]
    where
      never : 2 * rounds s ≤ k → find_call (as_receive k) (actions_before s r t) ≡ none
      never g = elim (lt-or_le (posted_at s k) t) [
        | inl b ↦
            (by_iteration (as_receive k) none (other_receive _ (inr g))
                (λ j n. other_receive j (inr g)) t).0
              b
        | inr b ↦
            (by_iteration (as_receive k) none (other_receive _ (inr g))
                (λ j n. other_receive j (inr g)) t).1
              b
      ]

  pub send_made : (t n : ℕ) → posted_send s r t k ≡ some n → posted_at s k < t
  unfolding posted_send
  send_made t n e = elim (lt-or_le (posted_at s k) t) [
    | inl b ↦ b
    | inr g ↦ absurd (
        none-ne-some n
          (sym ((by_iteration (as_send k) _ refl (λ j n. other_send j (inl n)) t).1 g) ∙ e))
  ]
