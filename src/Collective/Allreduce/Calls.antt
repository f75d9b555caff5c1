-- ===== src/Collective/Allreduce/Calls.antt =====
-- gloo/allreduce.cc: the receive and the send that an iteration of `ring` posts.
use gloo.Prelude.{
  ℕ, ◌≡◌, refl, sym, ap, ◌∙◌, ◌+◌, ◌%◌, List, [], ◌∷◌, ◌++◌, Bool, true, false, Option, none, some,
  ltb, ◌==◌, if◌then◌else◌,
}
use gloo.Collective.Allreduce.{
  Segments, Action, rounds, reduce_scatter_iteration, allgather_iteration, reduce_previous,
  scatter_next, broadcast_previous, gather_next, whenever, tmp_offset, reduce_scatter_offsets,
  allgather_offsets,
}
use gloo.Collective.Allreduce.Run.{Place, or_else, find_call, as_receive, as_send}

module _ {ℓ} {X : Type ℓ} where
  or_else-none : (x : Option X) → or_else x none ≡ x
  unfolding or_else
  or_else-none none = refl
  or_else-none (some x) = refl

  or_else_assoc : (x y z : Option X) → or_else (or_else x y) z ≡ or_else x (or_else y z)
  unfolding or_else
  or_else_assoc none y z = refl
  or_else_assoc (some x) y z = refl

  module _ (f : Action → Option X) where
    pub find_call-append :
        (xs ys : List Action) → find_call f (xs ++ ys) ≡ or_else (find_call f xs) (find_call f ys)
    unfolding find_call or_else
    find_call-append [] ys = refl
    find_call-append (x ∷ xs) ys =
        ap (or_else (f x)) (find_call-append xs ys)
        ∙ sym (or_else_assoc (f x) (find_call f xs) (find_call f ys))

    -- Actions under a test, of which none is such a call.
    no_calls :
        (b : Bool) (xs : List Action) → find_call f xs ≡ none → find_call f (whenever b xs) ≡ none
    unfolding whenever find_call
    no_calls true xs e = e
    no_calls false xs e = refl

    no_calls-append :
        (xs ys : List Action)
        → find_call f xs ≡ none
        → find_call f ys ≡ none
        → find_call f (xs ++ ys) ≡ none
    unfolding or_else
    no_calls-append xs ys e e' =
        find_call-append xs ys ∙ ap (λ x. or_else x (find_call f ys)) e ∙ e'

    pub skip :
        (xs ys : List Action) → find_call f xs ≡ none → find_call f (xs ++ ys) ≡ find_call f ys
    unfolding or_else
    skip xs ys e = find_call-append xs ys ∙ ap (λ x. or_else x (find_call f ys)) e

    pub skip_after :
        (xs ys : List Action) → find_call f ys ≡ none → find_call f (xs ++ ys) ≡ find_call f xs
    skip_after xs ys e =
        find_call-append xs ys ∙ ap (or_else (find_call f xs)) e ∙ or_else-none (find_call f xs)

find_call-whenever {ℓ} :
    {X : Type ℓ} (f : Action → Option X) (b : Bool) (xs : List Action)
    → find_call f (whenever b xs) ≡ (if b then find_call f xs else none)
unfolding whenever find_call
find_call-whenever f true xs = refl
find_call-whenever f false xs = refl

-- What stands under three tests that are not all met.
pub not_reached {ℓ} :
    {X : Type ℓ} (b c d : Bool) (x : X)
    → (b ≡ true → d ≡ false)
    → (if b then (if c then (if d then some x else none) else none) else none) ≡ none
not_reached false c d x h = refl
not_reached true false d x h = refl
not_reached true true d x h = rw (h refl) refl

module _ (s : Segments) (r k : ℕ) where
  pub scatter_receive :
      (t : ℕ)
      → find_call (as_receive k) (reduce_scatter_iteration s r t) ≡ (
          if ltb t (rounds s)
          then (if ltb 0 (reduce_scatter_offsets s r t).recv_length
              then (if t == k
                  then some (
                      Place.in_tmp
                        (tmp_offset s (t % 2))
                        (reduce_scatter_offsets s r t).recv_length)
                  else none)
              else none)
          else none)
  unfolding reduce_scatter_iteration reduce_previous scatter_next find_call as_receive or_else
  scatter_receive t =
      skip f (whenever _ _) _ (
        no_calls f _ _
          (no_calls-append f (whenever _ _) _ (no_calls f _ _ refl) (no_calls f _ _ refl)))
      ∙ find_call-whenever f _ _
      ∙ ap (λ x. if ltb t (rounds s) then x else none)
          (skip_after f (whenever _ _) _
              (no_calls f _ _ (no_calls-append f (whenever _ _) _ (no_calls f _ _ refl) refl))
            ∙ find_call-whenever f _ _
            ∙ ap (λ x. if ltb 0 (reduce_scatter_offsets s r t).recv_length then x else none)
                (or_else-none _))
    where
      f : Action → Option Place
      f = as_receive k

  pub gather_receive :
      (i : ℕ)
      → find_call (as_receive k) (allgather_iteration s r i) ≡ (
          if ltb i (rounds s)
          then (if ltb 0 (allgather_offsets s r i).recv_length
              then (if (rounds s + i) == k
                  then some (
                      Place.in_out
                        (allgather_offsets s r i).recv_offset
                        (allgather_offsets s r i).recv_length)
                  else none)
              else none)
          else none)
  unfolding allgather_iteration broadcast_previous gather_next find_call as_receive or_else
  gather_receive i =
      skip f (whenever _ _) _ (
        no_calls f _ _
          (no_calls-append f (whenever _ _) _ (no_calls f _ _ refl) (no_calls f _ _ refl)))
      ∙ find_call-whenever f _ _
      ∙ ap (λ x. if ltb i (rounds s) then x else none)
          (skip_after f (whenever _ _) _ (no_calls f _ _ (no_calls f _ _ refl))
            ∙ find_call-whenever f _ _
            ∙ ap (λ x. if ltb 0 (allgather_offsets s r i).recv_length then x else none)
                (or_else-none _))
    where
      f : Action → Option Place
      f = as_receive k

  pub scatter_send :
      (t : ℕ)
      → find_call (as_send k) (reduce_scatter_iteration s r t) ≡ (
          if ltb t (rounds s)
          then (if ltb 0 (reduce_scatter_offsets s r t).send_length
              then (if t == k then some (reduce_scatter_offsets s r t).send_length else none)
              else none)
          else none)
  unfolding reduce_scatter_iteration reduce_previous scatter_next find_call as_send or_else
  scatter_send t =
      skip f (whenever _ _) _ (
        no_calls f _ _
          (no_calls-append f (whenever _ _) _ (no_calls f _ _ refl) (no_calls f _ _ refl)))
      ∙ find_call-whenever f _ _
      ∙ ap (λ x. if ltb t (rounds s) then x else none)
          (skip f (whenever _ _) _ (no_calls f _ _ refl)
            ∙ find_call-whenever f _ _
            ∙ ap (λ x. if ltb 0 (reduce_scatter_offsets s r t).send_length then x else none)
                (skip f (whenever _ _) _ (no_calls f _ _ refl) ∙ or_else-none _))
    where
      f : Action → Option ℕ
      f = as_send k

  pub gather_send :
      (i : ℕ)
      → find_call (as_send k) (allgather_iteration s r i) ≡ (
          if ltb i (rounds s)
          then (if ltb 0 (allgather_offsets s r i).send_length
              then (if (rounds s + i) == k
                  then some (allgather_offsets s r i).send_length
                  else none)
              else none)
          else none)
  unfolding allgather_iteration broadcast_previous gather_next find_call as_send or_else
  gather_send i =
      skip f (whenever _ _) _ (
        no_calls f _ _
          (no_calls-append f (whenever _ _) _ (no_calls f _ _ refl) (no_calls f _ _ refl)))
      ∙ find_call-whenever f _ _
      ∙ ap (λ x. if ltb i (rounds s) then x else none)
          (skip f (whenever _ _) _ (no_calls f _ _ refl)
            ∙ find_call-whenever f _ _
            ∙ ap (λ x. if ltb 0 (allgather_offsets s r i).send_length then x else none)
                (ap (or_else _) (no_calls f _ _ refl) ∙ or_else-none _))
    where
      f : Action → Option ℕ
      f = as_send k
