-- ===== src/Collective/Allreduce/Performs.antt =====
-- gloo/allreduce.cc: what an iteration of either loop of `ring` does at the address of one element.
use gloo.Prelude.{
  ℕ, ◌≡◌, refl, sym, subst, ◌≢◌, Bool, true, false, inl, inr, List, [], ◌∷◌, ◌++◌, ltb, Bool-cases,
  arith,
}
use gloo.Collective.Ring.{set}
use gloo.Collective.Ring.Invariant.{set_cases}
use gloo.Collective.Allreduce.{Action, whenever}
use gloo.Collective.Allreduce.Local.{Options, Buffers, act, perform}
use gloo.Collective.Allreduce.Run.{Unblocked}
use gloo.Collective.Allreduce.Cuts.{covers}
use gloo.Collective.Allreduce.Elements.{covered_iff}

pub Unblocked-append :
    (here there : ℕ) (xs ys : List Action)
    → Unblocked here there (xs ++ ys)
    → Unblocked here there xs × Unblocked here there ys
unfolding Unblocked
Unblocked-append here there [] ys u = (tt, u)
Unblocked-append here there (Action.reduce_inputs o n ∷ xs) ys u =
    Unblocked-append here there xs ys u
Unblocked-append here there (Action.recv_tmp k o n ∷ xs) ys u = Unblocked-append here there xs ys u
Unblocked-append here there (Action.recv_out k o n ∷ xs) ys u = Unblocked-append here there xs ys u
Unblocked-append here there (Action.send_out k o n ∷ xs) ys u = Unblocked-append here there xs ys u
Unblocked-append here there (Action.wait_recv k ∷ xs) ys (h, u) =
    let (v, w) = Unblocked-append here there xs ys u in ((h, v), w)
Unblocked-append here there (Action.wait_send k ∷ xs) ys (h, u) =
    let (v, w) = Unblocked-append here there xs ys u in ((h, v), w)
Unblocked-append here there (Action.reduce o f n ∷ xs) ys u = Unblocked-append here there xs ys u
Unblocked-append here there (Action.broadcast_outputs o n ∷ xs) ys u =
    Unblocked-append here there xs ys u

pub Unblocked-whenever :
    (here there : ℕ) (b : Bool) (xs : List Action)
    → Unblocked here there (whenever b xs)
    → b ≡ true
    → Unblocked here there xs
unfolding whenever
Unblocked-whenever here there b xs u h = subst (λ c. Unblocked here there (whenever c xs)) h u

pub perform-append {ℓ} :
    {A : Type ℓ} (o : Options A) (xs ys : List Action) (w : Buffers A)
    → perform o (xs ++ ys) w ≡ perform o ys (perform o xs w)
unfolding perform
perform-append o [] ys w = refl
perform-append o (x ∷ xs) ys w = perform-append o xs ys (act o x w)

-- To show a property of the buffers after a list of actions under a test.
pub perform-whenever {ℓ ℓ'} :
    {A : Type ℓ} (P : Buffers A → Type ℓ') (o : Options A) (b : Bool) (xs : List Action)
    (w : Buffers A)
    → (b ≡ true → P (perform o xs w))
    → (b ≡ false → P w)
    → P (perform o (whenever b xs) w)
unfolding whenever perform
perform-whenever P o b xs w yes_ no_ = elim (Bool-cases b) [
  | inl e ↦ subst (λ c. P (perform o (whenever c xs) w)) (sym e) (yes_ e)
  | inr e ↦ subst (λ c. P (perform o (whenever c xs) w)) (sym e) (no_ e)
]

pub perform-parts {ℓ ℓ'} :
    {A : Type ℓ} (P : Buffers A → Type ℓ') (o : Options A) (b : Bool) (xs ys : List Action)
    (w : Buffers A)
    → (b ≡ true → P (perform o ys (perform o xs w)))
    → (b ≡ false → P (perform o ys w))
    → P (perform o (whenever b xs ++ ys) w)
perform-parts P o b xs ys w yes_ no_ =
    subst P (sym (perform-append o (whenever b xs) ys w))
      (perform-whenever (λ v. P (perform o ys v)) o b xs w yes_ no_)

pub true-ne_false : true ≢ false
true-ne_false h = ground arith

pub covered_pos : (offset length a : ℕ) → covers offset length a ≡ true → ltb 0 length ≢ false
covered_pos offset length a h e = ground (arith, covered_iff offset length a h)

-- The first parts of the iterations: actions if there is something to receive, then a wait.
pub perform-previous {ℓ ℓ'} :
    {A : Type ℓ} (P : Buffers A → Type ℓ') (o : Options A) (b c : Bool) (xs : List Action) (k : ℕ)
    (w : Buffers A)
    → (b ≡ true → P (perform o xs w))
    → (b ≡ false → P w)
    → P (perform o (whenever b xs ++ whenever c (Action.wait_send k ∷ [])) w)
unfolding perform act
perform-previous P o b c xs k w yes_ no_ =
    perform-parts P o b xs (whenever c (Action.wait_send k ∷ [])) w
      (λ e.
        perform-whenever P o c (Action.wait_send k ∷ []) (perform o xs w) (λ _. yes_ e)
          (λ _. yes_ e))
      (λ e. perform-whenever P o c (Action.wait_send k ∷ []) w (λ _. no_ e) (λ _. no_ e))

pub set_same {ℓ} : {X : Type ℓ} (f : ℕ → X) (r : ℕ) (x : X) → set f r x r ≡ x
set_same f r x = set_cases (λ y. y ≡ x) f r r x (λ _. refl) (λ n. absurd (n refl))

pub set_other {ℓ} : {X : Type ℓ} (f : ℕ → X) (r s : ℕ) (x : X) → s ≢ r → set f r x s ≡ f s
set_other f r s x n = set_cases (λ y. y ≡ f s) f r s x (λ e. absurd (n e)) (λ _. refl)
