-- ===== src/Collective/Ring/Progress.antt =====
-- The ring's loop does not get stuck, and ends.
use gloo.Prelude.{
  ℕ, zero, suc, ◌≡◌, refl, ap, sym, subst, ◌∙◌, ◌+◌, ◌-◌, ◌*◌, ◌≤◌, ◌<◌, ◌≢◌, ◌⊎◌, inl, inr,
  lt-or_le, arith,
}
use native.Mathlib.Nat.{suc-mul}
use gloo.Collective.Ring.{Plan, World, Step, Reach, Done, recv_rank, send_rank, set, land}
use gloo.Collective.Ring.Waits.{
  recv_rank_lt, send_rank_lt, recv_rank-send_rank, recv_waits-iterations, send_waits-iterations,
}
use gloo.Collective.Ring.Invariant.{Serves, Sound, set_cases, issued_once, issue-issued_once}
use gloo.Collective.Ring.Lands.{Step-Sound, can_land}

-- The rank that is furthest behind.
pub least : (f : ℕ → ℕ) (n : ℕ) → 0 < n → (m : ℕ) × ((m < n) × ((r : ℕ) → r < n → f m ≤ f r))
least f zero h = absurd (omega arith)
least f (suc zero) h = (0, (omega arith, λ r hr. omega (arith, ap f (only r hr))))
  where
    only : (r : ℕ) → r < 1 → r ≡ 0
    only r hr = omega arith
least f (suc (suc n)) h =
    let (m, (hm, below)) = least f (suc n) (omega arith) in
    elim (lt-or_le (f (suc n)) (f m)) [
      | inl l ↦ (
        suc n,
        (
          omega arith,
          λ r hr. elim (last r hr) [
            | inl k ↦ omega (arith, below r k)
            | inr e ↦ omega (arith, ap f e)
          ],
        ),
      )
      | inr g ↦ (
        m,
        (
          omega arith,
          λ r hr. elim (last r hr) [ inl k ↦ below r k | inr e ↦ omega (arith, ap f e) ],
        ),
      )
    ]
  where
    last : (r : ℕ) → r < suc (suc n) → (r < suc n) ⊎ (r ≡ suc n)
    last r hr = ground arith

-- The sum of a count over the ranks.
unfoldable pub total : (ℕ → ℕ) → ℕ → ℕ
total f zero = 0
total f (suc n) = total f n + f n

total-set_above : (f : ℕ → ℕ) (q x n : ℕ) → n ≤ q → total (set f q x) n ≡ total f n
unfolding total
total-set_above f q x zero h = refl
total-set_above f q x (suc n) h =
    set_cases (λ t. total (set f q x) n + t ≡ total f n + f n) f q n x (λ e. absurd (omega arith))
      (λ e. omega (arith, total-set_above f q x n (omega arith)))

total-set : (f : ℕ → ℕ) (q n : ℕ) → q < n → total (set f q (suc (f q))) n ≡ suc (total f n)
unfolding total
total-set f q zero h = absurd (omega arith)
total-set f q (suc n) h =
    set_cases (λ t. total (set f q (suc (f q))) n + t ≡ suc (total f n + f n)) f q n (suc (f q))
      (λ e. omega (arith, ap f e, total-set_above f q (suc (f q)) n (omega arith)))
      (λ e. omega (arith, total-set f q n (below e)))
  where
    below : n ≢ q → q < n
    below e = ground arith

-- A sum that falls at one rank.
pub total_falls :
    (f g : ℕ → ℕ) (q n : ℕ)
    → ((r : ℕ) → r ≢ q → f r ≡ g r)
    → suc (f q) ≡ g q
    → (n ≤ q → total f n ≡ total g n) × (q < n → suc (total f n) ≡ total g n)
unfolding total
total_falls f g q zero h e = (λ _. refl, λ l. absurd (omega arith))
total_falls f g q (suc n) h e =
    let (before, after) = total_falls f g q n h e in
    (
      λ l. omega (arith, before (omega arith), h n (λ x. omega arith)),
      λ l. elim (eq-or_ne n q) [
        | inl x ↦ omega (arith, before (omega arith), ap f x, ap g x, e)
        | inr x ↦ omega (arith, after (omega arith), h n x)
      ],
    )
  where
    eq-or_ne : (x y : ℕ) → (x ≡ y) ⊎ (x ≢ y)
    eq-or_ne x y = ground arith

total_bounded : (f : ℕ → ℕ) (b n : ℕ) → ((r : ℕ) → r < n → f r ≤ b) → total f n ≤ n * b
unfolding total
total_bounded f b zero h = omega arith
total_bounded f b (suc n) h =
    simp suc-mul (omega (arith, total_bounded f b n (λ r hr. h r (omega arith)), h n (omega arith)))

module _ {ℓ} {A : Type ℓ} (p : Plan) (bytes : ℕ) (due : ℕ → ℕ → ℕ) (want : ℕ → A) where
  module _ (serves : Serves p bytes due) (w : World A) (sound : Sound p bytes due want w) where
    next :
        (q : ℕ)
        → q < p.size
        → w.landed q < w.issued q
        → w.landed q < w.issued (recv_rank p.size q)
        → (v : World A) × Step p w v
    next = can_land p bytes due want serves w sound

    -- Some rank can go on, unless all are done.
    pub advances : 0 < p.size → 0 < p.depth → Done p w ⊎ ((v : World A) × Step p w v)
    unfolding Done
    advances hn hd =
        let (m, (hm, least_issued)) = least w.issued p.size hn in
        elim (lt-or_le (w.issued m) p.steps) [
          | inl l ↦ inr (loops m hm least_issued l)
          | inr g ↦ drains (λ r hr. omega (arith, least_issued r hr, (sound.bounded r hr).1))
        ]
      where
        loops :
            (m : ℕ)
            → m < p.size
            → ((r : ℕ) → r < p.size → w.issued m ≤ w.issued r)
            → w.issued m < p.steps
            → (v : World A) × Step p w v
        loops m hm low l = elim (lt-or_le (w.landed m) (suc (w.issued m) - p.depth)) [
          | inl b ↦
              next m hm (omega arith)
                (omega (arith, low (recv_rank p.size m) (recv_rank_lt p.size m hm)))
          | inr a ↦ elim (lt-or_le (w.landed (send_rank p.size m)) (suc (w.issued m) - p.depth)) [
            | inl b ↦
                next (send_rank p.size m) (send_rank_lt p.size m hm)
                  (omega (arith, low (send_rank p.size m) (send_rank_lt p.size m hm)))
                  (omega (arith, ap w.issued (recv_rank-send_rank p.size m hm)))
            | inr c ↦ (
              _,
              Step.issues m hm l (omega (arith, recv_waits-iterations p m (suc (w.issued m))))
                  (omega (arith, send_waits-iterations p m (suc (w.issued m)))),
            )
          ]
        ]

        drains :
            ((r : ℕ) → r < p.size → w.issued r ≡ p.steps) → Done p w ⊎ ((v : World A) × Step p w v)
        drains all =
            let (m, (hm, least_landed)) = least w.landed p.size hn in
            elim (lt-or_le (w.landed m) p.steps) [
              | inl l ↦ inr (
                  next m hm (omega (arith, all m hm))
                    (omega (arith, all (recv_rank p.size m) (recv_rank_lt p.size m hm))))
              | inr g ↦ inl (λ r hr. (all r hr, omega (arith, least_landed r hr)))
            ]

  -- What is left to do.
  rest : World A → ℕ
  rest w = (p.size * p.steps - total w.issued p.size) + (p.size * p.steps - total w.landed p.size)

  module _ (serves : Serves p bytes due) (w : World A) (sound : Sound p bytes due want w) where
    raised :
        (f : ℕ → ℕ) (q : ℕ)
        → q < p.size
        → ((r : ℕ) → r < p.size → set f q (suc (f q)) r ≤ p.steps)
        → p.size * p.steps - total f p.size
          ≡ suc (p.size * p.steps - total (set f q (suc (f q))) p.size)
    raised f q hq h =
        omega (arith, total-set f q p.size hq, total_bounded (set f q (suc (f q))) p.steps p.size h)

    once-rest :
        (q : ℕ)
        → q < p.size
        → ((r : ℕ) → r < p.size → (issued_once p q w).issued r ≤ p.steps)
        → rest w ≡ suc (rest (issued_once p q w))
    unfolding rest issued_once
    once-rest q hq h = omega (arith, raised w.issued q hq h)

    Step-rest : {v : World A} → Step p w v → rest w ≡ suc (rest v)
    unfolding rest land
    Step-rest {v} (Step.issues q hq hs hr hv) =
        let next = Step-Sound p bytes due want serves w sound (Step.issues q hq hs hr hv) in
        let once = issue-issued_once p q w in
        once-rest q hq (λ r h. subst (λ v. v.issued r ≤ p.steps) once (next.bounded r h).1)
        ∙ ap (λ v. suc (rest v)) (sym once)
    Step-rest {v} (Step.lands q here m hq eh em et ez) =
        let next =
          Step-Sound p bytes due want serves w sound (Step.lands q here m hq eh em et ez) in
        omega (
          arith,
          raised w.landed q hq
              (λ r hr. omega (arith, (next.bounded r hr).0, (next.bounded r hr).1)),
        )

  -- Every run can be taken to its end, and has as many steps as were left.
  pub completes :
      Serves p bytes due
      → 0 < p.size
      → 0 < p.depth
      → (start w : World A) → Sound p bytes due want w
      → Reach p start w
      → (v : World A) × (Reach p start v × Done p v)
  completes serves hn hd start w sound reach = go (rest w) w sound reach refl
    where
      go :
          (k : ℕ) (u : World A)
          → Sound p bytes due want u
          → Reach p start u
          → rest u ≡ k
          → (v : World A) × (Reach p start v × Done p v)
      go zero u s r e = elim (advances serves u s hn hd) [
        | inl done ↦ (u, (r, done))
        | inr (v, step) ↦ absurd (omega (arith, Step-rest serves u s step))
      ]
      go (suc k) u s r e = elim (advances serves u s hn hd) [
        | inl done ↦ (u, (r, done))
        | inr (v, step) ↦
            go k v (Step-Sound p bytes due want serves u s step) (Reach.continues r step)
              (omega (arith, Step-rest serves u s step))
      ]
