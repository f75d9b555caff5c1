-- ===== src/Collective/Barrier/Waits.antt =====
-- Nobody leaves the barrier before everybody has entered, and its loop ends.
use gloo.Prelude.{
  ℕ, zero, suc, ◌≡◌, refl, sym, ap, subst, ◌+◌, ◌-◌, ◌*◌, ◌%◌, ◌^◌, ◌≤◌, ◌<◌, inl, inr, true, false,
  some, List, [], ◌++◌, u64, lt→ltb, le→ltb, lt-or_le, Bool-cases, wrap-cases, arith,
}
use gloo.Collective.{Context, Command, Calls}
use gloo.Collective.Ring.Invariant.{set_cases}
use gloo.Slot.{build, barrier_slot_prefix}
use gloo.Collective.Barrier.{
  barrier_iteration, barrier_from, barrier, wait_for, Hall, enter, pass, Step, Reach,
}
use gloo.Collective.Ring.Distance.{distance, distance_lt, distance-back}
use native.Mathlib.Nat.{mod-eq_of_lt, mod-lt, pow-suc, pow-le-pow_right}

wait_for_lt : (n r d : ℕ) → r < n → wait_for n r d < n
unfolding wait_for
wait_for_lt n r d hr = mod-lt (n + r - d) (omega arith)

-- Further round the ring.
wait_for_before :
    (n r d j : ℕ)
    → r < n
    → d < n
    → d ≤ j
    → j < n
    → (n + wait_for n r d - (j - d)) % n ≡ (n + r - j) % n
unfolding wait_for
wait_for_before n r d j hr hd hj hn = ground (
  arith,
  wrap-cases (n + r - d) n (omega arith),
  wrap-cases (n + r - j) n (omega arith),
  wrap-cases (n + (n + r - d) % n - (j - d)) n (omega (arith, mod-lt (n + r - d) (positive hr))),
)
  where
    positive : r < n → 0 < n
    positive h = omega arith

-- A rank that has completed `k` iterations has heard of the `2 ^ k` ranks that end with itself.
record Sound (size : ℕ) (h : Hall) : Type 0 where
  heard :
      (r j : ℕ)
      → r < size
      → j < size
      → h.entered r ≡ true
      → j < 2 ^ h.rounds r
      → h.entered ((size + r - j) % size) ≡ true
  fresh : (r : ℕ) → h.entered r ≡ false → h.rounds r ≡ 0

module _ (n : ℕ) (h : Hall) (sound : Sound n h) where
  still_entered : (q s : ℕ) → h.entered s ≡ true → (enter q h).entered s ≡ true
  unfolding enter
  still_entered q s e = set_cases (λ t. t ≡ true) h.entered q s true (λ _. refl) (λ _. e)

  enter-Sound : (q : ℕ) → q < n → Sound n (enter q h)
  unfolding enter
  enter-Sound q hq = record {
    heard = λ r j hr hj e hk. elim (Bool-cases (h.entered r)) [
      | inl was ↦ still_entered q ((n + r - j) % n) (sound.heard r j hr hj was hk)
      | inr not_yet ↦
          newly r j hr not_yet e (omega (arith, ap (λ t. 2 ^ t) (sound.fresh r not_yet)))
    ];
    fresh = λ r.
        set_cases (λ t. t ≡ false → h.rounds r ≡ 0) h.entered q r true
          (λ _ e. absurd (ground arith)) (λ _ e. sound.fresh r e);
  }
    where
      here : (r j : ℕ) → r < n → j < 1 → (n + r - j) % n ≡ r
      here r j hr hj = ground (arith, wrap-cases (n + r - j) n (omega arith))

      newly :
          (r j : ℕ)
          → r < n
          → h.entered r ≡ false
          → (enter q h).entered r ≡ true
          → j < 1
          → (enter q h).entered ((n + r - j) % n) ≡ true
      newly r j hr f e hj = subst (λ t. (enter q h).entered t ≡ true) (sym (here r j hr hj)) e

  pass-Sound :
      (q : ℕ)
      → q < n
      → h.entered q ≡ true
      → 2 ^ h.rounds q < n
      → h.entered (wait_for n q (2 ^ h.rounds q)) ≡ true
      → h.rounds q ≤ h.rounds (wait_for n q (2 ^ h.rounds q))
      → Sound n (pass q h)
  unfolding pass
  pass-Sound q hq e hd ew hw = record {
    heard = λ r j hr hj er.
        set_cases (λ t. j < 2 ^ t → h.entered ((n + r - j) % n) ≡ true) h.rounds q r
          (suc (h.rounds q))
          (λ k hk.
            subst (λ t. h.entered ((n + t - j) % n) ≡ true) (sym k)
              (further j hj (omega (arith, hk, pow-suc 2 (h.rounds q)))))
          (λ _ hk. sound.heard r j hr hj er hk);
    fresh = λ r er.
        set_cases (λ t. t ≡ 0) h.rounds q r (suc (h.rounds q))
          (λ k. absurd (ground (arith, ap h.entered k))) (λ _. sound.fresh r er);
  }
    where
      peer : ℕ
      peer = wait_for n q (2 ^ h.rounds q)

      powers : 2 ^ h.rounds q ≤ 2 ^ h.rounds peer
      powers = pow-le-pow_right (omega arith) hw

      further :
          (j : ℕ) → j < n → j < 2 ^ h.rounds q + 2 ^ h.rounds q → h.entered ((n + q - j) % n) ≡ true
      further j hj hk = elim (lt-or_le j (2 ^ h.rounds q)) [
        | inl l ↦ sound.heard q j hq hj e l
        | inr g ↦
            subst (λ t. h.entered t ≡ true) (wait_for_before n q (2 ^ h.rounds q) j hq hd g hj)
              (sound.heard peer (j - 2 ^ h.rounds q) (wait_for_lt n q (2 ^ h.rounds q) hq)
                (omega arith) ew (omega (arith, powers)))
      ]

reach-Sound : {n : ℕ} {h : Hall} → Reach n h → Sound n h
reach-Sound Reach.starts = record {
  heard = λ r j hr hj e hk. absurd (ground arith);
  fresh = λ r e. refl;
}
reach-Sound {n} (Reach.continues {h} reach (Step.enters q hq)) =
    enter-Sound n h (reach-Sound reach) q hq
reach-Sound {n} (Reach.continues {h} reach (Step.passes q hq e hd ew hw)) =
    pass-Sound n h (reach-Sound reach) q hq e hd ew hw

-- In every state that the ranks of a barrier reach, once a rank that has entered is through its
-- loop, every rank has entered.
pub barrier-waits :
    (n : ℕ) {h : Hall}
    → Reach n h
    → (r s : ℕ) → r < n
    → s < n
    → h.entered r ≡ true
    → n ≤ 2 ^ h.rounds r
    → h.entered s ≡ true
barrier-waits n {h} reach r s hr hs e hn =
    subst (λ t. h.entered t ≡ true) (distance-back n r s hr hs)
      ((reach-Sound reach).heard r (distance n r s) hr (distance_lt n r s hr hs) e
        (omega (arith, distance_lt n r s hr hs)))

-- The distance doubles until it reaches the number of ranks.
barrier_from-some :
    (fuel n r d : ℕ)
    → 0 < fuel
    → 0 < d
    → n < 2 ^ 62
    → n < fuel + d
    → (cs : List Command) × (barrier_from fuel n r d ≡ some cs)
unfolding barrier_from
barrier_from-some zero n r d h hd hn hf = absurd (omega arith)
barrier_from-some (suc fuel) n r d h hd hn hf = elim (lt-or_le d n) [
  | inl l ↦
      let (cs, e) =
        barrier_from-some fuel n r (d * 2) (omega arith) (omega arith) hn (omega arith) in
      (barrier_iteration n r d ++ cs, rw (lt→ltb d n l, doubled l, e) refl)
  | inr g ↦ ([], rw (le→ltb d n g) refl)
]
  where
    doubled : d < n → u64 (d * 2) ≡ d * 2
    doubled l = mod-eq_of_lt (omega arith)

-- With fewer than 2 ^ 31 ranks the loop of barrier ends, within as many rounds of fuel as there
-- are ranks and one more.
pub barrier-returns :
    (c : Context) (tag : ℕ) → c.size < 2 ^ 31 → (calls : Calls) × (barrier c tag ≡ some calls)
unfolding barrier
barrier-returns c tag h =
    let (cs, e) =
      barrier_from-some (suc c.size) c.size c.rank 1 (omega arith) (omega arith) (omega arith)
        (omega arith) in
    (record { slot = build barrier_slot_prefix tag; commands = cs }, rw (e, barrier) refl)
