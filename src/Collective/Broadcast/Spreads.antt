-- ===== src/Collective/Broadcast/Spreads.antt =====
-- gloo/broadcast.cc: every rank comes to have the root's content.
use gloo.Prelude.{
  ℕ, suc, ◌≡◌, ◌≢◌, sym, ap, subst, ◌∙◌, ◌+◌, ◌-◌, ◌^◌, ◌≤◌, ◌<◌, ◌⊎◌, inl, inr, lt-or_le,
  wrap-cases, arith,
}
use gloo.Collective.Ring.Invariant.{set_cases}
use gloo.Collective.Broadcast.{
  log2ceil, virtual_rank, Turn, turn_at, Node, skip, send_on, take_over, Passes, Spread, unsent,
}
use gloo.Collective.Broadcast.Tree.{log2ceil_covers, virtual_rank_lt, turn_high, turn_mid}
use native.Mathlib.Nat.{pow-le-pow_right}

idle_sends : (p : ℕ) → Turn.idle ≢ Turn.sends p
idle_sends p h = ground arith

idle_receives : (p : ℕ) → Turn.idle ≢ Turn.receives p
idle_receives p h = ground arith

sends_receives : (p q : ℕ) → Turn.sends p ≢ Turn.receives q
sends_receives p q h = ground arith

module _ {ℓ} {A : Type ℓ} (size root : ℕ) (hroot : root < size) (hsize : size ≤ 2 ^ 30)
    (content : ℕ → A) where
  -- A rank that has taken part has the content, and has sent nothing else.
  record Held (r : ℕ) (x : Node A) : Type ℓ where
    has : virtual_rank size root r < 2 ^ x.passed → x.content ≡ content root
    posted :
        (j p : ℕ) → j < x.passed → turn_at size root r j ≡ Turn.sends p → x.sent j ≡ content root

  -- A rank that does not receive takes part already, or not yet.
  early :
      (r i : ℕ)
      → i < log2ceil size
      → ((p : ℕ) → turn_at size root r i ≢ Turn.receives p)
      → virtual_rank size root r < 2 ^ suc i
      → virtual_rank size root r < 2 ^ i
  early r i hi n h = elim (lt-or_le (virtual_rank size root r) (2 ^ i)) [
    | inl l ↦ l
    | inr g ↦ absurd (n _ (turn_mid size root hroot hsize r i hi g h))
  ]

  sender :
      (r i p : ℕ)
      → i < log2ceil size
      → turn_at size root r i ≡ Turn.sends p
      → virtual_rank size root r < 2 ^ i
  sender r i p hi e =
      early r i hi (λ q f. sends_receives p q (sym e ∙ f))
        (elim (lt-or_le (virtual_rank size root r) (2 ^ suc i)) [
          | inl l ↦ l
          | inr g ↦ absurd (idle_sends p (sym (turn_high size root hroot hsize r i hi g) ∙ e))
        ])

  last_or_before : (j i : ℕ) → j < suc i → (j < i) ⊎ (i ≡ j)
  last_or_before j i h = ground arith

  skip-Held :
      (r : ℕ) (x : Node A)
      → x.passed < log2ceil size
      → turn_at size root r x.passed ≡ Turn.idle
      → Held r x
      → Held r (skip x)
  unfolding skip
  skip-Held r x hi e held = record {
    has = λ h. held.has (early r x.passed hi (λ p f. idle_receives p (sym e ∙ f)) h);
    posted = λ j p h f. elim (last_or_before j x.passed h) [
      | inl b ↦ held.posted j p b f
      | inr b ↦ absurd (idle_sends p (sym e ∙ ap (turn_at size root r) b ∙ f))
    ];
  }

  send_on-Held :
      (r p : ℕ) (x : Node A)
      → x.passed < log2ceil size
      → turn_at size root r x.passed ≡ Turn.sends p
      → Held r x
      → Held r (send_on x)
  unfolding send_on
  send_on-Held r p x hi e held = record {
    has = λ h. held.has (sender r x.passed p hi e);
    posted = λ j q h f.
        set_cases (λ y. y ≡ content root) x.sent x.passed j x.content
          (λ _. held.has (sender r x.passed p hi e))
          (λ n. elim (last_or_before j x.passed h) [
            | inl b ↦ held.posted j q b f
            | inr b ↦ absurd (n (sym b))
          ]);
  }

  take_over-Held :
      (r p : ℕ) (x : Node A) (message : A)
      → turn_at size root r x.passed ≡ Turn.receives p
      → message ≡ content root
      → Held r x
      → Held r (take_over message x)
  unfolding take_over
  take_over-Held r p x message e m held = record {
    has = λ h. m;
    posted = λ j q h f. elim (last_or_before j x.passed h) [
      | inl b ↦ held.posted j q b f
      | inr b ↦ absurd (sends_receives q p (sym (ap (turn_at size root r) b ∙ f) ∙ e))
    ];
  }

  Sound : (ℕ → Node A) → Type ℓ
  Sound w = (r : ℕ) → r < size → Held r (w r)

  Passes-Sound : {w u : ℕ → Node A} → Sound w → Passes size root w u → Sound u
  unfolding Sound
  Passes-Sound {w} sound (Passes.idles q hq hi e) r hr =
      set_cases (Held r) w q r _
        (λ f. subst (λ j. Held j (skip (w q))) (sym f) (skip-Held q (w q) hi e (sound q hq)))
        (λ _. sound r hr)
  Passes-Sound {w} sound (Passes.posts q p hq hi e) r hr =
      set_cases (Held r) w q r _
        (λ f.
          subst (λ j. Held j (send_on (w q))) (sym f) (send_on-Held q p (w q) hi e (sound q hq)))
        (λ _. sound r hr)
  Passes-Sound {w} sound (Passes.gets q p j hq hi e hp hj s) r hr =
      set_cases (Held r) w q r _
        (λ f.
          subst (λ k. Held k (take_over ((w p).sent j) (w q))) (sym f)
            (take_over-Held q p (w q) _ e ((sound p hp).posted j q hj s) (sound q hq)))
        (λ _. sound r hr)

  start-Sound : Sound (unsent content)
  unfolding Sound unsent virtual_rank
  start-Sound r hr = record {
    has = λ h. ap content (ground (arith, wrap-cases (r + size - root) size (omega arith)));
    posted = λ j p h. absurd (omega arith);
  }

  Spread-Sound : {w : ℕ → Node A} → Spread size root (unsent content) w → Sound w
  Spread-Sound Spread.begins = start-Sound
  Spread-Sound (Spread.goes_on run step) = Passes-Sound (Spread-Sound run) step

  -- Let the root be one of the ranks, of which there are at most 2 ^ 30, so that no shift overflows. Whatever the order in which
  -- the ranks of a broadcast go through their iterations, one that has been through all of them has
  -- the root's content.
  pub broadcast-spreads :
      {w : ℕ → Node A}
      → Spread size root (unsent content) w
      → (r : ℕ) → r < size
      → log2ceil size ≤ (w r).passed
      → (w r).content ≡ content root
  unfolding Sound
  broadcast-spreads {w} run r hr e = (Spread-Sound run r hr).has (
      omega (
        arith,
        virtual_rank_lt size root hroot hsize r,
        log2ceil_covers size hsize,
        pow-le-pow_right two_pos e,
      ))
    where
      two_pos : 0 < 2
      two_pos = omega arith
