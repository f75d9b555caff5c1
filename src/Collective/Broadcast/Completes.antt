-- ===== src/Collective/Broadcast/Completes.antt =====
-- gloo/broadcast.cc: the ranks never wait for good.
use gloo.Prelude.{
  ℕ, zero, suc, ◌≡◌, refl, ap, subst, ◌∙◌, ◌+◌, ◌-◌, ◌^◌, ◌≤◌, ◌<◌, ◌⊎◌, inl, inr, lt-or_le, arith,
}
use gloo.Collective.Ring.{set}
use gloo.Collective.Ring.Invariant.{set_cases}
use gloo.Collective.Ring.Progress.{least, total, total_falls}
use gloo.Collective.Broadcast.{
  log2ceil, virtual_rank, actual_rank, Turn, Node, skip, send_on, take_over, Passes, Spread,
}
use gloo.Collective.Broadcast.Tree.{
  virtual_rank_lt, actual_rank_lt, virtual_rank-actual_rank, actual_rank-virtual_rank, turn_high,
  turn_mid, turn_low, turn_last,
}
use native.Mathlib.Nat.{pow-suc}

-- Every rank has been through all iterations.
unfoldable pub Finished {ℓ} : {A : Type ℓ} → (size : ℕ) → (ℕ → Node A) → Type 0
Finished size w = (r : ℕ) → r < size → log2ceil size ≤ (w r).passed

module _ {ℓ} {A : Type ℓ} (size root : ℕ) (hroot : root < size) (hsize : size ≤ 2 ^ 30) where
  module _ (w : ℕ → Node A) where
    abbrev Next : Type ℓ
    Next = (u : ℕ → Node A) × Passes size root w u

    -- A rank that does not receive goes on.
    below :
        (r : ℕ)
        → r < size
        → (w r).passed < log2ceil size
        → virtual_rank size root r < 2 ^ (w r).passed
        → Next
    below r hr hi h = elim (lt-or_le (virtual_rank size root r + 2 ^ (w r).passed) size) [
      | inl l ↦ (_, Passes.posts r _ hr hi (turn_low size root hroot hsize r (w r).passed hi h l))
      | inr g ↦ (_, Passes.idles r hr hi (turn_last size root hroot hsize r (w r).passed hi h g))
    ]

    -- So does the one furthest behind, or the rank that it receives from.
    behind :
        (q : ℕ)
        → q < size
        → (w q).passed < log2ceil size
        → ((r : ℕ) → r < size → (w q).passed ≤ (w r).passed)
        → Next
    behind q hq hi low = elim (lt-or_le (virtual_rank size root q) (2 ^ (w q).passed)) [
      | inl l ↦ below q hq hi l
      | inr g ↦ elim (lt-or_le (virtual_rank size root q) (2 ^ suc (w q).passed)) [
        | inr h ↦ (_, Passes.idles q hq hi (turn_high size root hroot hsize q (w q).passed hi h))
        | inl l ↦ elim (lt-or_le (w q).passed (w peer).passed) [
          | inl ahead ↦ (
            _,
            Passes.gets q peer (w q).passed hq hi
                (turn_mid size root hroot hsize q (w q).passed hi g l) peer_lt ahead
                (turn_low size root hroot hsize peer (w q).passed hi (peer_low l)
                    (omega (arith, peer_virtual, virtual_rank_lt size root hroot hsize q))
                  ∙ ap Turn.sends (back g)),
          )
          | inr level ↦
              below peer peer_lt (omega arith)
                (subst (λ t. virtual_rank size root peer < 2 ^ t) (same level) (peer_low l))
        ]
      ]
    ]
      where
        peer : ℕ
        peer = actual_rank size root (virtual_rank size root q - 2 ^ (w q).passed)

        peer_lt : peer < size
        peer_lt = actual_rank_lt size root hroot hsize (virtual_rank size root q - 2 ^ (w q).passed)

        peer_virtual : virtual_rank size root peer ≡ virtual_rank size root q - 2 ^ (w q).passed
        peer_virtual =
            virtual_rank-actual_rank size root hroot hsize
              (virtual_rank size root q - 2 ^ (w q).passed)
              (omega (arith, virtual_rank_lt size root hroot hsize q))

        peer_low :
            virtual_rank size root q < 2 ^ suc (w q).passed
            → virtual_rank size root peer < 2 ^ (w q).passed
        peer_low l = omega (arith, peer_virtual, pow-suc 2 (w q).passed)

        same : (w peer).passed ≤ (w q).passed → (w q).passed ≡ (w peer).passed
        same level = omega (arith, low peer peer_lt)

        back :
            2 ^ (w q).passed ≤ virtual_rank size root q
            → actual_rank size root (virtual_rank size root peer + 2 ^ (w q).passed) ≡ q
        back g =
            ap (actual_rank size root) (omega (arith, peer_virtual))
            ∙ actual_rank-virtual_rank size root hroot hsize q hq

    advances : Finished size w ⊎ Next
    unfolding Finished
    advances =
        let (q, (hq, low)) = least (λ r. (w r).passed) size (omega arith) in
        elim (lt-or_le (w q).passed (log2ceil size)) [
          | inl l ↦ inr (behind q hq l low)
          | inr g ↦ inl (λ r hr. omega (arith, low r hr))
        ]

  left : Node A → ℕ
  left x = log2ceil size - x.passed

  rest : (ℕ → Node A) → ℕ
  rest w = total (λ r. left (w r)) size

  falls :
      (w : ℕ → Node A) (q : ℕ) (x : Node A)
      → q < size
      → suc (left x) ≡ left (w q)
      → suc (rest (set w q x)) ≡ rest w
  unfolding rest
  falls w q x hq e =
      (total_falls (λ r. left (set w q x r)) (λ r. left (w r)) q size
          (λ r n. set_cases (λ y. left y ≡ left (w r)) w q r x (λ f. absurd (n f)) (λ _. refl))
          (set_cases (λ y. suc (left y) ≡ left (w q)) w q q x (λ _. e) (λ n. absurd (n refl)))).1
        hq

  Passes-rest : {w u : ℕ → Node A} → Passes size root w u → suc (rest u) ≡ rest w
  unfolding left skip send_on take_over
  Passes-rest {w} (Passes.idles q hq hi e) = falls w q _ hq (omega arith)
  Passes-rest {w} (Passes.posts q p hq hi e) = falls w q _ hq (omega arith)
  Passes-rest {w} (Passes.gets q p j hq hi e hp hj s) = falls w q _ hq (omega arith)

  -- Let the root be one of the ranks, of which there are at most 2 ^ 30, so that no shift overflows. From every world that the
  -- ranks of a broadcast reach, they can go on to one in which all have been through their
  -- iterations: no receive blocks for good.
  pub broadcast-completes :
      (start : ℕ → Node A) {w : ℕ → Node A}
      → Spread size root start w
      → (u : ℕ → Node A) × (Spread size root start u × Finished size u)
  broadcast-completes start {w} run = go (rest w) w run refl
    where
      go :
          (k : ℕ) (x : ℕ → Node A)
          → Spread size root start x
          → rest x ≡ k
          → (u : ℕ → Node A) × (Spread size root start u × Finished size u)
      go zero x r e = elim (advances x) [
        | inl done ↦ (x, (r, done))
        | inr (u, step) ↦ absurd (omega (arith, Passes-rest step))
      ]
      go (suc k) x r e = elim (advances x) [
        | inl done ↦ (x, (r, done))
        | inr (u, step) ↦ go k u (Spread.goes_on r step) (omega (arith, Passes-rest step))
      ]
