-- ===== src/Collective/Allreduce/Completes.antt =====
-- gloo/allreduce.cc: the ranks of `ring` never wait for good.
use gloo.Prelude.{
  ℕ, zero, suc, ◌≡◌, refl, sym, ap, ◌∙◌, ◌+◌, ◌-◌, ◌*◌, ◌≤◌, ◌<◌, ◌≢◌, ◌⊎◌, inl, inr, lt-or_le, ltb,
  if◌then◌else◌, arith,
}
use gloo.Collective.Ring.{set}
use gloo.Collective.Ring.Invariant.{set_cases}
use gloo.Collective.Ring.Progress.{least, total, total_falls}
use gloo.Collective.Allreduce.{Segments, rounds, next_rank, previous_rank}
use gloo.Collective.Allreduce.Local.{Options, Buffers}
use gloo.Collective.Allreduce.Run.{
  Rank, posted_at, arrival_region, go_on, take_in, pass_by, Advance, Reaches, at_start,
}
use gloo.Collective.Allreduce.Cuts.{Divided, next_rank_lt}
use gloo.Collective.Allreduce.Parts.{posted_at_cases}
use gloo.Collective.Allreduce.Places.{
  place, place_length-place, send_length, send_length-next, if_any_pos,
}
use gloo.Collective.Allreduce.Posted.{receive_posted, send_posted, receive_made}
use gloo.Collective.Allreduce.Unblocks.{body-Unblocked}
use native.Mathlib.Nat.{mod-lt}

-- Every rank has been through both loops.
unfoldable pub Returned {ℓ} : {A : Type ℓ} → Segments → (ℕ → Rank A) → Type 0
Returned s w = (r : ℕ) → r < s.size → (w r).issued ≡ 2 * (rounds s + 2)

previous_rank_lt : (n r : ℕ) → r < n → previous_rank n r < n
unfolding previous_rank
previous_rank_lt n r h = mod-lt (n + r - 1) (omega arith)

module _ {ℓ} {A : Type ℓ} (s : Segments) (div : Divided s) (o : ℕ → Options A) where
  Bounded : (ℕ → Rank A) → Type 0
  Bounded w =
      (r : ℕ) → r < s.size → ((w r).issued ≤ 2 * (rounds s + 2)) × ((w r).landed ≤ 2 * rounds s)

  Advance-Bounded : {w v : ℕ → Rank A} → Bounded w → Advance s o w v → Bounded v
  unfolding Bounded go_on take_in pass_by
  Advance-Bounded {w} h (Advance.issues q hq ht u) r hr =
      set_cases (λ x. (x.issued ≤ 2 * (rounds s + 2)) × (x.landed ≤ 2 * rounds s)) w q r
        (go_on s (o q) q (w q)) (λ e. (omega arith, (h q hq).1)) (λ _. h r hr)
  Advance-Bounded {w} h (Advance.lands q to length hq er es hf) r hr =
      set_cases (λ x. (x.issued ≤ 2 * (rounds s + 2)) × (x.landed ≤ 2 * rounds s)) w q r
        (take_in to length (w (next_rank s.size q)) (w q))
        (λ e. ((h q hq).0, omega (arith, (receive_made s q (w q).landed (w q).issued to er).0)))
        (λ _. h r hr)
  Advance-Bounded {w} h (Advance.passes q hq hl hp he) r hr =
      set_cases (λ x. (x.issued ≤ 2 * (rounds s + 2)) × (x.landed ≤ 2 * rounds s)) w q r
        (pass_by (w q)) (λ e. ((h q hq).0, omega arith)) (λ _. h r hr)

  at_start-Bounded : (start : ℕ → Buffers A) → Bounded (at_start start)
  unfolding Bounded at_start
  at_start-Bounded start r hr = (omega arith, omega arith)

  Reaches-Bounded : {start w : ℕ → Rank A} → Bounded start → Reaches s o start w → Bounded w
  Reaches-Bounded h Reaches.starts = h
  Reaches-Bounded h (Reaches.continues reach step) = Advance-Bounded (Reaches-Bounded h reach) step

  -- What a rank has left to do.
  left : Rank A → ℕ
  left x = 2 * (rounds s + 2) - x.issued + (2 * rounds s - x.landed)

  rest : (ℕ → Rank A) → ℕ
  rest w = total (λ r. left (w r)) s.size

  -- One rank changes, to one that has a step less left.
  steps_on :
      (w : ℕ → Rank A) (q : ℕ) (x : Rank A)
      → q < s.size
      → suc (left x) ≡ left (w q)
      → suc (rest (set w q x)) ≡ rest w
  unfolding rest
  steps_on w q x hq e =
      (total_falls (λ r. left (set w q x r)) (λ r. left (w r)) q s.size
          (λ r n. set_cases (λ x. left x ≡ left (w r)) w q r x (λ e. absurd (n e)) (λ _. refl))
          (set_cases (λ x. suc (left x) ≡ left (w q)) w q q x (λ _. e) (λ n. absurd (n refl)))).1
        hq

  Advance-rest : {w v : ℕ → Rank A} → Bounded w → Advance s o w v → suc (rest v) ≡ rest w
  unfolding left Bounded go_on take_in pass_by
  Advance-rest {w} h (Advance.issues q hq ht u) = steps_on w q _ hq (omega arith)
  Advance-rest {w} h (Advance.lands q to length hq er es hf) =
      steps_on w q _ hq (omega (arith, (receive_made s q (w q).landed (w q).issued to er).0))
  Advance-rest {w} h (Advance.passes q hq hl hp he) = steps_on w q _ hq (omega arith)

  module _ (w : ℕ → Rank A) (h : Bounded w) where
    -- With the rank that is furthest behind at iteration `t`.
    module _ (q : ℕ) (hq : q < s.size) (ht : (w q).issued < 2 * (rounds s + 2))
        (low : (r : ℕ) → r < s.size → (w q).issued ≤ (w r).issued) where
      -- The two messages that the iteration may wait for.
      due : ℕ
      due = if ltb (w q).issued (rounds s + 2) then (w q).issued - 2 else (w q).issued - 4

      due_only : (k : ℕ) → posted_at s k + 2 ≡ (w q).issued → k ≡ due
      unfolding due
      due_only k e = ground (arith, posted_at_cases s k)

      -- A message whose receive and send have been posted comes in, and one of no bytes passes.
      lands_next :
          (r : ℕ)
          → r < s.size
          → (w r).landed < 2 * rounds s
          → posted_at s (w r).landed < (w r).issued
          → posted_at s (w r).landed < (w (next_rank s.size r)).issued
          → (v : ℕ → Rank A) × Advance s o w v
      lands_next r hr hl hp hn =
          let k = (w r).landed in
          elim (lt-or_le 0 (arrival_region s r k).recv_length) [
            | inr z ↦ (_, Advance.passes r hr hl hp (omega arith))
            | inl pos ↦
                let same = send_length-next s div r k hr hl pos in
                (
                  _,
                  Advance.lands r (place s r k) (send_length s (next_rank s.size r) k) hr
                      (receive_posted s r k (w r).issued hl hp
                        ∙ if_any_pos _ _ (omega (arith, place_length-place s r k)))
                      (send_posted s (next_rank s.size r) k (w (next_rank s.size r)).issued hl hn
                        ∙ if_any_pos _ _ (omega (arith, same)))
                      (omega (arith, same, place_length-place s r k)),
                )
          ]

      comes :
          (r : ℕ)
          → r < s.size
          → posted_at s due + 2 ≡ (w q).issued
          → (w r).landed ≤ due
          → (v : ℕ → Rank A) × Advance s o w v
      comes r hr e l =
          lands_next r hr (ground (arith, posted_at_cases s due)) (omega (arith, earlier, low r hr))
            (omega (arith, earlier, low (next_rank s.size r) (next_rank_lt s div r hr)))
        where
          earlier : posted_at s (w r).landed < (w q).issued
          earlier = ground (arith, posted_at_cases s due, posted_at_cases s (w r).landed)

      goes :
          ((k : ℕ)
            → posted_at s k + 2 ≡ (w q).issued
            → (k < (w q).landed) × (k < (w (previous_rank s.size q)).landed))
          → (v : ℕ → Rank A) × Advance s o w v
      goes f = (
        _,
        Advance.issues q hq ht
            (body-Unblocked (w q).landed (w (previous_rank s.size q)).landed s q (w q).issued f),
      )

      behind : (v : ℕ → Rank A) × Advance s o w v
      behind = elim (eq-or_ne (posted_at s due + 2) (w q).issued) [
        | inr n ↦ goes (λ k e. absurd (n (ap (λ j. posted_at s j + 2) (sym (due_only k e)) ∙ e)))
        | inl e ↦ elim (lt-or_le due (w q).landed) [
          | inr g ↦ comes q hq e g
          | inl a ↦ elim (lt-or_le due (w (previous_rank s.size q)).landed) [
            | inr g ↦ comes (previous_rank s.size q) (previous_rank_lt s.size q hq) e g
            | inl b ↦ goes (λ k f. (omega (arith, due_only k f), omega (arith, due_only k f)))
          ]
        ]
      ]
        where
          eq-or_ne : (x y : ℕ) → (x ≡ y) ⊎ (x ≢ y)
          eq-or_ne x y = ground arith

    advances : Returned s w ⊎ ((v : ℕ → Rank A) × Advance s o w v)
    unfolding Returned Bounded
    advances =
        let (q, (hq, low)) = least (λ r. (w r).issued) s.size (omega (arith, div.ranks)) in
        elim (lt-or_le (w q).issued (2 * (rounds s + 2))) [
          | inl l ↦ inr (behind q hq l low)
          | inr g ↦ inl (λ r hr. omega (arith, low r hr, (h r hr).0))
        ]

  -- From every world that the ranks reach, whatever the options, the buffers and the order of the
  -- steps, they can go on to one in which all have returned from `ring`: its waits never block for
  -- good. The segments are as `Divided` says.
  pub allreduce-completes :
      (start : ℕ → Buffers A) {w : ℕ → Rank A}
      → Reaches s o (at_start start) w
      → (v : ℕ → Rank A) × (Reaches s o (at_start start) v × Returned s v)
  allreduce-completes start {w} reach =
      go (rest w) w (Reaches-Bounded (at_start-Bounded start) reach) reach refl
    where
      go :
          (k : ℕ) (u : ℕ → Rank A)
          → Bounded u
          → Reaches s o (at_start start) u
          → rest u ≡ k
          → (v : ℕ → Rank A) × (Reaches s o (at_start start) v × Returned s v)
      go zero u h r e = elim (advances u h) [
        | inl done ↦ (u, (r, done))
        | inr (v, step) ↦ absurd (omega (arith, Advance-rest h step))
      ]
      go (suc k) u h r e = elim (advances u h) [
        | inl done ↦ (u, (r, done))
        | inr (v, step) ↦
            go k v (Advance-Bounded h step) (Reaches.continues r step)
              (omega (arith, Advance-rest h step))
      ]
