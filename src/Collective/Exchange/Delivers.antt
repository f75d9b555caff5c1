-- ===== src/Collective/Exchange/Delivers.antt =====
-- The exchange visits every other rank once, and every block arrives whatever the order.
use gloo.Prelude.{
  ℕ, ◌≡◌, ◌≢◌, refl, sym, ap, subst, ◌∙◌, ◌+◌, ◌-◌, ◌%◌, ◌≤◌, ◌<◌, ◌⊎◌, inl, inr, List, [], ◌∷◌,
  Bool, true, false, ◌&&◌, ltb, leb, Bool-cases, wrap-cases, lt-or_le, arith,
}
use mathlib.Core.List.{Memᴰ}
use gloo.Collective.{memcpy}
use gloo.Collective.Exchange.{Blocks, to_rank, from_rank, land_all, AllLanded, Posted, Disjoint}
use native.Mathlib.Nat.{mod-lt}

-- The iteration in which `r` receives from `s`.
turn : (n r s : ℕ) → r < n → s < n → s ≢ r → (i : ℕ) × ((1 ≤ i) × (i < n) × (from_rank n r i ≡ s))
unfolding from_rank
turn n r s hr hs ne = elim (lt-or_le s r) [
  | inl l ↦ (
    r - s,
    (omega arith, omega arith, ground (arith, wrap-cases (r + n - (r - s)) n (omega arith))),
  )
  | inr g ↦ (
    r + n - s,
    (
      omega arith,
      omega (arith, after g ne),
      ground (arith, wrap-cases (r + n - (r + n - s)) n (omega (arith, after g ne))),
    ),
  )
]
  where
    after : r ≤ s → s ≢ r → r < s
    after g ne = ground arith

-- In the same iteration that rank sends to `r`.
to_rank-from_rank :
    (n r i : ℕ)
    → r < n
    → 1 ≤ i
    → i < n
    → (from_rank n r i < n) × (from_rank n r i ≢ r) × (to_rank n (from_rank n r i) i ≡ r)
unfolding from_rank to_rank
to_rank-from_rank n r i hr lo hi = (
  sender_lt,
  (λ e. absurd (ground (arith, wrap-cases (r + n - i) n (omega arith)))),
  ground (
    arith,
    wrap-cases (r + n - i) n (omega arith),
    wrap-cases ((r + n - i) % n + i) n (omega (arith, sender_lt)),
  ),
)
  where
    sender_lt : (r + n - i) % n < n
    sender_lt = mod-lt (r + n - i) (omega arith)

module _ {ℓ} {A : Type ℓ} (outs : Blocks) (message : ℕ → ℕ → A) (a : ℕ) (v : A) where
  -- The byte at `a` when every message that covers it brings `v`.
  land_all_agree :
      (senders : List ℕ) (target : ℕ → A)
      → ((s : ℕ)
          → Memᴰ s senders
          → outs.offset s ≤ a
          → a < outs.offset s + outs.length s
          → message s (a - outs.offset s) ≡ v)
      → (target a ≡ v)
        ⊎ ((s : ℕ) × (Memᴰ s senders × (outs.offset s ≤ a) × (a < outs.offset s + outs.length s)))
      → land_all outs message senders target a ≡ v
  unfolding land_all memcpy
  land_all_agree [] target agree (inl e) = e
  land_all_agree [] target agree (inr (s, (m, lo, up))) = elim m [ ]
  land_all_agree (t ∷ senders) target agree start = elim (Bool-cases covered) [
    | inl e ↦
        land_all_agree senders _ (λ s m. agree s (Memᴰ.tail m))
          (inl (
            rw e (
              ap (message t) (omega arith) ∙ agree t (Memᴰ.head refl) (inside→le e) (inside→lt e))))
    | inr e ↦
        land_all_agree senders _ (λ s m. agree s (Memᴰ.tail m))
          (elim start [
            | inl k ↦ inl (rw e k)
            | inr (s, (m, lo, up)) ↦ inr (s, (later s m lo up e, lo, up))
          ])
  ]
    where
      covered : Bool
      covered = leb (outs.offset t) a && ltb a (outs.offset t + outs.length t)

      inside→le : covered ≡ true → outs.offset t ≤ a
      inside→le e = ground arith

      inside→lt : covered ≡ true → a < outs.offset t + outs.length t
      inside→lt e = ground arith

      later :
          (s : ℕ)
          → Memᴰ s (t ∷ senders)
          → outs.offset s ≤ a
          → a < outs.offset s + outs.length s
          → covered ≡ false
          → Memᴰ s senders
      later s (Memᴰ.head k) lo up e = absurd (ground (arith, ap outs.offset k, ap outs.length k))
      later s (Memᴰ.tail m) lo up e = m

pub eq-or_ne : (s t : ℕ) → (s ≡ t) ⊎ (s ≢ t)
eq-or_ne s t = ground arith

module _ {ℓ} {A : Type ℓ} (n : ℕ) (ins outs : ℕ → Blocks) (input : ℕ → ℕ → A) (r : ℕ)
    (hr : r < n) where
  module _ (message : ℕ → ℕ → A) (posted : (s : ℕ) → s < n → Posted n ins input r s (message s))
      (sizes : (s : ℕ) → s < n → (outs r).length s ≡ (ins s).length r) where
    -- A message brings the sender's block for `r`.
    message-block :
        (s i x : ℕ)
        → s < n
        → 1 ≤ i
        → i < n
        → from_rank n r i ≡ s
        → x < (outs r).length s
        → message s x ≡ input s ((ins s).offset r + x)
    unfolding Posted
    message-block s i x hs lo hi e hx =
        let (f, g, h) = to_rank-from_rank n r i hr lo hi in
        let back : to_rank n s i ≡ r = subst (λ t. to_rank n t i ≡ r) e h in
        posted s hs i x lo hi back (omega (arith, sizes s hs, ap (ins s).length back))
        ∙ ap (λ t. input s ((ins s).offset t + x)) back

    pub exchange-delivers :
        Disjoint n (outs r)
        → (senders : List ℕ) → AllLanded n r senders
        → (target : ℕ → A)
        → ((x : ℕ)
            → x < (outs r).length r
            → target ((outs r).offset r + x) ≡ input r ((ins r).offset r + x))
        → (s x : ℕ) → s < n
        → x < (outs r).length s
        → land_all (outs r) message senders target ((outs r).offset s + x)
          ≡ input s ((ins s).offset r + x)
    unfolding AllLanded Disjoint
    exchange-delivers disjoint senders (only, all) target own s x hs hx =
        land_all_agree (outs r) message ((outs r).offset s + x) (input s ((ins s).offset r + x))
          senders target (λ t m lo up. agree t m lo up)
          (elim (eq-or_ne s r) [
            | inl e ↦ inl (
                subst
                  (λ t.
                    (x < (outs r).length t)
                    → target ((outs r).offset t + x) ≡ input t ((ins t).offset r + x))
                  (sym e) (own x) hx)
            | inr ne ↦ inr (s, (member ne, omega arith, omega arith))
          ])
      where
        member : s ≢ r → Memᴰ s senders
        member ne =
            let (i, (lo, hi, e)) = turn n r s hr hs ne in
            subst (λ t. Memᴰ t senders) e (all i lo hi)

        agree :
            (t : ℕ)
            → Memᴰ t senders
            → (outs r).offset t ≤ (outs r).offset s + x
            → (outs r).offset s + x < (outs r).offset t + (outs r).length t
            → message t ((outs r).offset s + x - (outs r).offset t) ≡ input s ((ins s).offset r + x)
        agree t m lo up =
            let (i, (l, u, e)) = only t m in
            let ht : t < n = subst (λ k. k < n) e (to_rank-from_rank n r i hr l u).0 in
            elim (eq-or_ne s t) [
              | inl k ↦
                  ap (message t) (omega (arith, ap (outs r).offset k))
                  ∙ subst (λ q. message q x ≡ input s ((ins s).offset r + x)) k
                      (message-block s i x hs l u (e ∙ sym k) hx)
              | inr ne ↦ elim (disjoint s t hs ht ne) [
                | inl p ↦ absurd (omega arith)
                | inr q ↦ absurd (omega arith)
              ]
            ]
