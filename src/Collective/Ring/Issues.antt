-- ===== src/Collective/Ring/Issues.antt =====
-- An iteration of the ring's loop keeps what holds of every world.
use gloo.Prelude.{
  get_elem?, get_elem?-append_left, get_elem?-append_last, some, [], ◌∷◌, ◌++◌, ℕ, suc, ◌≡◌, sym,
  subst, subst₂, ap, ◌∙◌, ◌+◌, ◌-◌, ◌≤◌, ◌<◌, ◌⊎◌, inl, inr, lt-or_le, arith,
}
use gloo.Collective.Ring.{
  Plan, World, Message, recv_rank, send_rank, iterations, recv_waits, set, issue,
}
use gloo.Collective.Ring.Waits.{recv_waits-iterations, send_rank-recv_rank}
use gloo.Collective.Ring.Invariant.{
  Serves, Carries, Sound, set_cases, below_raised, length-set_longer, receive_of, send_of,
  issued_once, issue-issued_once,
}

module _ {ℓ} {A : Type ℓ} (p : Plan) (bytes : ℕ) (due : ℕ → ℕ → ℕ) (want : ℕ → A) where
  module _ (serves : Serves p bytes due) (w : World A) (sound : Sound p bytes due want w) where
    module _ (q : ℕ) (hq : q < p.size) (hs : w.issued q < p.steps)
        (hw : recv_waits (iterations p q (suc (w.issued q))) ≤ w.landed q) where
      message : Message A
      message = send_of p q (w.issued q) (w.memory q)

      -- What the iteration sends to rank `r`.
      fresh :
          (r k : ℕ)
          → r < p.size
          → recv_rank p.size r ≡ q
          → k ≡ w.issued q
          → Carries p bytes due want r k (get_elem? (w.sent q ++ (message ∷ [])) k)
      unfolding message send_of
      fresh r k hr e h = record {
        message = message;
        there = get_elem?-append_last (w.sent q) message k (h ∙ sym (sound.sends q hq));
        target_is = ap (send_rank p.size) (sym e) ∙ send_rank-recv_rank p.size r hr;
        size_is =
            subst₂ (λ s j. (p.round s j).send_size ≡ (p.round r k).recv_size) e h
              (serves.sizes r k hr (omega arith));
        wanted = λ a ha hd.
            ap (w.memory q) (addr a ha hd)
            ∙ sound.holds q a hq ha (
                omega (
                  arith,
                  recv_waits-iterations p q (suc (w.issued q)),
                  ap (λ s. due s a) e,
                  serves.earlier r k a hr (omega arith) ha hd,
                ));
      }
        where
          addr :
              (a : ℕ)
              → a < bytes
              → due r a ≡ suc k
              → (p.round q (w.issued q)).send_offset + (a - (p.round r k).recv_offset) ≡ a
          addr a ha hd = omega (
            arith,
            subst₂ (λ s j. (p.round s j).send_offset ≡ (p.round r k).recv_offset) e h
                (serves.matches r k hr (omega arith)),
            (serves.reaches r k a hr (omega arith) ha hd).0,
          )

      carries_still :
          (r k : ℕ)
          → r < p.size
          → (k < w.issued (recv_rank p.size r)) ⊎ ((recv_rank p.size r ≡ q) × (k ≡ w.issued q))
          → Carries p bytes due want r k
              (get_elem? (set w.sent q (w.sent q ++ (message ∷ [])) (recv_rank p.size r)) k)
      carries_still r k hr c =
          set_cases (λ t. Carries p bytes due want r k (get_elem? t k)) w.sent q
            (recv_rank p.size r) (w.sent q ++ (message ∷ []))
            (λ e. elim c [
              | inl h ↦
                  subst (Carries p bytes due want r k)
                    (ap (λ s. get_elem? (w.sent s) k) e
                      ∙ sym (
                          get_elem?-append_left (w.sent q) (message ∷ []) k
                            (omega (arith, sound.sends q hq, ap w.issued e))))
                    (sound.carries r k hr h)
              | inr (e', h) ↦ fresh r k hr e' h
            ])
            (λ n. elim c [ inl h ↦ sound.carries r k hr h | inr (e', h) ↦ absurd (n e') ])

      receives_still :
          (k : ℕ)
          → k < suc (w.issued q)
          → get_elem? (w.posted q ++ (receive_of p q (w.issued q) ∷ [])) k ≡ some (receive_of p q k)
      receives_still k hk = elim (lt-or_le k (w.issued q)) [
        | inl l ↦
            get_elem?-append_left (w.posted q) _ k (omega (arith, sound.posts q hq))
            ∙ sound.receives q k hq l
        | inr g ↦
            let e : k ≡ w.issued q = omega arith in
            get_elem?-append_last (w.posted q) _ k (e ∙ sym (sound.posts q hq))
            ∙ ap (λ j. some (receive_of p q j)) (sym e)
      ]

      once-Sound : Sound p bytes due want (issued_once p q w)
      unfolding issued_once send_of message
      once-Sound = record {
        bounded = λ r hr.
            set_cases (λ t. (w.landed r ≤ t) × (t ≤ p.steps)) w.issued q r (suc (w.issued q))
              (λ e. rw e (omega (arith, (sound.bounded q hq).0), omega arith))
              (λ e. sound.bounded r hr);
        behind = λ r hr.
            set_cases (λ t. w.landed r ≤ t) w.issued q (recv_rank p.size r) (suc (w.issued q))
              (λ e. omega (arith, sound.behind r hr, ap w.issued e)) (λ e. sound.behind r hr);
        holds = sound.holds;
        sends =
            λ r hr. length-set_longer w.sent w.issued q _ (sound.sends q hq) r (sound.sends r hr);
        posts =
            λ r hr. length-set_longer w.posted w.issued q _ (sound.posts q hq) r (sound.posts r hr);
        receives = λ r k hr hk.
            set_cases (λ t. get_elem? t k ≡ some (receive_of p r k)) w.posted q r _
              (λ e.
                subst
                  (λ s.
                    get_elem? (w.posted q ++ (receive_of p q (w.issued q) ∷ [])) k
                    ≡ some (receive_of p s k))
                  (sym e)
                  (receives_still k (elim (below_raised w.issued q r k hk) [
                    | inl h ↦ omega (arith, ap w.issued e)
                    | inr (e', h) ↦ omega arith
                  ])))
              (λ n. elim (below_raised w.issued q r k hk) [
                | inl h ↦ sound.receives r k hr h
                | inr (e', h) ↦ absurd (n e')
              ]);
        carries =
            λ r k hr hk. carries_still r k hr (below_raised w.issued q (recv_rank p.size r) k hk);
      }

      pub issue-Sound : Sound p bytes due want (issue p q w)
      issue-Sound = subst (Sound p bytes due want) (sym (issue-issued_once p q w)) once-Sound
