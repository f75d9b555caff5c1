-- ===== src/Collective/Ring/Lands.antt =====
-- A message that lands keeps what holds of every world of the ring's loop, and so does every step.
use gloo.Prelude.{
  get_elem?, get_elem?_lt, some, ℕ, suc, ◌≡◌, sym, subst, ap, ◌∙◌, ◌+◌, ◌-◌, ◌≤◌, ◌<◌, ◌&&◌, ltb,
  leb, if◌then◌else◌, inl, inr, lt-or_le, inside, outside, arith,
}
use gloo.Collective.Ring.{Plan, Round, World, PostedRecv, Message, Step, Reach, recv_rank, land}
use gloo.Collective.Ring.Waits.{recv_rank_lt}
use mathlib.Core.Option.{some-injective}
use gloo.Collective.Ring.Invariant.{Serves, Carries, Sound, set_cases, receive_of}
use gloo.Collective.Ring.Issues.{issue-Sound}

module _ {ℓ} {A : Type ℓ} (p : Plan) (bytes : ℕ) (due : ℕ → ℕ → ℕ) (want : ℕ → A) where
  module _ (serves : Serves p bytes due) (w : World A) (sound : Sound p bytes due want w) where
    -- What a step that lands is about.
    pub record Landing (q : ℕ) (here : PostedRecv) (m : Message A) : Type ℓ where
      pub posted_here : w.landed q < w.issued q
      pub sent_there : w.landed q < w.issued (recv_rank p.size q)
      pub here_is : here ≡ receive_of p q (w.landed q)
      pub carried : Carries p bytes due want q (w.landed q) (some m)

    pub lands-Landing :
        (q : ℕ) (here : PostedRecv) (m : Message A)
        → q < p.size
        → get_elem? (w.posted q) (w.landed q) ≡ some here
        → get_elem? (w.sent here.source) (w.landed q) ≡ some m
        → Landing q here m
    unfolding receive_of
    lands-Landing q here m hq eh em = record {
      posted_here = first;
      sent_there = second;
      here_is = is_here;
      carried =
          subst (Carries p bytes due want q (w.landed q)) from_there
            (sound.carries q (w.landed q) hq second);
    }
      where
        first : w.landed q < w.issued q
        first = omega (arith, get_elem?_lt (w.posted q) (w.landed q) eh, sound.posts q hq)

        is_here : here ≡ receive_of p q (w.landed q)
        is_here =
            some-injective here (receive_of p q (w.landed q))
              (sym eh ∙ sound.receives q (w.landed q) hq first)

        from_there : get_elem? (w.sent (recv_rank p.size q)) (w.landed q) ≡ some m
        from_there = subst (λ h. get_elem? (w.sent h.source) (w.landed q) ≡ some m) is_here em

        second : w.landed q < w.issued (recv_rank p.size q)
        second = omega (
          arith,
          get_elem?_lt (w.sent (recv_rank p.size q)) (w.landed q) from_there,
          sound.sends (recv_rank p.size q) (recv_rank_lt p.size q hq),
        )

    land-Sound :
        (q : ℕ) (here : PostedRecv) (m : Message A)
        → q < p.size
        → Landing q here m
        → Sound p bytes due want (land q here m w)
    unfolding land receive_of
    land-Sound q here m hq landing = record {
      bounded = λ r hr.
          set_cases (λ t. (t ≤ w.issued r) × (w.issued r ≤ p.steps)) w.landed q r (suc (w.landed q))
            (λ e. rw e (landing.posted_here, (sound.bounded q hq).1)) (λ e. sound.bounded r hr);
      behind = λ r hr.
          set_cases (λ t. t ≤ w.issued (recv_rank p.size r)) w.landed q r (suc (w.landed q))
            (λ e. rw e landing.sent_there) (λ e. sound.behind r hr);
      holds = λ r a hr ha.
          set_cases (λ t. due r a ≤ t → (land q here m w).memory r a ≡ want a) w.landed q r
            (suc (w.landed q))
            (λ e hd.
              set_cases (λ t. t a ≡ want a) w.memory q r _
                (λ _. landed_byte a ha (subst (λ s. due s a ≤ suc (w.landed q)) e hd))
                (λ n. absurd (n e)))
            (λ n hd.
              set_cases (λ t. t a ≡ want a) w.memory q r _ (λ e. absurd (n e))
                (λ _. sound.holds r a hr ha hd));
      sends = sound.sends;
      posts = sound.posts;
      receives = sound.receives;
      carries = sound.carries;
    }
      where
        here' : Round
        here' = p.round q (w.landed q)

        in_steps : w.landed q < p.steps
        in_steps = omega (arith, (sound.bounded q hq).1, landing.posted_here)

        offset_is : here.offset ≡ here'.recv_offset
        offset_is = ap (λ h. h.offset) landing.here_is

        same : landing.carried.message ≡ m
        same = sym (some-injective m landing.carried.message landing.carried.there)

        size_is : m.size ≡ here'.recv_size
        size_is = ap (λ x. x.size) (sym same) ∙ landing.carried.size_is

        -- The byte at `a`, from the message or as it was.
        landed_byte :
            (a : ℕ)
            → a < bytes
            → due q a ≤ suc (w.landed q)
            → (if leb here.offset a && ltb a (here.offset + m.size)
                then m.bytes (a - here.offset)
                else w.memory q a)
              ≡ want a
        landed_byte a ha hd =
            rw (offset_is, size_is)
              (elim (lt-or_le (w.landed q) (due q a)) [
                | inl l ↦
                    let (lo, hi) = serves.reaches q (w.landed q) a hq in_steps ha (omega arith) in
                    rw (inside here'.recv_offset a (here'.recv_offset + here'.recv_size) lo hi) (
                      ap (λ x. x.bytes (a - here'.recv_offset)) (sym same)
                      ∙ landing.carried.wanted a ha (omega arith))
                | inr g ↦
                    rw
                      (outside here'.recv_offset a (here'.recv_offset + here'.recv_size) (λ b.
                        absurd (omega (arith, serves.within q (w.landed q) a hq in_steps b.0 b.1))))
                      (sound.holds q a hq ha g)
              ])

    pub Step-Sound : {v : World A} → Step p w v → Sound p bytes due want v
    Step-Sound (Step.issues q hq hs hw hv) = issue-Sound p bytes due want serves w sound q hq hs hw
    Step-Sound (Step.lands q here m hq eh em et ez) =
        land-Sound q here m hq (lands-Landing q here m hq eh em)

    -- The next message of the ring lands, once it has been sent and its receive posted.
    pub can_land :
        (q : ℕ)
        → q < p.size
        → w.landed q < w.issued q
        → w.landed q < w.issued (recv_rank p.size q)
        → (v : World A) × Step p w v
    unfolding receive_of
    can_land q hq hi hl =
        let c = sound.carries q (w.landed q) hq hl in
        (
          _,
          Step.lands q (receive_of p q (w.landed q)) c.message hq
              (sound.receives q (w.landed q) hq hi) c.there c.target_is (omega (arith, c.size_is)),
        )

  -- The bytes a rank has been sent are the wanted ones, in every world reached.
  pub reach-Sound :
      Serves p bytes due
      → {start w : World A} → Sound p bytes due want start
      → Reach p start w
      → Sound p bytes due want w
  reach-Sound serves sound Reach.starts = sound
  reach-Sound serves sound (Reach.continues reach step) =
      Step-Sound serves _ (reach-Sound serves sound reach) step
