-- ===== src/Collective/Ring/Invariant.antt =====
-- What holds of every world that the ring's loop reaches, whatever the order of the steps.
use gloo.Prelude.{
  length, length-append, get_elem?, Option, some, List, [], ◌∷◌, ◌++◌, refl, lt→ltb, le→ltb, ℕ, suc,
  ◌≡◌, sym, subst, ap, ◌+◌, ◌-◌, ◌≤◌, ◌<◌, ◌≢◌, ◌⊎◌, inl, inr, lt-or_le, arith,
}
use gloo.Collective.Ring.{
  Plan, World, PostedRecv, Message, recv_rank, send_rank, iteration, make, set, issue, begin,
}

-- `due r a`: in how many iterations the byte at `a` has reached rank `r`, 0 for its own bytes.
-- Iteration `i` receives exactly the bytes due after it, at the addresses where the previous rank
-- reads them, and that rank has them by then.
pub record Serves (p : Plan) (bytes : ℕ) (due : ℕ → ℕ → ℕ) : Type 0 where
  pub within :
      (r i a : ℕ)
      → r < p.size
      → i < p.steps
      → (p.round r i).recv_offset ≤ a
      → a < (p.round r i).recv_offset + (p.round r i).recv_size
      → due r a ≡ suc i
  pub reaches :
      (r i a : ℕ)
      → r < p.size
      → i < p.steps
      → a < bytes
      → due r a ≡ suc i
      → ((p.round r i).recv_offset ≤ a) × (a < (p.round r i).recv_offset + (p.round r i).recv_size)
  pub matches :
      (r i : ℕ)
      → r < p.size
      → i < p.steps
      → (p.round (recv_rank p.size r) i).send_offset ≡ (p.round r i).recv_offset
  pub sizes :
      (r i : ℕ)
      → r < p.size
      → i < p.steps
      → (p.round (recv_rank p.size r) i).send_size ≡ (p.round r i).recv_size
  pub earlier :
      (r i a : ℕ)
      → r < p.size
      → i < p.steps
      → a < bytes
      → due r a ≡ suc i
      → due (recv_rank p.size r) a ≤ suc i - p.depth

pub set_cases {ℓ ℓ'} :
    {X : Type ℓ} (P : X → Type ℓ') (f : ℕ → X) (r s : ℕ) (x : X)
    → (s ≡ r → P x)
    → (s ≢ r → P (f s))
    → P (set f r x s)
unfolding set
set_cases P f r s x same other = elim (eq-or_ne s r) [
  | inl e ↦ subst P (sym (set_same e)) (same e)
  | inr e ↦ subst P (sym (set_other e)) (other e)
]
  where
    eq-or_ne : (a b : ℕ) → (a ≡ b) ⊎ (a ≢ b)
    eq-or_ne a b = ground arith

    set_same : s ≡ r → set f r x s ≡ x
    set_same e = ground arith

    set_other : s ≢ r → set f r x s ≡ f s
    set_other e = ground arith

-- A count that one rank raises.
pub below_raised :
    (f : ℕ → ℕ) (q s k : ℕ) → k < set f q (suc (f q)) s → (k < f s) ⊎ ((s ≡ q) × (k ≡ f q))
below_raised f q s k =
    set_cases (λ t. k < t → (k < f s) ⊎ ((s ≡ q) × (k ≡ f q))) f q s (suc (f q))
      (λ e h. ground (arith, ap f e)) (λ e h. inl h)

-- A list that one rank makes longer, with its count.
pub length-set_longer {ℓ} :
    {X : Type ℓ} (f : ℕ → List X) (n : ℕ → ℕ) (q : ℕ) (x : X)
    → length (f q) ≡ n q
    → (r : ℕ) → length (f r) ≡ n r
    → length (set f q (f q ++ (x ∷ [])) r) ≡ set n q (suc (n q)) r
length-set_longer f n q x h r h' =
    set_cases (λ t. length t ≡ set n q (suc (n q)) r) f q r _
      (λ e.
        set_cases (λ t. length (f q ++ (x ∷ [])) ≡ t) n q r (suc (n q))
          (λ _. omega (arith, length-append (f q) (x ∷ []), h)) (λ m. absurd (m e)))
      (λ m. set_cases (λ t. length (f r) ≡ t) n q r (suc (n q)) (λ e. absurd (m e)) (λ _. h'))

-- The receive and the send of an iteration.
unfoldable pub receive_of : Plan → (r i : ℕ) → PostedRecv
receive_of p r i = record {
  source = recv_rank p.size r;
  offset = (p.round r i).recv_offset;
  size = (p.round r i).recv_size;
}

unfoldable pub send_of {ℓ} : {A : Type ℓ} → Plan → (r i : ℕ) → (ℕ → A) → Message A
send_of p r i m = record {
  target = send_rank p.size r;
  size = (p.round r i).send_size;
  bytes = λ j. m ((p.round r i).send_offset + j);
}

-- The calls of an iteration, whether it waits or not.
unfoldable pub issued_once {ℓ} : {A : Type ℓ} → Plan → ℕ → World A → World A
issued_once p r w = record {
  issued = set w.issued r (suc (w.issued r));
  landed = w.landed;
  memory = w.memory;
  sent = set w.sent r (w.sent r ++ (send_of p r (w.issued r) (w.memory r) ∷ []));
  posted = set w.posted r (w.posted r ++ (receive_of p r (w.issued r) ∷ []));
}

pub issue-issued_once {ℓ} :
    {A : Type ℓ} (p : Plan) (r : ℕ) (w : World A) → issue p r w ≡ issued_once p r w
unfolding issue iteration make issued_once send_of receive_of
issue-issued_once p r w = elim (lt-or_le (w.issued r) p.depth) [
  | inl l ↦ rw (lt→ltb (w.issued r) p.depth l) refl
  | inr g ↦ rw (le→ltb (w.issued r) p.depth g) refl
]

module _ {ℓ} {A : Type ℓ} (p : Plan) (bytes : ℕ) (due : ℕ → ℕ → ℕ) (want : ℕ → A) where
  -- The message that rank `r` is to receive in iteration `k`.
  pub record Carries (r k : ℕ) (x : Option (Message A)) : Type ℓ where
    pub message : Message A
    pub there : x ≡ some message
    pub target_is : message.target ≡ r
    pub size_is : message.size ≡ (p.round r k).recv_size
    pub wanted :
        (a : ℕ)
        → a < bytes
        → due r a ≡ suc k
        → message.bytes (a - (p.round r k).recv_offset) ≡ want a

  pub record Sound (w : World A) : Type ℓ where
    pub bounded : (r : ℕ) → r < p.size → (w.landed r ≤ w.issued r) × (w.issued r ≤ p.steps)
    pub behind : (r : ℕ) → r < p.size → w.landed r ≤ w.issued (recv_rank p.size r)
    pub holds : (r a : ℕ) → r < p.size → a < bytes → due r a ≤ w.landed r → w.memory r a ≡ want a
    pub sends : (r : ℕ) → r < p.size → length (w.sent r) ≡ w.issued r
    pub posts : (r : ℕ) → r < p.size → length (w.posted r) ≡ w.issued r
    pub receives :
        (r k : ℕ) → r < p.size → k < w.issued r → get_elem? (w.posted r) k ≡ some (receive_of p r k)
    pub carries :
        (r k : ℕ)
        → r < p.size
        → k < w.issued (recv_rank p.size r)
        → Carries r k (get_elem? (w.sent (recv_rank p.size r)) k)

  pub begin-Sound :
      (m : ℕ → ℕ → A)
      → ((r a : ℕ) → r < p.size → a < bytes → due r a ≡ 0 → m r a ≡ want a)
      → Sound (begin m)
  unfolding begin
  begin-Sound m h = record {
    bounded = λ r hr. (omega arith, omega arith);
    behind = λ r hr. omega arith;
    holds = λ r a hr ha hd. h r a hr ha (omega arith);
    sends = λ r hr. refl;
    posts = λ r hr. refl;
    receives = λ r k hr hk. absurd (omega arith);
    carries = λ r k hr hk. absurd (omega arith);
  }
