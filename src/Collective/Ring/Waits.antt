-- ===== src/Collective/Ring/Waits.antt =====
-- The neighbours in the ring, and how many operations the loop has waited for.
use gloo.Prelude.{
  ℕ, zero, suc, ◌≡◌, ◌+◌, ◌-◌, ◌<◌, ◌⊎◌, inl, inr, List, [], ◌∷◌, ◌++◌, lt-or_le, lt→ltb, le→ltb,
  wrap-cases, wrap-cases₂, arith,
}
use gloo.Collective.{Command}
use gloo.Collective.Ring.{Plan, recv_rank, send_rank, iteration, iterations, recv_waits, send_waits}
use native.Mathlib.Nat.{mod-lt}

pub recv_rank_lt : (n r : ℕ) → r < n → recv_rank n r < n
unfolding recv_rank
recv_rank_lt n r h = mod-lt (n + r - 1) (omega arith)

pub recv_rank_cases :
    (n r : ℕ) → r < n → ((r ≡ 0) × (recv_rank n r ≡ n - 1)) ⊎ ((0 < r) × (recv_rank n r ≡ r - 1))
unfolding recv_rank
recv_rank_cases n r h = elim (wrap-cases (n + r - 1) n (omega arith)) [
  | inl (l, e) ↦ inl (omega arith, omega arith)
  | inr (g, e) ↦ inr (omega arith, omega arith)
]

pub send_rank_lt : (n r : ℕ) → r < n → send_rank n r < n
unfolding send_rank
send_rank_lt n r h = mod-lt (n + r + 1) (omega arith)

-- The next rank's previous one is the rank itself.
pub recv_rank-send_rank : (n r : ℕ) → r < n → recv_rank n (send_rank n r) ≡ r
unfolding send_rank
recv_rank-send_rank n r h = ground (
  arith,
  wrap-cases₂ (r + 1) n (omega arith),
  recv_rank_cases n (send_rank n r) (send_rank_lt n r h),
)

-- And the previous rank's next one.
pub send_rank-recv_rank : (n r : ℕ) → r < n → send_rank n (recv_rank n r) ≡ r
unfolding send_rank
send_rank-recv_rank n r h = ground (
  arith,
  recv_rank_cases n r h,
  wrap-cases₂ (recv_rank n r + 1) n (omega (arith, recv_rank_lt n r h)),
)

recv_waits-append : (cs ds : List Command) → recv_waits (cs ++ ds) ≡ recv_waits cs + recv_waits ds
unfolding recv_waits
recv_waits-append [] ds = omega arith
recv_waits-append (Command.wait_recv s ∷ cs) ds = omega (arith, recv_waits-append cs ds)
recv_waits-append (Command.wait_send s ∷ cs) ds = recv_waits-append cs ds
recv_waits-append (Command.send s r o n ∷ cs) ds = recv_waits-append cs ds
recv_waits-append (Command.recv s r o n ∷ cs) ds = recv_waits-append cs ds
recv_waits-append (Command.copy t f n ∷ cs) ds = recv_waits-append cs ds

send_waits-append : (cs ds : List Command) → send_waits (cs ++ ds) ≡ send_waits cs + send_waits ds
unfolding send_waits
send_waits-append [] ds = omega arith
send_waits-append (Command.wait_send s ∷ cs) ds = omega (arith, send_waits-append cs ds)
send_waits-append (Command.wait_recv s ∷ cs) ds = send_waits-append cs ds
send_waits-append (Command.send s r o n ∷ cs) ds = send_waits-append cs ds
send_waits-append (Command.recv s r o n ∷ cs) ds = send_waits-append cs ds
send_waits-append (Command.copy t f n ∷ cs) ds = send_waits-append cs ds

module _ (p : Plan) (r : ℕ) where
  -- An iteration waits for one operation of each kind, or for none while there is room.
  recv_waits-iteration : (i : ℕ) → recv_waits (iteration p r i) ≡ suc i - p.depth - (i - p.depth)
  unfolding recv_waits iteration
  recv_waits-iteration i = elim (lt-or_le i p.depth) [
    | inl l ↦ rw (lt→ltb i p.depth l) (omega arith)
    | inr g ↦ rw (le→ltb i p.depth g) (omega arith)
  ]

  send_waits-iteration : (i : ℕ) → send_waits (iteration p r i) ≡ suc i - p.depth - (i - p.depth)
  unfolding send_waits iteration
  send_waits-iteration i = elim (lt-or_le i p.depth) [
    | inl l ↦ rw (lt→ltb i p.depth l) (omega arith)
    | inr g ↦ rw (le→ltb i p.depth g) (omega arith)
  ]

  -- All but the last `depth` operations have been waited for.
  pub recv_waits-iterations : (i : ℕ) → recv_waits (iterations p r i) ≡ i - p.depth
  unfolding recv_waits iterations
  recv_waits-iterations zero = omega arith
  recv_waits-iterations (suc i) = omega (
    arith,
    recv_waits-append (iterations p r i) (iteration p r i),
    recv_waits-iterations i,
    recv_waits-iteration i,
  )

  pub send_waits-iterations : (i : ℕ) → send_waits (iterations p r i) ≡ i - p.depth
  unfolding send_waits iterations
  send_waits-iterations zero = omega arith
  send_waits-iterations (suc i) = omega (
    arith,
    send_waits-append (iterations p r i) (iteration p r i),
    send_waits-iterations i,
    send_waits-iteration i,
  )
