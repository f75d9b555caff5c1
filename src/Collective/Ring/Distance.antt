-- ===== src/Collective/Ring/Distance.antt =====
-- How far apart two ranks are round the ring.
use gloo.Prelude.{ℕ, suc, ◌≡◌, refl, ◌+◌, ◌-◌, ◌%◌, ◌<◌, wrap-cases, arith}
use gloo.Collective.Ring.{recv_rank}
use gloo.Collective.Ring.Waits.{recv_rank_cases, recv_rank_lt}
use native.Mathlib.Nat.{mod-lt}

-- How many ranks before `r` the rank `s` is, round the ring.
unfoldable pub distance : ℕ → ℕ → ℕ → ℕ
distance n r s = (n + r - s) % n

pub distance_iff : (n r s j : ℕ) → r < n → s < n → j < n → distance n r s ≡ j → (n + r - j) % n ≡ s
unfolding distance
distance_iff n r s j hr hs hj e =
    ground (arith, wrap-cases (n + r - s) n (omega arith), wrap-cases (n + r - j) n (omega arith))

pub distance_lt : (n r s : ℕ) → r < n → s < n → distance n r s < n
unfolding distance
distance_lt n r s hr hs = ground (arith, wrap-cases (n + r - s) n (omega arith))

pub distance-zero : (n r s : ℕ) → r < n → s < n → distance n r s ≡ 0 → s ≡ r
unfolding distance
distance-zero n r s hr hs e = ground (arith, wrap-cases (n + r - s) n (omega arith))

pub distance-recv_rank :
    (n r s j : ℕ) → r < n → s < n → distance n r s ≡ suc j → distance n (recv_rank n r) s ≡ j
unfolding distance
distance-recv_rank n r s j hr hs e = ground (
  arith,
  wrap-cases (n + r - s) n (omega arith),
  recv_rank_cases n r hr,
  wrap-cases (n + recv_rank n r - s) n (omega (arith, recv_rank_lt n r hr)),
)

-- The rank `j` before.
pub distance-before :
    (n r j : ℕ) → r < n → j < n → ((n + r - j) % n < n) × (distance n r ((n + r - j) % n) ≡ j)
unfolding distance
distance-before n r j hr hj = (
  mod-lt (n + r - j) (omega arith),
  ground (
    arith,
    wrap-cases (n + r - j) n (omega arith),
    wrap-cases (n + r - (n + r - j) % n) n (omega arith),
  ),
)

-- What the previous rank sends is what the rank receives.
pub segment-recv_rank :
    (n r j : ℕ) → r < n → suc j < n → (n + recv_rank n r - j) % n ≡ (n + r - suc j) % n
segment-recv_rank n r j hr hj = ground (
  arith,
  recv_rank_cases n r hr,
  wrap-cases (n + recv_rank n r - j) n (omega (arith, recv_rank_lt n r hr)),
  wrap-cases (n + r - suc j) n (omega arith),
)

pub distance-back : (n r s : ℕ) → r < n → s < n → (n + r - distance n r s) % n ≡ s
distance-back n r s hr hs = distance_iff n r s (distance n r s) hr hs (distance_lt n r s hr hs) refl
