-- ===== src/Collective/Broadcast/Tests.antt =====
-- A broadcast from rank 1 of three.
use gloo.Prelude.{ℕ, ◌≡◌, ◌+◌, ◌≤◌, arith}
use gloo.Collective.Broadcast.{log2ceil, Node, Spread, unsent}
use gloo.Collective.Broadcast.Spreads.{broadcast-spreads}
use gloo.Collective.Broadcast.Completes.{Finished, broadcast-completes}

abbrev contents : ℕ → ℕ
contents r = 10 + r

finished : (u : ℕ → Node ℕ) × (Spread 3 1 (unsent contents) u × Finished 3 u)
finished = broadcast-completes 3 1 (omega arith) (omega arith) (unsent contents) Spread.begins

broadcast-completes_example : (u : ℕ → Node ℕ) × (Spread 3 1 (unsent contents) u × Finished 3 u)
broadcast-completes_example =
    broadcast-completes 3 1 (omega arith) (omega arith) (unsent contents) Spread.begins

finished_passed : log2ceil 3 ≤ (finished.0 0).passed
unfolding Finished
finished_passed = finished.1.1 0 (omega arith)

broadcast-spreads_example : (finished.0 0).content ≡ 11
broadcast-spreads_example =
    broadcast-spreads 3 1 (omega arith) (omega arith) contents finished.1.0 0 (omega arith)
      finished_passed
