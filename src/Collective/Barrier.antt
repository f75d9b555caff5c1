-- ===== src/Collective/Barrier.antt =====
-- gloo/barrier.cc: the dissemination barrier.
pub mod Waits
use gloo.Prelude.{
  ℕ, zero, suc, ◌≡◌, ◌+◌, ◌-◌, ◌*◌, ◌%◌, ◌^◌, ◌≤◌, ◌<◌, Bool, true, false, Option, none, some, List,
  [], ◌∷◌, ◌++◌, u64, ltb, if◌then◌else◌,
}
use gloo.Slot.{build, barrier_slot_prefix}
use gloo.Collective.{Context, Side, Command, Calls}
use gloo.Collective.Ring.{set}

-- The peers at distance `d`.
unfoldable pub wait_for : (size rank d : ℕ) → ℕ
wait_for size rank d = (size + rank - d) % size

unfoldable pub notify : (size rank d : ℕ) → ℕ
notify size rank d = (size + rank + d) % size

-- The body of the loop; the buffer is empty, so the offsets and sizes are 0.
unfoldable pub barrier_iteration : (size rank d : ℕ) → List Command
barrier_iteration size rank d =
    Command.recv Side.output (wait_for size rank d) 0 0
    ∷ Command.send Side.output (notify size rank d) 0 0
    ∷ Command.wait_recv Side.output
    ∷ Command.wait_send Side.output
    ∷ []

-- `for (size_t d = ...; d < size; d <<= 1)`; `none` when the fuel is out.
unfoldable pub barrier_from : (fuel size rank d : ℕ) → Option (List Command)
barrier_from zero size rank d = none
barrier_from (suc fuel) size rank d =
    let rest = barrier_from fuel size rank (u64 (d * 2)) in
    if ltb d size
    then elim rest [ none ↦ none | some cs ↦ some (barrier_iteration size rank d ++ cs) ]
    else some []

-- `barrier`, with as much fuel as there are ranks.
unfoldable pub barrier : Context → (tag : ℕ) → Option Calls
barrier c tag = elim (barrier_from (suc c.size) c.size c.rank 1) [
  | none ↦ none
  | some cs ↦ some (record { slot = build barrier_slot_prefix tag; commands = cs })
]

-- All ranks: which have called `barrier`, and how many iterations each has completed.
pub record Hall : Type 0 where
  pub entered : ℕ → Bool
  pub rounds : ℕ → ℕ

unfoldable pub enter : ℕ → Hall → Hall
enter r h = record h { entered = set h.entered r true }

unfoldable pub pass : ℕ → Hall → Hall
pass r h = record h { rounds = set h.rounds r (suc (h.rounds r)) }

-- An iteration is over once the peer waited for has posted its send of the same iteration: it has
-- entered, and completed the iterations before. In iteration `k` the distance is `2 ^ k`.
pub data Step (size : ℕ) (h : Hall) : Hall → Type 0 where
  enters : (r : ℕ) → r < size → Step size h (enter r h)
  passes :
      (r : ℕ)
      → r < size
      → h.entered r ≡ true
      → 2 ^ h.rounds r < size
      → h.entered (wait_for size r (2 ^ h.rounds r)) ≡ true
      → h.rounds r ≤ h.rounds (wait_for size r (2 ^ h.rounds r))
      → Step size h (pass r h)

pub data Reach (size : ℕ) : Hall → Type 0 where
  starts : Reach size (record { entered = λ r. false; rounds = λ r. 0 })
  continues : {h g : Hall} → Reach size h → Step size h g → Reach size g
