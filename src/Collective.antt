-- ===== src/Collective.antt =====
-- The collectives with options (gloo/allgather.cc and its siblings): what a rank asks of its
-- unbound buffers, in order, with the checks that come before.
pub mod Ring
pub mod Allgather
pub mod Layout
pub mod Exchange
pub mod Alltoall
pub mod Barrier
pub mod Allreduce
pub mod Broadcast
mod Tests
pub mod Allgatherv
use gloo.Prelude.{ℕ, ◌+◌, ◌-◌, Bool, ◌&&◌, List, [], ◌∷◌, ltb, leb, if◌then◌else◌}
use gloo.Slot.{Slot}

-- A rank's view of the group: `rank`, `size`, and which ranks `getPair` has a pair for.
pub record Context : Type 0 where
  pub rank : ℕ
  pub size : ℕ
  pub has_pair : ℕ → Bool

-- The buffer that a call is made on: `in` or `out`.
pub data Side : Type 0 where
  input : Side
  output : Side

-- The calls, on the bytes [offset, offset + size) of the side's buffer; `copy` is a memcpy from the
-- input to the output.
pub data Command : Type 0 where
  copy : (to from size : ℕ) → Command
  send : Side → (rank offset size : ℕ) → Command
  recv : Side → (rank offset size : ℕ) → Command
  wait_send : Side → Command
  wait_recv : Side → Command

-- The calls of a collective that has passed its checks, all with one slot.
pub record Calls : Type 0 where
  pub slot : Slot
  pub commands : List Command

unfoldable pub memcpy {ℓ} : {A : Type ℓ} → (to from size : ℕ) → (ℕ → A) → (ℕ → A) → ℕ → A
memcpy to from size source target x =
    if leb to x && ltb x (to + size) then source (from + (x - to)) else target x

-- The bytes of the output after the memcpys of a list of calls; the other calls leave them to the
-- transport.
unfoldable pub copied {ℓ} : {A : Type ℓ} → List Command → (ℕ → A) → (ℕ → A) → ℕ → A
copied [] source target a = target a
copied (Command.copy to from size ∷ cs) source target a =
    copied cs source (memcpy to from size source target) a
copied (Command.send s r o n ∷ cs) source target a = copied cs source target a
copied (Command.recv s r o n ∷ cs) source target a = copied cs source target a
copied (Command.wait_send s ∷ cs) source target a = copied cs source target a
copied (Command.wait_recv s ∷ cs) source target a = copied cs source target a
