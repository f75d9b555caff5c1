-- ===== src/Collective/Exchange.antt =====
-- The loop that gloo/alltoall.cc and gloo/alltoallv.cc share: every rank sends a block of its
-- input to every other and receives one from each.
pub mod Delivers
use gloo.Prelude.{ℕ, zero, suc, ◌≡◌, ◌≢◌, ◌+◌, ◌-◌, ◌%◌, ◌≤◌, ◌<◌, ◌⊎◌, List, [], ◌∷◌, ◌++◌}
use mathlib.Core.List.{Memᴰ}
use gloo.Collective.{Side, Command, memcpy}

-- Where each rank's block lies in a buffer, and its length.
pub record Blocks : Type 0 where
  pub offset : ℕ → ℕ
  pub length : ℕ → ℕ

-- `sendRank` and `recvRank` of the `i`th iteration.
unfoldable pub to_rank : (size rank i : ℕ) → ℕ
to_rank size rank i = (rank + i) % size

unfoldable pub from_rank : (size rank i : ℕ) → ℕ
from_rank size rank i = (rank + size - i) % size

-- `for (int i = 1; i <= k; i++)`, the remote copies.
unfoldable pub exchange : (size rank : ℕ) → (ins outs : Blocks) → (k : ℕ) → List Command
exchange size rank ins outs zero = []
exchange size rank ins outs (suc k) =
    let i = suc k in
    exchange size rank ins outs k
    ++ (Command.send Side.input (to_rank size rank i) (ins.offset (to_rank size rank i))
          (ins.length (to_rank size rank i))
        ∷ Command.recv Side.output (from_rank size rank i) (outs.offset (from_rank size rank i))
            (outs.length (from_rank size rank i))
        ∷ [])

-- The waits that follow.
unfoldable pub exchange_waits : ℕ → List Command
exchange_waits zero = []
exchange_waits (suc k) =
    Command.wait_send Side.input ∷ Command.wait_recv Side.output ∷ exchange_waits k

-- The receives of one rank land in some order: `senders` are the ranks whose messages have landed,
-- `message s` the bytes that rank `s` sent.
unfoldable pub land_all {ℓ} :
    {A : Type ℓ} → (outs : Blocks) → (message : ℕ → ℕ → A) → List ℕ → (ℕ → A) → ℕ → A
land_all outs message [] target a = target a
land_all outs message (s ∷ senders) target a =
    land_all outs message senders (memcpy (outs.offset s) 0 (outs.length s) (message s) target) a

-- Every receive of the loop has landed, and no other: the senders are the ranks it receives from.
unfoldable pub AllLanded : (size rank : ℕ) → List ℕ → Type 0
AllLanded size rank senders =
    ((s : ℕ) → Memᴰ s senders → (i : ℕ) × ((1 ≤ i) × (i < size) × (from_rank size rank i ≡ s)))
    × ((i : ℕ) → 1 ≤ i → i < size → Memᴰ (from_rank size rank i) senders)

-- What rank `s` sends to rank `r` is what its loop posts: the block of the input for that rank.
unfoldable pub Posted {ℓ} :
    {A : Type ℓ}
    → (size : ℕ) → (ins : ℕ → Blocks) → (input : ℕ → ℕ → A) → (r s : ℕ) → (ℕ → A)
    → Type ℓ
Posted size ins input r s message =
    (i x : ℕ)
    → 1 ≤ i
    → i < size
    → to_rank size s i ≡ r
    → x < (ins s).length (to_rank size s i)
    → message x ≡ input s ((ins s).offset (to_rank size s i) + x)

-- The blocks of a buffer do not overlap.
unfoldable pub Disjoint : (size : ℕ) → Blocks → Type 0
Disjoint size b =
    (s t : ℕ)
    → s < size
    → t < size
    → s ≢ t
    → (b.offset s + b.length s ≤ b.offset t) ⊎ (b.offset t + b.length t ≤ b.offset s)
