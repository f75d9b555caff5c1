-- ===== src/Collective/Broadcast.antt =====
-- gloo/broadcast.cc, with `log2ceil` of gloo/math.h.
pub mod Masks
pub mod Tree
pub mod Spreads
pub mod Completes
mod Tests
use gloo.Prelude.{
  ℕ, zero, suc, ◌≡◌, ◌+◌, ◌-◌, ◌*◌, ◌%◌, ◌^◌, ◌≤◌, ◌<◌, Bool, true, false, not, Option, none, some,
  List, [], ◌∷◌, ◌++◌, u32, bit_and, ltb, leb, ◌==◌, if◌then◌else◌,
}
use Prim.Native.Nat.{bit_xor}
use gloo.Slot.{build, broadcast_slot_prefix}
use gloo.Collective.{Context, Side, Command, Calls}
use gloo.Collective.Ring.{set}

-- `for (uint32_t size = 1; size < value; ++dim, size <<= 1)`, the branch of `log2ceil` for compilers
-- other than GCC and Clang, on fuel; 32 iterations are the most
-- for a value that is at most 2 ^ 31.
unfoldable pub log2ceil_from : (fuel value size dim : ℕ) → ℕ
log2ceil_from zero value size dim = dim
log2ceil_from (suc fuel) value size dim =
    let rest = log2ceil_from fuel value (u32 (size * 2)) (dim + 1) in
    if ltb size value then rest else dim

unfoldable pub log2ceil : (value : ℕ) → ℕ
log2ceil value = log2ceil_from 32 value 1 0

-- `vrank`, and `peer` of a virtual rank.
unfoldable pub virtual_rank : (size root rank : ℕ) → ℕ
virtual_rank size root rank = (rank + size - root) % size

unfoldable pub actual_rank : (size root vpeer : ℕ) → ℕ
actual_rank size root vpeer = (vpeer + root) % size

-- What an iteration does.
pub data Turn : Type 0 where
  idle : Turn
  sends : (peer : ℕ) → Turn
  receives : (peer : ℕ) → Turn

-- The body of the loop after the mask has lost bit `i`.
unfoldable pub turn_of : (size root vrank mask i : ℕ) → Turn
turn_of size root vrank mask i =
    let vpeer = bit_xor vrank (2 ^ i) in
    if not (bit_and vrank mask == 0)
    then Turn.idle
    else if leb size vpeer
    then Turn.idle
    else if bit_and vrank (2 ^ i) == 0
    then Turn.sends (actual_rank size root vpeer)
    else Turn.receives (actual_rank size root vpeer)

-- `mask` after `i` iterations.
unfoldable pub mask_after : (dim i : ℕ) → ℕ
mask_after dim zero = 2 ^ dim - 1
mask_after dim (suc i) = bit_xor (mask_after dim i) (2 ^ i)

-- Iteration `i` of a rank.
unfoldable pub turn_at : (size root rank i : ℕ) → Turn
turn_at size root rank i =
    turn_of size root (virtual_rank size root rank) (mask_after (log2ceil size) (suc i)) i

-- Its calls; `source` is the buffer that `in` stands for.
unfoldable pub turn_calls : Side → (bytes : ℕ) → Turn → List Command
turn_calls source bytes Turn.idle = []
turn_calls source bytes (Turn.sends peer) = Command.send source peer 0 bytes ∷ []
turn_calls source bytes (Turn.receives peer) =
    Command.recv Side.output peer 0 bytes ∷ Command.wait_recv Side.output ∷ []

unfoldable pub turn_waits : Side → Turn → List Command
turn_waits source Turn.idle = []
turn_waits source (Turn.sends peer) = Command.wait_send source ∷ []
turn_waits source (Turn.receives peer) = []

-- The loop, and the waits for the sends.
unfoldable pub loop_calls : Side → (bytes size root rank n : ℕ) → List Command
loop_calls source bytes size root rank zero = []
loop_calls source bytes size root rank (suc n) =
    loop_calls source bytes size root rank n ++ turn_calls source bytes (turn_at size root rank n)

unfoldable pub send_waits_after : Side → (size root rank n : ℕ) → List Command
send_waits_after source size root rank zero = []
send_waits_after source size root rank (suc n) =
    send_waits_after source size root rank n ++ turn_waits source (turn_at size root rank n)

-- `BroadcastOptions`, a buffer by its size. A negative root fails the check of the root, as one that
-- is not below the size does.
pub record BroadcastOptions : Type 0 where
  pub root : ℕ
  pub element_size : ℕ
  pub tag : ℕ
  pub in_size : Option ℕ
  pub out_size : Option ℕ

-- What `in` stands for after the checks of the buffers; `none` is a check that fails.
unfoldable pub source_of : Context → BroadcastOptions → (bytes : ℕ) → Option Side
source_of c o bytes = elim o.in_size [
  | none ↦ some Side.output
  | some n ↦ if c.rank == o.root then (if n == bytes then some Side.input else none) else none
]

unfoldable pub local_copy : Side → (bytes : ℕ) → List Command
local_copy Side.input bytes = Command.copy 0 0 bytes ∷ []
local_copy Side.output bytes = []

unfoldable pub broadcast_from : Context → BroadcastOptions → (bytes : ℕ) → Side → Calls
broadcast_from c o bytes source = record {
  slot = build broadcast_slot_prefix o.tag;
  commands =
      loop_calls source bytes c.size o.root c.rank (log2ceil c.size)
      ++ (local_copy source bytes
          ++ send_waits_after source c.size o.root c.rank (log2ceil c.size));
}

-- `broadcast`.
unfoldable pub broadcast : Context → BroadcastOptions → Option Calls
broadcast c o =
    if not (ltb 0 o.element_size)
    then none
    else if not (ltb o.root c.size)
    then none
    else elim o.out_size [
      | none ↦ none
      | some bytes ↦ elim (source_of c o bytes) [
        | none ↦ none
        | some source ↦ some (broadcast_from c o bytes source)
      ]
    ]

-- All ranks: how many iterations each has been through, what its output holds, and what it has sent
-- in each iteration. A content is all bytes of a buffer.
pub record Node {ℓ} (A : Type ℓ) : Type ℓ where
  pub passed : ℕ
  pub content : A
  pub sent : ℕ → A

unfoldable pub skip {ℓ} : {A : Type ℓ} → Node A → Node A
skip x = record x { passed = suc x.passed }

unfoldable pub send_on {ℓ} : {A : Type ℓ} → Node A → Node A
send_on x = record x { passed = suc x.passed; sent = set x.sent x.passed x.content }

unfoldable pub take_over {ℓ} : {A : Type ℓ} → A → Node A → Node A
take_over message x = record x { passed = suc x.passed; content = message }

-- Ranks go through their iterations in any order. A receive is over once the peer has been through
-- an iteration that sends to the rank.
pub data Passes {ℓ} {A : Type ℓ} (size root : ℕ) (w : ℕ → Node A) : (ℕ → Node A) → Type ℓ where
  idles :
      (r : ℕ)
      → r < size
      → (w r).passed < log2ceil size
      → turn_at size root r (w r).passed ≡ Turn.idle
      → Passes size root w (set w r (skip (w r)))
  posts :
      (r peer : ℕ)
      → r < size
      → (w r).passed < log2ceil size
      → turn_at size root r (w r).passed ≡ Turn.sends peer
      → Passes size root w (set w r (send_on (w r)))
  gets :
      (r peer j : ℕ)
      → r < size
      → (w r).passed < log2ceil size
      → turn_at size root r (w r).passed ≡ Turn.receives peer
      → peer < size
      → j < (w peer).passed
      → turn_at size root peer j ≡ Turn.sends r
      → Passes size root w (set w r (take_over ((w peer).sent j) (w r)))

pub data Spread {ℓ} {A : Type ℓ} (size root : ℕ) (start : ℕ → Node A) : (ℕ → Node A) → Type ℓ where
  begins : Spread size root start start
  goes_on :
      {w v : ℕ → Node A}
      → Spread size root start w
      → Passes size root w v
      → Spread size root start v

-- Each rank's buffer before the loop: the root's is what `in` holds there.
unfoldable pub unsent {ℓ} : {A : Type ℓ} → (ℕ → A) → ℕ → Node A
unsent content r = record { passed = 0; content = content r; sent = λ i. content r }
