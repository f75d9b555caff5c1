-- ===== src/Collective/Allreduce/Run.antt =====
-- gloo/allreduce.cc: all ranks of a ring allreduce at work, each at its own iteration.
use gloo.Prelude.{
  ℕ, zero, suc, ◌≡◌, ◌+◌, ◌-◌, ◌*◌, ◌≤◌, ◌<◌, List, [], ◌∷◌, ◌++◌, Option, none, some, ltb, ◌==◌,
  if◌then◌else◌,
}
use gloo.Collective.{memcpy}
use gloo.Collective.Ring.{set}
use gloo.Collective.Allreduce.{
  Segments, Action, Offsets, loop_body, rounds, next_rank, previous_rank, reduce_scatter_offsets,
  allgather_offsets,
}
use gloo.Collective.Allreduce.Local.{Options, Buffers, perform}

-- A rank: how many iterations it has been through, how many messages have come in, its buffers.
pub record Rank {ℓ} (A : Type ℓ) : Type ℓ where
  pub issued : ℕ
  pub landed : ℕ
  pub buffers : Buffers A

-- The region that message `k` is received into.
unfoldable pub arrival_region : Segments → (rank k : ℕ) → Offsets
arrival_region s rank k =
    if ltb k (rounds s)
    then reduce_scatter_offsets s rank k
    else allgather_offsets s rank (k - rounds s)

-- The iteration that posts message `k`, at both ends.
unfoldable pub posted_at : Segments → (k : ℕ) → ℕ
posted_at s k = if ltb k (rounds s) then k else k + 2

-- An iteration goes on once the operations that it waits for are complete: a receive when its
-- message has come in, a send when it has come in at the previous rank.
unfoldable pub Unblocked : (here there : ℕ) → List Action → Type 0
Unblocked here there [] = Unit
Unblocked here there (Action.reduce_inputs o n ∷ xs) = Unblocked here there xs
Unblocked here there (Action.recv_tmp k o n ∷ xs) = Unblocked here there xs
Unblocked here there (Action.recv_out k o n ∷ xs) = Unblocked here there xs
Unblocked here there (Action.send_out k o n ∷ xs) = Unblocked here there xs
Unblocked here there (Action.wait_recv k ∷ xs) = (k < here) × Unblocked here there xs
Unblocked here there (Action.wait_send k ∷ xs) = (k < there) × Unblocked here there xs
Unblocked here there (Action.reduce o f n ∷ xs) = Unblocked here there xs
Unblocked here there (Action.broadcast_outputs o n ∷ xs) = Unblocked here there xs

-- Where a receive puts its message: in the temporary space or in the output.
pub data Place : Type 0 where
  in_tmp : (offset length : ℕ) → Place
  in_out : (offset length : ℕ) → Place

unfoldable pub place_length : Place → ℕ
place_length (Place.in_tmp offset length) = length
place_length (Place.in_out offset length) = length

unfoldable pub or_else {ℓ} : {X : Type ℓ} → Option X → Option X → Option X
or_else none y = y
or_else (some x) y = some x

-- The first of the actions that is read as an `X`.
unfoldable pub find_call {ℓ} : {X : Type ℓ} → (Action → Option X) → List Action → Option X
find_call f [] = none
find_call f (x ∷ xs) = or_else (f x) (find_call f xs)

-- The receive of message `k`, and the length of its send.
unfoldable pub as_receive : (k : ℕ) → Action → Option Place
as_receive k (Action.recv_tmp j o n) = if j == k then some (Place.in_tmp o n) else none
as_receive k (Action.recv_out j o n) = if j == k then some (Place.in_out o n) else none
as_receive k (Action.reduce_inputs o n) = none
as_receive k (Action.send_out j o n) = none
as_receive k (Action.wait_recv j) = none
as_receive k (Action.wait_send j) = none
as_receive k (Action.reduce o f n) = none
as_receive k (Action.broadcast_outputs o n) = none

unfoldable pub as_send : (k : ℕ) → Action → Option ℕ
as_send k (Action.send_out j o n) = if j == k then some n else none
as_send k (Action.recv_tmp j o n) = none
as_send k (Action.recv_out j o n) = none
as_send k (Action.reduce_inputs o n) = none
as_send k (Action.wait_recv j) = none
as_send k (Action.wait_send j) = none
as_send k (Action.reduce o f n) = none
as_send k (Action.broadcast_outputs o n) = none

-- What a rank has done in its first `t` iterations.
unfoldable pub actions_before : Segments → (rank t : ℕ) → List Action
actions_before s rank zero = []
actions_before s rank (suc t) = actions_before s rank t ++ loop_body s rank t

-- The receive and the send of message `k` that a rank has posted by iteration `t`.
unfoldable pub posted_receive : Segments → (rank t k : ℕ) → Option Place
posted_receive s rank t k = find_call (as_receive k) (actions_before s rank t)

unfoldable pub posted_send : Segments → (rank t k : ℕ) → Option ℕ
posted_send s rank t k = find_call (as_send k) (actions_before s rank t)

-- A message of `length` bytes lands.
unfoldable pub receive_message {ℓ} :
    {A : Type ℓ} → Place → (length : ℕ) → (message : ℕ → A) → Buffers A → Buffers A
receive_message (Place.in_tmp offset n) length message b = record b {
  tmp = memcpy offset 0 length message b.tmp;
}
receive_message (Place.in_out offset n) length message b = record b {
  out = memcpy offset 0 length message b.out;
}

unfoldable pub go_on {ℓ} : {A : Type ℓ} → Segments → Options A → (rank : ℕ) → Rank A → Rank A
go_on s o rank w = record {
  issued = suc w.issued;
  landed = w.landed;
  buffers = perform o (loop_body s rank w.issued) w.buffers;
}

unfoldable pub take_in {ℓ} : {A : Type ℓ} → Place → (length : ℕ) → (next : Rank A) → Rank A → Rank A
take_in to length next w = record {
  issued = w.issued;
  landed = suc w.landed;
  buffers = receive_message to length (next.buffers.sent w.landed) w.buffers;
}

unfoldable pub pass_by {ℓ} : {A : Type ℓ} → Rank A → Rank A
pass_by w = record w { landed = suc w.landed }

-- Ranks take their steps in any order. The messages of a pair come in as they were sent, each into
-- the receive that was posted for it, once that and the send have been posted and if the message is
-- no longer than the receive. A message of no bytes is neither sent nor received: its number passes
-- when its turn is. `o` gives the options of each rank.
pub data Advance {ℓ} {A : Type ℓ} (s : Segments) (o : ℕ → Options A) (w : ℕ → Rank A)
    : (ℕ → Rank A) → Type ℓ where
  issues :
      (r : ℕ)
      → r < s.size
      → (w r).issued < 2 * (rounds s + 2)
      → Unblocked (w r).landed (w (previous_rank s.size r)).landed (loop_body s r (w r).issued)
      → Advance s o w (set w r (go_on s (o r) r (w r)))
  lands :
      (r : ℕ) (to : Place) (length : ℕ)
      → r < s.size
      → posted_receive s r (w r).issued (w r).landed ≡ some to
      → posted_send s (next_rank s.size r) (w (next_rank s.size r)).issued (w r).landed
        ≡ some length
      → length ≤ place_length to
      → Advance s o w (set w r (take_in to length (w (next_rank s.size r)) (w r)))
  passes :
      (r : ℕ)
      → r < s.size
      → (w r).landed < 2 * rounds s
      → posted_at s (w r).landed < (w r).issued
      → (arrival_region s r (w r).landed).recv_length ≡ 0
      → Advance s o w (set w r (pass_by (w r)))

-- The worlds that a start leads to.
pub data Reaches {ℓ} {A : Type ℓ} (s : Segments) (o : ℕ → Options A) (start : ℕ → Rank A)
    : (ℕ → Rank A) → Type ℓ where
  starts : Reaches s o start start
  continues : {w v : ℕ → Rank A} → Reaches s o start w → Advance s o w v → Reaches s o start v

-- Before the loops.
unfoldable pub at_start {ℓ} : {A : Type ℓ} → (ℕ → Buffers A) → ℕ → Rank A
at_start b r = record { issued = 0; landed = 0; buffers = b r }
