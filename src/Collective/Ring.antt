-- ===== src/Collective/Ring.antt =====
-- The loop that gloo/allgather.cc and gloo/allgatherv.cc share: each iteration sends a region of
pub mod Waits
pub mod Distance
pub mod Invariant
pub mod Issues
pub mod Lands
pub mod Progress
-- the output to the next rank and receives a region from the previous one.
use gloo.Prelude.{
  ℕ, zero, suc, ◌≡◌, ◌+◌, ◌-◌, ◌%◌, ◌≤◌, ◌<◌, Bool, ◌&&◌, List, [], ◌∷◌, ◌++◌, ltb, leb, ◌==◌,
  if◌then◌else◌, Option, some, get_elem?,
}
use gloo.Collective.{Side, Command}

-- One iteration at one rank.
pub record Round : Type 0 where
  pub send_offset : ℕ
  pub send_size : ℕ
  pub recv_offset : ℕ
  pub recv_size : ℕ

-- A loop of `steps` iterations with `depth` of them outstanding, over a ring of `size` ranks.
pub record Plan : Type 0 where
  pub size : ℕ
  pub steps : ℕ
  pub depth : ℕ
  pub round : ℕ → ℕ → Round

-- `recvRank` and `sendRank`.
unfoldable pub recv_rank : ℕ → ℕ → ℕ
recv_rank n r = (n + r - 1) % n

unfoldable pub send_rank : ℕ → ℕ → ℕ
send_rank n r = (n + r + 1) % n

-- The body of the loop: the first `depth` iterations do not wait.
unfoldable pub iteration : Plan → ℕ → ℕ → List Command
iteration p r i =
    let body =
      Command.send Side.output (send_rank p.size r) (p.round r i).send_offset
        (p.round r i).send_size
      ∷ Command.recv Side.output (recv_rank p.size r) (p.round r i).recv_offset
          (p.round r i).recv_size
      ∷ [] in
    if ltb i p.depth
    then body
    else (Command.wait_send Side.output ∷ Command.wait_recv Side.output ∷ body)

-- The iterations before the `i`th.
unfoldable pub iterations : Plan → ℕ → ℕ → List Command
iterations p r zero = []
iterations p r (suc i) = iterations p r i ++ iteration p r i

-- The waits after the loop, one for each iteration outstanding.
unfoldable pub final_waits : ℕ → List Command
final_waits zero = []
final_waits (suc k) = Command.wait_send Side.output ∷ Command.wait_recv Side.output ∷ final_waits k

-- How many completions of receives (and of sends) a rank has claimed by then.
unfoldable pub recv_waits : List Command → ℕ
recv_waits [] = 0
recv_waits (Command.wait_recv s ∷ cs) = suc (recv_waits cs)
recv_waits (Command.wait_send s ∷ cs) = recv_waits cs
recv_waits (Command.send s r o n ∷ cs) = recv_waits cs
recv_waits (Command.recv s r o n ∷ cs) = recv_waits cs
recv_waits (Command.copy t f n ∷ cs) = recv_waits cs

unfoldable pub send_waits : List Command → ℕ
send_waits [] = 0
send_waits (Command.wait_send s ∷ cs) = suc (send_waits cs)
send_waits (Command.wait_recv s ∷ cs) = send_waits cs
send_waits (Command.send s r o n ∷ cs) = send_waits cs
send_waits (Command.recv s r o n ∷ cs) = send_waits cs
send_waits (Command.copy t f n ∷ cs) = send_waits cs

-- A receive that has been posted, and a message that has been sent: the other rank, the region, and
-- for a message its bytes.
pub record PostedRecv : Type 0 where
  pub source : ℕ
  pub offset : ℕ
  pub size : ℕ

pub record Message {ℓ} (A : Type ℓ) : Type ℓ where
  pub target : ℕ
  pub size : ℕ
  pub bytes : ℕ → A

-- All ranks: how many iterations each has begun, how many messages have landed at each, the bytes
-- of its output, and the messages it has sent and the receives it has posted, oldest first.
pub record World {ℓ} (A : Type ℓ) : Type ℓ where
  pub issued : ℕ → ℕ
  pub landed : ℕ → ℕ
  pub memory : ℕ → ℕ → A
  pub sent : ℕ → List (Message A)
  pub posted : ℕ → List PostedRecv

unfoldable pub set {ℓ} : {X : Type ℓ} → (ℕ → X) → ℕ → X → ℕ → X
set f r x s = if s == r then x else f s

-- Rank `r` makes the calls: a send reads the bytes of the output when it is posted. The loop only
-- uses the output, and makes no copy.
unfoldable pub make {ℓ} : {A : Type ℓ} → ℕ → List Command → World A → World A
make r [] w = w
make r (Command.send side to offset size ∷ cs) w = make r cs (record w {
  sent = set w.sent r (
      w.sent r ++ (record { target = to; size = size; bytes = λ j. w.memory r (offset + j) } ∷ []));
})
make r (Command.recv side from offset size ∷ cs) w = make r cs (record w {
  posted =
      set w.posted r (w.posted r ++ (record { source = from; offset = offset; size = size } ∷ []));
})
make r (Command.wait_send side ∷ cs) w = make r cs w
make r (Command.wait_recv side ∷ cs) w = make r cs w
make r (Command.copy to from size ∷ cs) w = make r cs w

-- Rank `r` goes through an iteration.
unfoldable pub issue {ℓ} : {A : Type ℓ} → Plan → ℕ → World A → World A
issue p r w =
    make r (iteration p r (w.issued r)) (record w { issued = set w.issued r (suc (w.issued r)) })

-- The bytes of a message land at rank `r`, at the start of the region of a receive.
unfoldable pub land {ℓ} : {A : Type ℓ} → ℕ → PostedRecv → Message A → World A → World A
land r here m w = record w {
  landed = set w.landed r (suc (w.landed r));
  memory = set w.memory r (λ a.
      if leb here.offset a && ltb a (here.offset + m.size)
      then m.bytes (a - here.offset)
      else w.memory r a);
}

-- An iteration begins once its waits are over: a receive is complete when its message has landed,
-- a send when it has landed at the next rank. A message lands in the oldest receive that is left, if
-- the rank of that receive has sent one to this rank that is no longer than the receive. Ranks take
-- their steps in any order.
pub data Step {ℓ} {A : Type ℓ} (p : Plan) (w : World A) : World A → Type ℓ where
  issues :
      (r : ℕ)
      → r < p.size
      → w.issued r < p.steps
      → recv_waits (iterations p r (suc (w.issued r))) ≤ w.landed r
      → send_waits (iterations p r (suc (w.issued r))) ≤ w.landed (send_rank p.size r)
      → Step p w (issue p r w)
  lands :
      (r : ℕ) (here : PostedRecv) (m : Message A)
      → r < p.size
      → get_elem? (w.posted r) (w.landed r) ≡ some here
      → get_elem? (w.sent here.source) (w.landed r) ≡ some m
      → m.target ≡ r
      → m.size ≤ here.size
      → Step p w (land r here m w)

-- The worlds that a start leads to.
pub data Reach {ℓ} {A : Type ℓ} (p : Plan) (start : World A) : World A → Type ℓ where
  starts : Reach p start start
  continues : {w v : World A} → Reach p start w → Step p w v → Reach p start v

-- Every rank has been through the loop and through the waits after it.
unfoldable pub Done {ℓ} : {A : Type ℓ} → Plan → World A → Type 0
Done p w = (r : ℕ) → r < p.size → (w.issued r ≡ p.steps) × (p.steps ≤ w.landed r)

-- Nothing sent: each rank has its memory.
unfoldable pub begin {ℓ} : {A : Type ℓ} → (ℕ → ℕ → A) → World A
begin m = record { issued = λ r. 0; landed = λ r. 0; memory = m; sent = λ r. []; posted = λ r. [] }
