-- ===== src/Tcp/Read/Arrival.antt =====
-- What arrives is what was sent: a reader that gets the bytes of a message, in whatever pieces,
-- does what the message is for.
pub mod Struct
pub mod Payload
pub mod Pieces
pub mod Message
use gloo.Prelude.{ℕ, suc, ◌<◌, List, [], ◌∷◌}
use gloo.Tcp.Read.{RecvResult, arrives, eagain, eintr, other_errno}

-- Calls of recv that each store something, or are interrupted.
abbrev pub Feeds : List RecvResult → Type 0
Feeds [] = Unit {0}
Feeds (arrives n ∷ script) = (0 < n) × Feeds script
Feeds (eintr ∷ script) = Feeds script
Feeds (eagain late ∷ script) = ⊥
Feeds (other_errno ∷ script) = ⊥

abbrev pub arrivals : List RecvResult → ℕ
arrivals [] = 0
arrivals (arrives n ∷ script) = suc (arrivals script)
arrivals (_ ∷ script) = arrivals script
