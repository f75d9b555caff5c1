-- ===== src/Tcp/RecvAny.antt =====
-- gloo/transport/tcp/context.cc: the receives from any rank that wait in the context.
use gloo.Prelude.{
  ℕ, Bool, true, false, List, [], ◌∷◌, Option, none, some, ◌==◌, if◌then◌else◌, queue_at, push_back,
  has_key, store_queue,
}
use gloo.Transport.Tally.{Tally}
use gloo.Transport.Tally.View.{queue}

-- Buffer, offset and byte count: `Pair::UnboundBufferOp`.
pub record UnboundBufferOp : Type 0 where
  pub buf : ℕ
  pub offset : ℕ
  pub nbytes : ℕ

-- An element of `pendingRecv_[slot]`, with the ranks it takes data from.
pub record AnyRecv : Type 0 where
  pub target : UnboundBufferOp
  pub ranks : List ℕ

-- `ranks.count(rank) > 0`.
unfoldable pub contains : List ℕ → ℕ → Bool
contains [] rank = false
contains (r ∷ rs) rank = if r == rank then true else contains rs rank

-- The loop of `recvFromAnyFindRank`: the first pending send of an eligible rank; `none` is -1.
unfoldable pub first_eligible : List ℕ → List ℕ → Option ℕ
first_eligible [] src_ranks = none
first_eligible (r ∷ rs) src_ranks =
    if contains src_ranks r then some r else first_eligible rs src_ranks

-- `recvFromAnyFindRank`: a rank to try, or the receive is registered.
unfoldable pub recv_from_any_find_rank :
    List Tally → List (ℕ × List AnyRecv) → ℕ → AnyRecv → Option ℕ × List (ℕ × List AnyRecv)
recv_from_any_find_rank pending_operations waiting slot recv =
    elim (first_eligible (queue (λ t. t.send) pending_operations slot) recv.ranks) [
      | some rank ↦ (some rank, waiting)
      | none ↦ (none, push_back waiting slot recv)
    ]

-- The loop of `findRecvFromAny`: the first receive that takes the rank, and the others.
unfoldable pub take_match : List AnyRecv → ℕ → Option (UnboundBufferOp × List AnyRecv)
take_match [] rank = none
take_match (r ∷ rs) rank =
    let rest = take_match rs rank in
    if contains r.ranks rank
    then some (r.target, rs)
    else elim rest [ none ↦ none | some (u, others) ↦ some (u, r ∷ others) ]

-- `findRecvFromAny`, with `recvs.erase(rit)` and `pendingRecv_.erase(pit)`.
unfoldable pub find_recv_from_any :
    List (ℕ × List AnyRecv) → ℕ → ℕ → Option (UnboundBufferOp × List (ℕ × List AnyRecv))
find_recv_from_any waiting slot rank =
    if has_key waiting slot
    then elim (take_match (queue_at waiting slot) rank) [
      | none ↦ none
      | some (u, others) ↦ some (u, store_queue waiting slot others)
    ]
    else none
