-- ===== src/Collective/Allgather/Turns.antt =====
-- In which iteration of the ring a rank receives each byte of the output.
use gloo.Prelude.{
  ℕ, suc, ◌≡◌, ap, ◌∙◌, ◌+◌, ◌-◌, ◌*◌, ◌/◌, ◌%◌, ◌^◌, ◌≤◌, ◌<◌, ltb, ◌==◌, if◌then◌else◌, block_end,
  wrap_blocks, u64, arith,
}
use gloo.Collective.Ring.{recv_rank}
use gloo.Collective.Ring.Distance.{distance, distance_lt, distance-recv_rank}
use gloo.Collective.Allgather.{chunk_size, chunk_offset, segment_offset}
use native.Mathlib.Nat.{mod-eq_of_lt, add-mul}

-- The chunk that the byte `x` of a block lies in.
unfoldable pub chunk_index : ℕ → ℕ → ℕ
chunk_index b x = if ltb x (b / 2) then 0 else 1

pub in_chunk :
    (b x k : ℕ)
    → x < b
    → chunk_index b x ≡ k
    → (chunk_offset b k ≤ x) × (x < chunk_offset b k + chunk_size b k)
unfolding chunk_index chunk_offset chunk_size
in_chunk b x k hx e = ground arith

pub chunk_only :
    (b x k : ℕ)
    → k < 2
    → chunk_offset b k ≤ x
    → x < chunk_offset b k + chunk_size b k
    → (x < b) × (chunk_index b x ≡ k)
unfolding chunk_index chunk_offset chunk_size
chunk_only b x k hk lo hi = ground arith

-- A byte of the block `d` ranks before is received in iteration `2 * (d - 1)` or the next.
unfoldable pub due : (n b : ℕ) → ℕ → ℕ → ℕ
due n b r a =
    let d = distance n r (a / b) in if d == 0 then 0 else suc ((d - 1) * 2 + chunk_index b (a % b))

pub due-zero : (n b r a : ℕ) → due n b r a ≡ 0 → distance n r (a / b) ≡ 0
unfolding due
due-zero n b r a e = ground arith

pub due-suc :
    (n b r a i : ℕ)
    → due n b r a ≡ suc i
    → (distance n r (a / b) ≡ suc (i / 2)) × (chunk_index b (a % b) ≡ i % 2)
unfolding due chunk_index
due-suc n b r a i e = ground arith

pub due_at :
    (n b r a i : ℕ)
    → distance n r (a / b) ≡ suc (i / 2)
    → chunk_index b (a % b) ≡ i % 2
    → due n b r a ≡ suc i
unfolding due
due_at n b r a i d c = ground arith

pub due_le : (n b r a : ℕ) → r < n → a / b < n → due n b r a ≤ (n - 1) * 2
unfolding due chunk_index
due_le n b r a hr hs = ground (arith, distance_lt n r (a / b) hr hs)

-- The previous rank has had it for two iterations.
pub due-recv_rank :
    (n b r a i : ℕ)
    → r < n
    → a / b < n
    → due n b r a ≡ suc i
    → due n b (recv_rank n r) a ≤ suc i - 2
unfolding due
due-recv_rank n b r a i hr hs e =
    let (d, c) = due-suc n b r a i e in
    ground (arith, distance-recv_rank n r (a / b) (i / 2) hr hs d)

chunk_offset_lt : (b k : ℕ) → 0 < b → chunk_offset b k < b
unfolding chunk_offset
chunk_offset_lt b k h = ground arith

-- The offset of a chunk, while twice the output fits in 64 bits.
pub segment_offset-wrapped :
    (n b q k : ℕ)
    → 0 < b
    → n * b < 2 ^ 63
    → q < n + n
    → segment_offset b (n * b) q k ≡ q % n * b + chunk_offset b k
unfolding segment_offset
segment_offset-wrapped n b q k hb small hq =
    ap (λ t. u64 (t + chunk_offset b k) % (n * b)) (mod-eq_of_lt (omega (arith, fits)))
    ∙ ap (λ t. t % (n * b)) (mod-eq_of_lt (omega (arith, fits)))
    ∙ wrap_blocks q n b (chunk_offset b k) (chunk_offset_lt b k hb) hq
  where
    fits : q * b + chunk_offset b k < 2 ^ 64
    fits = omega (arith, block_end q (n + n) b hq, add-mul n n b, chunk_offset_lt b k hb)
