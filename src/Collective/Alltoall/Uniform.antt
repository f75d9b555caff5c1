-- ===== src/Collective/Alltoall/Uniform.antt =====
-- gloo/alltoall.cc is gloo/alltoallv.cc with blocks of one length.
use gloo.Prelude.{
  ℕ, zero, suc, ◌≡◌, refl, sym, ap, ◌∙◌, ◌+◌, ◌-◌, ◌*◌, ◌%◌, ◌^◌, ◌<◌, true, some, replicate,
  length, lt→ltb, ◌==◌, arith,
}
use gloo.Collective.{Context}
use gloo.Collective.Layout.{lengths, entry, before, total}
use gloo.Collective.Layout.Owner.{entry-offsets_start}
use gloo.Collective.Exchange.{Blocks, to_rank, from_rank, exchange}
use gloo.Collective.Alltoall.{
  chunks, own_chunk, split_offsets_and_lengths, alltoall, alltoall_sized, alltoallv,
  alltoallv_split,
}
use native.Mathlib.Nat.{mod-eq_of_lt, mod-lt, suc-mul, mul-div_cancel_left, mul-mod_right}

-- The loop asks for the blocks of the ranks only.
Alike : ℕ → Blocks → Blocks → Type 0
Alike n b c = (r : ℕ) → r < n → (b.offset r ≡ c.offset r) × (b.length r ≡ c.length r)

exchange_congr :
    (n r : ℕ) (b c : Blocks) (k : ℕ) → 0 < n → Alike n b c → exchange n r b b k ≡ exchange n r c c k
unfolding exchange Alike to_rank from_rank
exchange_congr n r b c zero hn h = refl
exchange_congr n r b c (suc k) hn h =
    let (so, sl) = h ((r + suc k) % n) (mod-lt (r + suc k) hn) in
    let (ro, rl) = h ((r + n - suc k) % n) (mod-lt (r + n - suc k) hn) in
    rw (exchange_congr n r b c k hn h, so, sl, ro, rl) refl

own_chunk_congr :
    (x : Context) (b c : Blocks)
    → x.rank < x.size
    → Alike x.size b c
    → own_chunk x b b ≡ own_chunk x c c
unfolding own_chunk Alike
own_chunk_congr x b c h alike = let (o, l) = alike x.rank h in rw (o, l) refl

-- Blocks of `k` elements of `e` bytes each.
module _ (k e : ℕ) (fits : k * e < 2 ^ 64) where
  entry-lengths : (n r : ℕ) → r < n → entry (lengths (replicate n k) e) r ≡ k * e
  unfolding lengths
  entry-lengths zero r h = absurd (omega arith)
  entry-lengths (suc n) zero h = mod-eq_of_lt fits
  entry-lengths (suc n) (suc r) h = entry-lengths n r (omega arith)

  before-lengths : (n r : ℕ) → r < n → before (lengths (replicate n k) e) r ≡ r * (k * e)
  unfolding lengths before
  before-lengths zero r h = absurd (omega arith)
  before-lengths (suc n) zero h = omega arith
  before-lengths (suc n) (suc r) h = omega (
    arith,
    before-lengths n r (omega arith),
    suc-mul r (k * e),
    mod-eq_of_lt {n = k * e} {m = 2 ^ 64} fits,
  )

  total-lengths : (n : ℕ) → total (lengths (replicate n k) e) ≡ n * (k * e)
  unfolding lengths total
  total-lengths zero = omega arith
  total-lengths (suc n) =
      omega (arith, total-lengths n, suc-mul n (k * e), mod-eq_of_lt {n = k * e} {m = 2 ^ 64} fits)

  length-lengths : (n : ℕ) → length (lengths (replicate n k) e) ≡ n
  unfolding lengths
  length-lengths zero = refl
  length-lengths (suc n) = ap suc (length-lengths n)

  split-Alike :
      (n : ℕ)
      → n * (k * e) < 2 ^ 64
      → Alike n (chunks (k * e)) (split_offsets_and_lengths (replicate n k) e)
  unfolding Alike chunks split_offsets_and_lengths
  split-Alike n small r h = (
    sym (
        entry-offsets_start (lengths (replicate n k) e) r (omega (arith, total-lengths n))
          (omega (arith, length-lengths n))
        ∙ before-lengths n r h),
    sym (entry-lengths n r h),
  )

-- For a rank within the size and elements of `e` bytes, `e` not zero, where the bytes of one block
-- of `k` elements and of all ranks' blocks fit in 64 bits: alltoall on buffers of one block for each
-- rank passes its checks or not, and makes the same calls, just as alltoallv with `k` elements for
-- each rank.
pub alltoall-alltoallv :
    (c : Context) (tag k e : ℕ)
    → c.rank < c.size
    → 0 < e
    → k * e < 2 ^ 64
    → c.size * (k * e) < 2 ^ 64
    → alltoall c (record {
      element_size = e;
      tag = tag;
      in_size = some (c.size * (k * e));
      out_size = some (c.size * (k * e));
    })
      ≡ alltoallv c (record {
        element_size = e;
        tag = tag;
        in_elements = some (replicate c.size k);
        out_elements = some (replicate c.size k);
      })
unfolding alltoall alltoall_sized alltoallv alltoallv_split
alltoall-alltoallv c tag k e hr he fits small =
    rw
      (
        lt→ltb 0 e he,
        mul-mod_right c.size (k * e),
        same (c.size * (k * e)),
        same ((split_offsets_and_lengths (replicate c.size k) e).length c.rank),
        mul-div_cancel_left (k * e) some_rank,
        own_chunk_congr c (chunks (k * e)) (split_offsets_and_lengths (replicate c.size k) e) hr
            (split-Alike k e fits c.size small),
        exchange_congr c.size c.rank (chunks (k * e))
            (split_offsets_and_lengths (replicate c.size k) e) (c.size - 1) (omega arith)
            (split-Alike k e fits c.size small),
      )
      refl
  where
    some_rank : 0 < c.size
    some_rank = omega arith

    same : (x : ℕ) → (x == x) ≡ true
    same x = ground arith
