-- ===== src/Collective/Broadcast/Tree.antt =====
-- gloo/broadcast.cc: which ranks take part in an iteration, and that all come to have the content.
use gloo.Prelude.{
  ℕ, zero, suc, ◌≡◌, refl, sym, ap, subst, ◌∙◌, ◌+◌, ◌-◌, ◌*◌, ◌%◌, ◌^◌, ◌≤◌, ◌<◌, true, false, u32,
  bit_and, leb, ◌==◌, if◌then◌else◌, inl, inr, lt→ltb, le→ltb, lt-or_le, wrap-cases, arith,
}
use gloo.Collective.Broadcast.{
  log2ceil, log2ceil_from, virtual_rank, actual_rank, Turn, turn_of, turn_at, mask_after,
}
use gloo.Collective.Broadcast.Masks.{
  bit_xor-clear, bit_xor-raised, bit_xor-lowest, bit_and-below, bit_and-above, doubled,
}
use Prim.Native.Nat.{bit_xor}
use native.Mathlib.Nat.{mod-lt, mod-eq_of_lt, pow-suc, add-mul, one-le-pow, mul_right_comm}

-- The loop of `log2ceil` goes on until the power of two is large enough.
covers_from :
    (fuel value size dim : ℕ)
    → value ≤ 2 ^ 30
    → fuel + dim ≡ 32
    → size ≡ 2 ^ dim
    → value ≤ 2 ^ log2ceil_from fuel value size dim
unfolding log2ceil_from
covers_from zero value size dim h e f =
    let d : dim ≡ 32 = omega arith in omega (arith, ap (λ t. 2 ^ t) d)
covers_from (suc fuel) value size dim h e f = elim (lt-or_le size value) [
  | inl l ↦
      rw (lt→ltb size value l)
        (covers_from fuel value (u32 (size * 2)) (dim + 1) h (omega arith) (doubled l))
  | inr g ↦ rw (le→ltb size value g) (omega arith)
]
  where
    next : dim + 1 ≡ suc dim
    next = omega arith

    doubled : size < value → u32 (size * 2) ≡ 2 ^ (dim + 1)
    doubled l = mod-eq_of_lt (omega arith) ∙ omega (arith, f, ap (λ t. 2 ^ t) next, pow-suc 2 dim)

pub log2ceil_covers : (value : ℕ) → value ≤ 2 ^ 30 → value ≤ 2 ^ log2ceil value
unfolding log2ceil
log2ceil_covers value h = covers_from 32 value 1 0 h refl refl

-- After `i` iterations the mask has the bits from `i` on.
mask_after-bits : (dim i k : ℕ) → i + k ≡ dim → mask_after dim i ≡ (2 ^ k - 1) * 2 ^ i
unfolding mask_after
mask_after-bits dim zero k e = let d : dim ≡ k = omega arith in omega (arith, ap (λ t. 2 ^ t) d)
mask_after-bits dim (suc i) k e =
    ap (λ m. bit_xor m (2 ^ i)) (mask_after-bits dim i (suc k) (omega arith) ∙ lowest)
    ∙ bit_xor-lowest i (2 ^ k - 1)
  where
    more : 2 ^ suc k - 1 ≡ (2 ^ k - 1) * 2 + 1
    more = omega (arith, pow-suc 2 k, one-le-pow k 2)

    lowest : (2 ^ suc k - 1) * 2 ^ i ≡ (2 ^ k - 1) * 2 ^ suc i + 2 ^ i
    lowest = omega (
      arith,
      ap (λ t. t * 2 ^ i) more,
      add-mul ((2 ^ k - 1) * 2) 1 (2 ^ i),
      mul_right_comm (2 ^ k - 1) 2 (2 ^ i),
      doubled (2 ^ k - 1) i,
    )

-- The outcomes of the body of the loop.
module _ (size root vrank mask i : ℕ) where
  turn_of_masked : 0 < bit_and vrank mask → turn_of size root vrank mask i ≡ Turn.idle
  unfolding turn_of
  turn_of_masked h = rw tested refl
    where
      tested : (bit_and vrank mask == 0) ≡ false
      tested = ground arith

  module _ (h : bit_and vrank mask ≡ 0) where
    turn_of_far :
        (p : ℕ) → bit_xor vrank (2 ^ i) ≡ p → size ≤ p → turn_of size root vrank mask i ≡ Turn.idle
    unfolding turn_of
    turn_of_far p e g = rw (h, e) (rw far refl)
      where
        far : leb size p ≡ true
        far = ground arith

    turn_of_near :
        (p : ℕ)
        → bit_xor vrank (2 ^ i) ≡ p
        → p < size
        → turn_of size root vrank mask i ≡ (
            if bit_and vrank (2 ^ i) == 0
            then Turn.sends (actual_rank size root p)
            else Turn.receives (actual_rank size root p))
    unfolding turn_of
    turn_of_near p e g = rw (h, e) (rw near refl)
      where
        near : leb size p ≡ false
        near = ground arith

module _ (size root : ℕ) (hroot : root < size) (hsize : size ≤ 2 ^ 30) where
  pub virtual_rank_lt : (r : ℕ) → virtual_rank size root r < size
  unfolding virtual_rank
  virtual_rank_lt r = mod-lt (r + size - root) (omega arith)

  pub actual_rank_lt : (x : ℕ) → actual_rank size root x < size
  unfolding actual_rank
  actual_rank_lt x = mod-lt (x + root) (omega arith)

  pub virtual_rank-actual_rank :
      (x : ℕ) → x < size → virtual_rank size root (actual_rank size root x) ≡ x
  unfolding virtual_rank actual_rank
  virtual_rank-actual_rank x h = ground (
    arith,
    wrap-cases (x + root) size (omega arith),
    wrap-cases ((x + root) % size + size - root) size
        (omega (arith, mod-lt (x + root) (positive h))),
  )
    where
      positive : x < size → 0 < size
      positive h = omega arith

  pub actual_rank-virtual_rank :
      (r : ℕ) → r < size → actual_rank size root (virtual_rank size root r) ≡ r
  unfolding virtual_rank actual_rank
  actual_rank-virtual_rank r h = ground (
    arith,
    wrap-cases (r + size - root) size (omega arith),
    wrap-cases ((r + size - root) % size + root) size
        (omega (arith, mod-lt (r + size - root) (positive h))),
  )
    where
      positive : r < size → 0 < size
      positive h = omega arith

  module _ (r i : ℕ) (hi : i < log2ceil size) where
    vr : ℕ
    vr = virtual_rank size root r

    kept_bits : ℕ
    kept_bits = log2ceil size - suc i

    mask_bits : mask_after (log2ceil size) (suc i) ≡ (2 ^ (log2ceil size - suc i) - 1) * 2 ^ suc i
    mask_bits = mask_after-bits (log2ceil size) (suc i) (log2ceil size - suc i) (omega arith)

    masked :
        virtual_rank size root r < 2 ^ suc i
        → bit_and (virtual_rank size root r) (mask_after (log2ceil size) (suc i)) ≡ 0
    masked h =
        ap (bit_and (virtual_rank size root r)) mask_bits
        ∙ bit_and-below (suc i) (2 ^ (log2ceil size - suc i) - 1) (virtual_rank size root r) h

    -- The ranks from `2 ^ suc i` on wait for a later iteration.
    pub turn_high : 2 ^ suc i ≤ virtual_rank size root r → turn_at size root r i ≡ Turn.idle
    unfolding turn_at
    turn_high h =
        turn_of_masked size root (virtual_rank size root r) (mask_after (log2ceil size) (suc i)) i (
          subst (λ m. 0 < bit_and (virtual_rank size root r) m) (sym mask_bits)
            (bit_and-above (suc i) (log2ceil size - suc i) (virtual_rank size root r) h (
              subst (λ t. virtual_rank size root r < 2 ^ t) (all_bits hi)
                (omega (arith, virtual_rank_lt r, log2ceil_covers size hsize)))))
      where
        all_bits : i < log2ceil size → log2ceil size ≡ suc i + (log2ceil size - suc i)
        all_bits h = omega arith

    -- Those from `2 ^ i` on receive from the rank that is `2 ^ i` before.
    pub turn_mid :
        2 ^ i ≤ virtual_rank size root r
        → virtual_rank size root r < 2 ^ suc i
        → turn_at size root r i
          ≡ Turn.receives (actual_rank size root (virtual_rank size root r - 2 ^ i))
    unfolding turn_at
    turn_mid h h' =
        turn_of_near size root (virtual_rank size root r) (mask_after (log2ceil size) (suc i)) i
          (masked h') (virtual_rank size root r - 2 ^ i)
          (bit_xor-raised i (virtual_rank size root r) h h') (omega (arith, virtual_rank_lt r))
        ∙ rw raised refl
      where
        one_bit : (2 ^ 1 - 1) * 2 ^ i ≡ 2 ^ i
        one_bit = omega arith

        more : suc i ≡ i + 1
        more = omega arith

        raised : (bit_and (virtual_rank size root r) (2 ^ i) == 0) ≡ false
        raised = ground (
          arith,
          subst (λ m. 0 < bit_and (virtual_rank size root r) m) one_bit
              (bit_and-above i 1 (virtual_rank size root r) h
                (subst (λ t. virtual_rank size root r < 2 ^ t) more h')),
        )

    -- Those below send to the rank that is `2 ^ i` after, if there is one.
    pub turn_low :
        virtual_rank size root r < 2 ^ i
        → virtual_rank size root r + 2 ^ i < size
        → turn_at size root r i
          ≡ Turn.sends (actual_rank size root (virtual_rank size root r + 2 ^ i))
    unfolding turn_at
    turn_low h h' =
        turn_of_near size root (virtual_rank size root r) (mask_after (log2ceil size) (suc i)) i
          (masked (omega (arith, pow-suc 2 i))) (virtual_rank size root r + 2 ^ i)
          (bit_xor-clear i (virtual_rank size root r) h) h'
        ∙ rw clear refl
      where
        one_bit : 1 * 2 ^ i ≡ 2 ^ i
        one_bit = omega arith

        clear : (bit_and (virtual_rank size root r) (2 ^ i) == 0) ≡ true
        clear = ground (
          arith,
          ap (bit_and (virtual_rank size root r)) one_bit,
          bit_and-below i 1 (virtual_rank size root r) h,
        )

    pub turn_last :
        virtual_rank size root r < 2 ^ i
        → size ≤ virtual_rank size root r + 2 ^ i
        → turn_at size root r i ≡ Turn.idle
    unfolding turn_at
    turn_last h h' =
        turn_of_far size root (virtual_rank size root r) (mask_after (log2ceil size) (suc i)) i
          (masked (omega (arith, pow-suc 2 i))) (virtual_rank size root r + 2 ^ i)
          (bit_xor-clear i (virtual_rank size root r) h) h'
