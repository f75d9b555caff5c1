-- ===== src/Collective/Alltoall/Delivers.antt =====
-- After an all-to-all exchange, a rank's output holds every rank's block for it.
use gloo.Prelude.{
  ℕ, ◌≡◌, ◌≢◌, refl, sym, subst, ap, ◌+◌, ◌*◌, ◌^◌, ◌≤◌, ◌<◌, inl, inr, List, [], ◌∷◌, length,
  inside, lt-or_le, block_end, arith,
}
use gloo.Collective.{Context, copied, memcpy}
use gloo.Collective.Exchange.{Blocks, land_all, AllLanded, Posted, Disjoint}
use gloo.Collective.Exchange.Delivers.{exchange-delivers}
use gloo.Collective.Layout.{lengths, entry, total}
use gloo.Collective.Layout.Owner.{entry-offsets_start, before_step}
use gloo.Collective.Alltoall.{chunks, own_chunk, split_offsets_and_lengths}

chunks-Disjoint : (n b : ℕ) → Disjoint n (chunks b)
unfolding Disjoint chunks
chunks-Disjoint n b s t hs ht ne = elim (lt-or_le s t) [
  | inl l ↦ inl (block_end s t b l)
  | inr g ↦ inr (block_end t s b (after g ne))
]
  where
    after : t ≤ s → s ≢ t → t < s
    after g k = ground arith

split-Disjoint :
    (es : List ℕ) (size : ℕ)
    → total (lengths es size) < 2 ^ 64
    → Disjoint (length (lengths es size)) (split_offsets_and_lengths es size)
unfolding Disjoint split_offsets_and_lengths
split-Disjoint es size small s t hs ht ne = elim (lt-or_le s t) [
  | inl l ↦ inl (follows s t l hs ht)
  | inr g ↦ inr (follows t s (after g ne) ht hs)
]
  where
    after : t ≤ s → s ≢ t → t < s
    after g k = ground arith

    follows :
        (i j : ℕ)
        → i < j
        → i < length (lengths es size)
        → j < length (lengths es size)
        → (split_offsets_and_lengths es size).offset i
            + (split_offsets_and_lengths es size).length i
          ≤ (split_offsets_and_lengths es size).offset j
    follows i j l hi hj = omega (
      arith,
      entry-offsets_start (lengths es size) i small hi,
      entry-offsets_start (lengths es size) j small hj,
      before_step (lengths es size) i j l hj,
    )

module _ {ℓ} {A : Type ℓ} (c : Context) (ins outs : Blocks) (input output : ℕ → A) where
  -- The local copy puts the rank's own block in its place.
  own_chunk-copied :
      ins.length c.rank ≡ outs.length c.rank
      → (x : ℕ) → x < outs.length c.rank
      → copied (own_chunk c ins outs ∷ []) input output (outs.offset c.rank + x)
        ≡ input (ins.offset c.rank + x)
  unfolding copied own_chunk memcpy
  own_chunk-copied e x hx =
      rw
        (inside (outs.offset c.rank) (outs.offset c.rank + x)
          (outs.offset c.rank + ins.length c.rank) (omega arith) (omega arith))
        (ap input (omega arith))

  own_chunk-copied_at :
      (r : ℕ)
      → c.rank ≡ r
      → ins.length r ≡ outs.length r
      → (x : ℕ) → x < outs.length r
      → copied (own_chunk c ins outs ∷ []) input output (outs.offset r + x)
        ≡ input (ins.offset r + x)
  own_chunk-copied_at r at =
      subst
        (λ k.
          ins.length k ≡ outs.length k
          → (x : ℕ) → x < outs.length k
          → copied (own_chunk c ins outs ∷ []) input output (outs.offset k + x)
            ≡ input (ins.offset k + x))
        at own_chunk-copied

module _ {ℓ} {A : Type ℓ} (c : Context) (r : ℕ) (hr : r < c.size) (at : c.rank ≡ r)
    (input : ℕ → ℕ → A) (output : ℕ → A) (message : ℕ → ℕ → A) where
  -- After the local copy of alltoall, once the receives of rank `r` have landed in any order, each
  -- message with the bytes that its sender's loop posts for `r`, chunk `s` of the output of `r` is
  -- chunk `r` of the input of rank `s`, its own chunk included.
  pub alltoall-delivers :
      (b : ℕ)
      → ((s : ℕ) → s < c.size → Posted c.size (λ k. chunks b) input r s (message s))
      → (senders : List ℕ) → AllLanded c.size r senders
      → (s x : ℕ) → s < c.size
      → x < b
      → land_all
          (chunks b)
          message
          senders
          (copied (own_chunk c (chunks b) (chunks b) ∷ []) (input r) output)
          (s * b + x)
        ≡ input s (r * b + x)
  unfolding chunks
  alltoall-delivers b posted senders landed s x hs hx =
      exchange-delivers c.size (λ k. chunks b) (λ k. chunks b) input r hr message posted
        (λ t ht. refl) (chunks-Disjoint c.size b) senders landed
        (copied (own_chunk c (chunks b) (chunks b) ∷ []) (input r) output)
        (own_chunk-copied_at c (chunks b) (chunks b) (input r) output r at refl) s x hs hx

  -- After the local copy of alltoallv, once the receives of rank `r` have landed in any order,
  -- each message with the bytes that its sender's loop posts for `r`, block `s` of the output of
  -- `r` is block `r` of the input of rank `s`, its own block included, when the output has one
  -- block for each rank, each as long as the sender's block for `r`, and fewer than 2 ^ 64 bytes
  -- in all.
  pub alltoallv-delivers :
      (element_size : ℕ) (in_elements out_elements : ℕ → List ℕ)
      → length (lengths (out_elements r) element_size) ≡ c.size
      → total (lengths (out_elements r) element_size) < 2 ^ 64
      → ((s : ℕ)
          → s < c.size
          → entry (lengths (out_elements r) element_size) s
            ≡ entry (lengths (in_elements s) element_size) r)
      → ((s : ℕ)
          → s < c.size
          → Posted c.size
              (λ k. split_offsets_and_lengths (in_elements k) element_size)
              input
              r
              s
              (message s))
      → (senders : List ℕ) → AllLanded c.size r senders
      → (s x : ℕ) → s < c.size
      → x < entry (lengths (out_elements r) element_size) s
      → land_all
          (split_offsets_and_lengths (out_elements r) element_size)
          message
          senders
          (copied
            (own_chunk c
                (split_offsets_and_lengths (in_elements r) element_size)
                (split_offsets_and_lengths (out_elements r) element_size)
              ∷ [])
            (input r)
            output)
          ((split_offsets_and_lengths (out_elements r) element_size).offset s + x)
        ≡ input s ((split_offsets_and_lengths (in_elements s) element_size).offset r + x)
  unfolding split_offsets_and_lengths
  alltoallv-delivers size in_elements out_elements count small sizes posted senders landed s x hs
        hx =
      exchange-delivers c.size (λ k. ins k) (λ k. outs k) input r hr message posted sizes
        (subst (λ n. Disjoint n (outs r)) count (split-Disjoint (out_elements r) size small))
        senders landed (copied (own_chunk c (ins r) (outs r) ∷ []) (input r) output)
        (own_chunk-copied_at c (ins r) (outs r) (input r) output r at (sym (sizes r hr))) s x hs hx
    where
      ins : ℕ → Blocks
      ins k = split_offsets_and_lengths (in_elements k) size

      outs : ℕ → Blocks
      outs k = split_offsets_and_lengths (out_elements k) size
