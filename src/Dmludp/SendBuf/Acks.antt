-- ===== src/Dmludp/SendBuf/Acks.antt =====
-- The chunks and the map of acknowledgements of gloo/send_buf.h go together.
pub mod Tracked
use gloo.Prelude.{
  ℕ, zero, suc, ◌≡◌, ◌≢◌, refl, sym, ap, subst₂, ◌∙◌, ◌+◌, ◌-◌, ◌^◌, ◌≤◌, ◌<◌, ◌⊎◌, inl, inr, Bool,
  true, false, not, ◌||◌, Option, List, [], ◌∷◌, ◌++◌, u64, ltb, leb, ◌==◌, Bool-cases, lt-or_le,
  lt→ltb, le→ltb, if◌then◌else◌, arith,
}
use gloo.Dmludp.SendBuf.{
  SendBuf, Chunk, is_empty, assign, has_key, contains, keys_to_delete, remove_chunks, erase_keys,
  ack_and_drop, recv_and_drop,
}

-- One entry for each chunk, in the same order, by its offset; the offsets rise from `lo` on and
-- stay below `hi`.
unfoldable pub Keyed : (lo hi : ℕ) → List Chunk → List (ℕ × Bool) → Type 0
Keyed lo hi [] [] = Unit
Keyed lo hi [] (e ∷ es) = ⊥
Keyed lo hi (c ∷ cs) [] = ⊥
Keyed lo hi (c ∷ cs) ((k, v) ∷ es) = (c.offset ≡ k) × (lo ≤ k) × (k < hi) × Keyed (suc k) hi cs es

-- What is not acknowledged yet: `ack_and_drop` makes an entry false.
unfoldable pub unacked : List Chunk → List (ℕ × Bool) → List Chunk
unacked [] es = []
unacked (c ∷ cs) [] = []
unacked (c ∷ cs) ((k, v) ∷ es) = if v then c ∷ unacked cs es else unacked cs es

unfoldable pub pending : List (ℕ × Bool) → List (ℕ × Bool)
pending [] = []
pending ((k, v) ∷ es) = if v then (k, v) ∷ pending es else pending es

not_below :
    (lo hi key : ℕ) (cs : List Chunk) (es : List (ℕ × Bool))
    → Keyed lo hi cs es
    → key < lo
    → contains key (keys_to_delete es) ≡ false
unfolding Keyed contains keys_to_delete
not_below lo hi key [] [] h l = refl
not_below lo hi key [] (e ∷ es) h l = elim h [ ]
not_below lo hi key (c ∷ cs) [] h l = elim h [ ]
not_below lo hi key (c ∷ cs) ((k, true) ∷ es) (e, a, b, h) l =
    not_below (suc k) hi key cs es h (omega arith)
not_below lo hi key (c ∷ cs) ((k, false) ∷ es) (e, a, b, h) l =
    rw (different) (not_below (suc k) hi key cs es h (omega arith))
  where
    different : (key == k) ≡ false
    different = ground arith

-- The keys to delete, as far as entries from `lo` on see them.
Agree : (lo : ℕ) → List ℕ → List (ℕ × Bool) → Type 0
Agree lo keys es = (key : ℕ) → lo ≤ key → contains key keys ≡ contains key (keys_to_delete es)

Agree-rest :
    (lo k : ℕ) (v : Bool) (keys : List ℕ) (es : List (ℕ × Bool))
    → lo ≤ k
    → Agree lo keys ((k, v) ∷ es)
    → Agree (suc k) keys es
unfolding Agree contains keys_to_delete
Agree-rest lo k true keys es h a key l = a key (omega arith)
Agree-rest lo k false keys es h a key l = a key (omega arith) ∙ rw different refl
  where
    different : (key == k) ≡ false
    different = ground arith

-- Whether an entry's own key is deleted.
Agree-here :
    (lo hi k : ℕ) (v : Bool) (keys : List ℕ) (cs : List Chunk) (es : List (ℕ × Bool))
    → lo ≤ k
    → Keyed (suc k) hi cs es
    → Agree lo keys ((k, v) ∷ es)
    → contains k keys ≡ not v
unfolding Agree contains keys_to_delete
Agree-here lo hi k true keys cs es l h a = a k l ∙ not_below (suc k) hi k cs es h (omega arith)
Agree-here lo hi k false keys cs es l h a = a k l ∙ rw same refl
  where
    same : (k == k) ≡ true
    same = ground arith

remove_chunks-unacked :
    (lo hi : ℕ) (keys : List ℕ) (cs : List Chunk) (es : List (ℕ × Bool))
    → Keyed lo hi cs es
    → Agree lo keys es
    → remove_chunks keys cs ≡ unacked cs es
unfolding Keyed remove_chunks unacked
remove_chunks-unacked lo hi keys [] [] h a = refl
remove_chunks-unacked lo hi keys [] (e ∷ es) h a = elim h [ ]
remove_chunks-unacked lo hi keys (c ∷ cs) [] h a = elim h [ ]
remove_chunks-unacked lo hi keys (c ∷ cs) ((k, true) ∷ es) (e, l, u, h) a =
    rw (ap (λ t. contains t keys) e ∙ Agree-here lo hi k true keys cs es l h a) (
      ap (λ t. c ∷ t)
        (remove_chunks-unacked (suc k) hi keys cs es h (Agree-rest lo k true keys es l a)))
remove_chunks-unacked lo hi keys (c ∷ cs) ((k, false) ∷ es) (e, l, u, h) a =
    rw (ap (λ t. contains t keys) e ∙ Agree-here lo hi k false keys cs es l h a)
      (remove_chunks-unacked (suc k) hi keys cs es h (Agree-rest lo k false keys es l a))

erase_keys-pending :
    (lo hi : ℕ) (keys : List ℕ) (cs : List Chunk) (es : List (ℕ × Bool))
    → Keyed lo hi cs es
    → Agree lo keys es
    → erase_keys keys es ≡ pending es
unfolding Keyed erase_keys pending
erase_keys-pending lo hi keys [] [] h a = refl
erase_keys-pending lo hi keys [] (e ∷ es) h a = elim h [ ]
erase_keys-pending lo hi keys (c ∷ cs) [] h a = elim h [ ]
erase_keys-pending lo hi keys (c ∷ cs) ((k, true) ∷ es) (e, l, u, h) a =
    rw (Agree-here lo hi k true keys cs es l h a) (
      ap (λ t. (k, true) ∷ t)
        (erase_keys-pending (suc k) hi keys cs es h (Agree-rest lo k true keys es l a)))
erase_keys-pending lo hi keys (c ∷ cs) ((k, false) ∷ es) (e, l, u, h) a =
    rw (Agree-here lo hi k false keys cs es l h a)
      (erase_keys-pending (suc k) hi keys cs es h (Agree-rest lo k false keys es l a))

Keyed-widen :
    (lo lo' hi : ℕ) (cs : List Chunk) (es : List (ℕ × Bool))
    → lo' ≤ lo
    → Keyed lo hi cs es
    → Keyed lo' hi cs es
unfolding Keyed
Keyed-widen lo lo' hi [] [] l h = h
Keyed-widen lo lo' hi [] (e ∷ es) l h = elim h [ ]
Keyed-widen lo lo' hi (c ∷ cs) [] l h = elim h [ ]
Keyed-widen lo lo' hi (c ∷ cs) ((k, v) ∷ es) l (e, a, u, h) = (e, omega arith, u, h)

unacked-Keyed :
    (lo hi : ℕ) (cs : List Chunk) (es : List (ℕ × Bool))
    → Keyed lo hi cs es
    → Keyed lo hi (unacked cs es) (pending es)
unfolding Keyed unacked pending
unacked-Keyed lo hi [] [] h = h
unacked-Keyed lo hi [] (e ∷ es) h = elim h [ ]
unacked-Keyed lo hi (c ∷ cs) [] h = elim h [ ]
unacked-Keyed lo hi (c ∷ cs) ((k, true) ∷ es) (e, l, u, h) =
    (e, l, u, unacked-Keyed (suc k) hi cs es h)
unacked-Keyed lo hi (c ∷ cs) ((k, false) ∷ es) (e, l, u, h) =
    Keyed-widen (suc k) lo hi (unacked cs es) (pending es) (omega arith)
      (unacked-Keyed (suc k) hi cs es h)

-- With no chunk there is no entry.
nothing_stored :
    (lo hi : ℕ) (cs : List Chunk) (es : List (ℕ × Bool))
    → Keyed lo hi cs es
    → (elim cs [ [] ↦ true | (x ∷ xs) ↦ false ]) ≡ true
    → (cs ≡ unacked cs es) × (es ≡ pending es)
unfolding Keyed unacked pending
nothing_stored lo hi [] [] h e = (refl, refl)
nothing_stored lo hi [] (x ∷ es) h e = elim h [ ]
nothing_stored lo hi (c ∷ cs) es h e = absurd (ground arith)

-- When the map has one entry for each chunk in order of the offsets, `recv_and_drop` leaves
-- exactly the chunks whose entries are not acknowledged, with exactly those entries, and one entry
-- for each chunk again.
pub recv_and_drop-unacked :
    (b : SendBuf)
    → Keyed 0 b.off b.chunks b.offset_recv
    → ((recv_and_drop b).chunks ≡ unacked b.chunks b.offset_recv)
      × ((recv_and_drop b).offset_recv ≡ pending b.offset_recv)
      × Keyed 0 b.off (recv_and_drop b).chunks (recv_and_drop b).offset_recv
unfolding recv_and_drop is_empty Agree
recv_and_drop-unacked b h = elim (Bool-cases (is_empty b)) [
  | inl e ↦
      let (stored, entries) = nothing_stored 0 b.off b.chunks b.offset_recv h e in
      rw e (stored, entries, h)
  | inr e ↦
      let keys = keys_to_delete b.offset_recv in
      let kept = remove_chunks-unacked 0 b.off keys b.chunks b.offset_recv h (λ key l. refl) in
      let entries = erase_keys-pending 0 b.off keys b.chunks b.offset_recv h (λ key l. refl) in
      rw e (
        kept,
        entries,
        subst₂ (Keyed 0 b.off) (sym kept) (sym entries)
            (unacked-Keyed 0 b.off b.chunks b.offset_recv h),
      )
]
