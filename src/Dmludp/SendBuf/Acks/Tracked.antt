-- ===== src/Dmludp/SendBuf/Acks/Tracked.antt =====
-- Every operation of the send buffer keeps one entry in the map for each chunk.
use gloo.Prelude.{
  ℕ, zero, suc, ◌≡◌, some, refl, ap, ◌+◌, ◌-◌, ◌^◌, ◌≤◌, ◌<◌, inl, inr, Bool, true, false, List, [],
  ◌∷◌, ◌++◌, u64, ltb, leb, ◌==◌, Bool-cases, lt-or_le, lt→ltb, le→ltb, if◌then◌else◌, arith,
}
use gloo.Dmludp.SendBuf.{
  SendBuf, Chunk, is_empty, len, cap, assign, has_key, ack_and_drop, send_buffer_size,
}
use gloo.Dmludp.SendBuf.Write.{
  push, push_all, append, ready_written, commit, refuse, write, write_measured, write_empty,
  write_more,
}
use gloo.Dmludp.SendBuf.Acks.{Keyed}
use native.Mathlib.Nat.{mod-eq_of_lt}

-- A key above all others goes to the end.
assign-end :
    (lo hi : ℕ) (v : Bool) (cs : List Chunk) (es : List (ℕ × Bool))
    → Keyed lo hi cs es
    → assign hi v es ≡ es ++ ((hi, v) ∷ [])
unfolding Keyed assign
assign-end lo hi v [] [] h = refl
assign-end lo hi v [] (e ∷ es) h = elim h [ ]
assign-end lo hi v (c ∷ cs) [] h = elim h [ ]
assign-end lo hi v (c ∷ cs) ((k, w) ∷ es) (e, l, u, h) =
    rw (le→ltb hi k (omega arith), different)
      (ap (λ t. (k, w) ∷ t) (assign-end (suc k) hi v cs es h))
  where
    different : (hi == k) ≡ false
    different = ground arith

Keyed-snoc :
    (lo hi n : ℕ) (v : Bool) (c : Chunk) (cs : List Chunk) (es : List (ℕ × Bool))
    → lo ≤ hi
    → 0 < n
    → c.offset ≡ hi
    → Keyed lo hi cs es
    → Keyed lo (hi + n) (cs ++ (c ∷ [])) (es ++ ((hi, v) ∷ []))
unfolding Keyed
Keyed-snoc lo hi n v c [] [] l p q h = (q, l, omega arith, tt)
Keyed-snoc lo hi n v c [] (e ∷ es) l p q h = elim h [ ]
Keyed-snoc lo hi n v c (d ∷ cs) [] l p q h = elim h [ ]
Keyed-snoc lo hi n v c (d ∷ cs) ((k, w) ∷ es) l p q (e, a, u, h) =
    (e, a, omega arith, Keyed-snoc (suc k) hi n v c cs es (omega arith) p q h)

has_key_le :
    (lo hi key : ℕ) (cs : List Chunk) (es : List (ℕ × Bool))
    → Keyed lo hi cs es
    → has_key key es ≡ true
    → lo ≤ key
unfolding Keyed has_key
has_key_le lo hi key [] [] h p = absurd (ground arith)
has_key_le lo hi key [] (e ∷ es) h p = elim h [ ]
has_key_le lo hi key (c ∷ cs) [] h p = elim h [ ]
has_key_le lo hi key (c ∷ cs) ((k, w) ∷ es) (e, l, u, h) p = elim (Bool-cases (key == k)) [
  | inl s ↦ ground arith
  | inr s ↦ omega (arith, has_key_le (suc k) hi key cs es h (later s))
]
  where
    later : (key == k) ≡ false → has_key key es ≡ true
    later s = ground arith

-- Another flag for a key that is there.
assign-Keyed :
    (lo hi key : ℕ) (v : Bool) (cs : List Chunk) (es : List (ℕ × Bool))
    → has_key key es ≡ true
    → Keyed lo hi cs es
    → Keyed lo hi cs (assign key v es)
unfolding Keyed assign has_key
assign-Keyed lo hi key v [] [] p h = absurd (ground arith)
assign-Keyed lo hi key v [] (e ∷ es) p h = elim h [ ]
assign-Keyed lo hi key v (c ∷ cs) [] p h = elim h [ ]
assign-Keyed lo hi key v (c ∷ cs) ((k, w) ∷ es) p (e, l, u, h) = elim (Bool-cases (key == k)) [
  | inl s ↦ rw (not_less s, s) (e, l, u, h)
  | inr s ↦
      rw (le→ltb key k (omega (arith, has_key_le (suc k) hi key cs es h (later s))), s)
        (e, l, u, assign-Keyed (suc k) hi key v cs es (later s) h)
]
  where
    not_less : (key == k) ≡ true → ltb key k ≡ false
    not_less s = ground arith

    later : (key == k) ≡ false → has_key key es ≡ true
    later s = ground arith

-- The invariant.
unfoldable pub Tracked : SendBuf → Type 0
Tracked b = Keyed 0 b.off b.chunks b.offset_recv

-- When a buffer has one entry in the map for each chunk, in order of the offsets and below the
-- stream's offset, it has so after `ack_and_drop` of any offset.
pub ack_and_drop-Tracked : (offset : ℕ) (b : SendBuf) → Tracked b → Tracked (ack_and_drop offset b)
unfolding Tracked ack_and_drop
ack_and_drop-Tracked offset b h = elim (Bool-cases (has_key offset b.offset_recv)) [
  | inl p ↦ rw p (assign-Keyed 0 b.off offset false b.chunks b.offset_recv p h)
  | inr p ↦ rw p h
]

push-Tracked :
    (base n : ℕ) (b : SendBuf) → 0 < n → b.off + n < 2 ^ 64 → Tracked b → Tracked (push base n b)
unfolding Tracked push
push-Tracked base n b p fits h =
    rw (assign-end 0 b.off true b.chunks b.offset_recv h, mod-eq_of_lt fits)
      (Keyed-snoc 0 b.off n true (record { offset = b.off; base = base; size = n }) b.chunks
        b.offset_recv (omega arith) p refl h)

push-off : (base n : ℕ) (b : SendBuf) → b.off + n < 2 ^ 64 → (push base n b).off ≡ b.off + n
unfolding push
push-off base n b fits = mod-eq_of_lt fits

push_all-Tracked :
    (fuel source it ready w : ℕ) (b : SendBuf)
    → it ≤ ready
    → b.off + (ready - it) < 2 ^ 64
    → Tracked b
    → Tracked (push_all fuel source it ready w b).0
unfolding push_all
push_all-Tracked zero source it ready w b h fits t = t
push_all-Tracked (suc fuel) source it ready w b h fits t = elim (lt-or_le it ready) [
  | inr g ↦ rw (le→ltb it ready g) t
  | inl l ↦ elim (lt-or_le send_buffer_size (ready - it)) [
    | inl k ↦
        rw (lt→ltb it ready l, lt→ltb send_buffer_size (ready - it) k)
          (push_all-Tracked fuel source (it + send_buffer_size) ready (w + send_buffer_size)
            (push (source + it) send_buffer_size b) (omega arith)
            (omega (arith, push-off (source + it) send_buffer_size b (omega arith)))
            (push-Tracked (source + it) send_buffer_size b (omega arith) (omega arith) t))
    | inr k ↦
        rw (lt→ltb it ready l, le→ltb send_buffer_size (ready - it) k)
          (push_all-Tracked fuel source ready ready (w + (ready - it))
            (push (source + it) (ready - it) b) (omega arith)
            (omega (arith, push-off (source + it) (ready - it) b (omega arith)))
            (push-Tracked (source + it) (ready - it) b (omega arith) (omega arith) t))
  ]
]

append-Tracked :
    (source ready off_len : ℕ) (b : SendBuf)
    → 0 < ready
    → b.off + ready < 2 ^ 64
    → Tracked b
    → Tracked (append source ready off_len b).0
unfolding append
append-Tracked source ready off_len b hr fits t = elim (lt-or_le 0 off_len) [
  | inr g ↦
      rw (le→ltb 0 off_len g)
        (push_all-Tracked ready source off_len ready 0 b (omega arith) (omega arith) t)
  | inl l ↦ elim (lt-or_le off_len ready) [
    | inl k ↦
        rw (lt→ltb 0 off_len l, lt→ltb off_len ready k)
          (push_all-Tracked ready source off_len ready off_len (push source off_len b) (omega arith)
            (omega (arith, push-off source off_len b (omega arith)))
            (push-Tracked source off_len b l (omega arith) t))
    | inr k ↦
        rw (lt→ltb 0 off_len l, le→ltb off_len ready k) (push-Tracked source ready b hr fits t)
  ]
]

ready_written_le : (wanted capacity : ℕ) → ready_written wanted capacity ≤ wanted
unfolding ready_written
ready_written_le wanted capacity = ground arith

ready_written_pos :
    (wanted capacity : ℕ) → 0 < wanted → 0 < capacity → 0 < ready_written wanted capacity
unfolding ready_written
ready_written_pos wanted capacity hw hc = ground arith

module _ (source wanted window off_len capacity : ℕ) where
  -- The last lines of both branches: unless the window is full, bytes are appended to `f`.
  commit-Tracked :
      (f : SendBuf) (full : Bool)
      → 0 < capacity
      → 0 < wanted
      → f.off + wanted < 2 ^ 64
      → Tracked f
      → Tracked
          (if full
            then refuse (some 0) wanted f
            else if wanted == 0
            then refuse (some 0) wanted f
            else commit wanted (append source (ready_written wanted capacity) off_len f)).buffer
  unfolding commit refuse
  commit-Tracked f true hc hw ff tf = tf
  commit-Tracked f false hc hw ff tf = rw wanted_some (
      append-Tracked source (ready_written wanted capacity) off_len f
        (ready_written_pos wanted capacity hw hc) (omega (arith, ready_written_le wanted capacity))
        tf)
    where
      wanted_some : (wanted == 0) ≡ false
      wanted_some = ground arith

  write_measured-Tracked :
      (b : SendBuf)
      → b.off + wanted < 2 ^ 64
      → Tracked b
      → Tracked (write_measured source wanted window off_len (b, capacity)).buffer
  unfolding write_measured write_empty write_more refuse Tracked
  write_measured-Tracked b fits t = elim (Bool-cases (capacity == 0)) [
    | inl c ↦ rw c t
    | inr c ↦ elim (Bool-cases (leb wanted 0)) [
      | inl z ↦ rw (c, z) t
      | inr z ↦ elim (Bool-cases (is_empty b)) [
        | inl e ↦
            rw (c, z, e)
              (commit-Tracked
                (record b {
                  max_data = window;
                  removed = 0;
                  sent = 0;
                  length = len b;
                  used_length = len b;
                })
                (leb window (len b)) (ground arith) (ground arith) fits (same t))
        | inr e ↦
            rw (c, z, e)
              (commit-Tracked b (leb window (len b)) (ground arith) (ground arith) fits t)
      ]
    ]
  ]
    where
      same :
          Tracked b
          → Tracked (record b {
            max_data = window;
            removed = 0;
            sent = 0;
            length = len b;
            used_length = len b;
          })
      same k = k

-- When the stream's offset does not wrap, `write` on any buffer with one entry in the map for each
-- chunk, in order of the offsets and below the stream's offset, leaves such a buffer on every
-- branch.
pub write-Tracked :
    (src start_off write_data_len window_size off_len : ℕ) (b : SendBuf)
    → b.off + write_data_len < 2 ^ 64
    → Tracked b
    → Tracked (write src start_off write_data_len window_size off_len b).buffer
unfolding write cap len Tracked
write-Tracked src start_off write_data_len window_size off_len b fits t =
    elim (Bool-cases (b.pos == 0)) [
      | inl e ↦ rw e (
          write_measured-Tracked (src + start_off) write_data_len window_size off_len
            (u64 (b.max_data + 2 ^ 64 - len b)) (record b { recv_count = []; used_length = len b })
            fits t)
      | inr e ↦ rw e (
          write_measured-Tracked (src + start_off) write_data_len window_size off_len
            (u64 (b.max_data + 2 ^ 64 - len b)) (record b { used_length = len b }) fits t)
    ]
