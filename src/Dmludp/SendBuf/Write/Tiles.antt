-- ===== src/Dmludp/SendBuf/Write/Tiles.antt =====
-- The chunks that `write` appends tile the bytes it takes.
use gloo.Prelude.{
  ℕ, zero, suc, ◌≡◌, refl, sym, subst, ap, ◌∙◌, ◌+◌, ◌-◌, ◌^◌, ◌≤◌, ◌<◌, inl, inr, false, some,
  List, [], ◌∷◌, ◌++◌, u64, lt→ltb, le→ltb, leb, ◌==◌, Bool-cases, lt-or_le, arith, min,
}
use gloo.Dmludp.SendBuf.{SendBuf, Chunk, cap, len, is_empty, send_buffer_size}
use gloo.Dmludp.SendBuf.Write.{
  push, push_all, append, write, write_measured, write_empty, write_more, ready_written, commit,
  Written,
}
use mathlib.Core.List.{append_assoc, append-nil}
use native.Mathlib.Nat.{mod-eq_of_lt}

-- Chunks that lie one after the other in the stream from `off` and in memory from `base`, none
-- empty and none larger than a packet's payload, `n` bytes in all.
unfoldable pub Tiles : (off base n : ℕ) → List Chunk → Type 0
Tiles off base n [] = n ≡ 0
Tiles off base n (c ∷ cs) =
    (c.offset ≡ off)
    × (c.base ≡ base)
    × (0 < c.size)
    × (c.size ≤ send_buffer_size)
    × (c.size ≤ n)
    × Tiles (off + c.size) (base + c.size) (n - c.size) cs

-- The outcome of appending `n` bytes from `base` to `b`.
pub record Appended (b : SendBuf) (base n : ℕ) (after : SendBuf) : Type 0 where
  pub suffix : List Chunk
  pub appends : after.chunks ≡ b.chunks ++ suffix
  pub tiles : Tiles b.off base n suffix
  pub advances : after.off ≡ b.off + n
  pub keeps_pos : after.pos ≡ b.pos

recast :
    {off off' base base' n n' : ℕ} (cs : List Chunk)
    → off ≡ off'
    → base ≡ base'
    → n ≡ n'
    → Tiles off base n cs
    → Tiles off' base' n' cs
recast {off} {off'} {base} {base'} {n} {n'} cs eo eb en t =
    subst (λ m. Tiles off' base' m cs) en
      (subst (λ x. Tiles off' x n cs) eb (subst (λ x. Tiles x base n cs) eo t))

Tiles-append :
    (off base n m : ℕ) (cs ds : List Chunk)
    → Tiles off base n cs
    → Tiles (off + n) (base + n) m ds
    → Tiles off base (n + m) (cs ++ ds)
unfolding Tiles
Tiles-append off base n m [] ds e t = recast ds (omega arith) (omega arith) (omega arith) t
Tiles-append off base n m (c ∷ cs) ds (eo, eb, lo, up, fits, rest) t = (
  eo,
  eb,
  lo,
  up,
  omega arith,
  recast (cs ++ ds) refl refl (omega arith) (
      Tiles-append (off + c.size) (base + c.size) (n - c.size) m cs ds rest
        (recast ds (omega arith) (omega arith) refl t)),
)

Appended-trans :
    {b mid after : SendBuf} (base n m : ℕ)
    → Appended b base n mid
    → Appended mid (base + n) m after
    → Appended b base (n + m) after
Appended-trans {b} {mid} {after} base n m p q = record {
  suffix = p.suffix ++ q.suffix;
  appends =
      q.appends ∙ ap (λ cs. cs ++ q.suffix) p.appends ∙ append_assoc b.chunks p.suffix q.suffix;
  tiles =
      Tiles-append b.off base n m p.suffix q.suffix p.tiles
        (recast q.suffix p.advances refl refl q.tiles);
  advances = omega (arith, p.advances, q.advances);
  keeps_pos = q.keeps_pos ∙ p.keeps_pos;
}

push-Appended :
    (b : SendBuf) (base n : ℕ)
    → 0 < n
    → n ≤ send_buffer_size
    → b.off + n < 2 ^ 64
    → Appended b base n (push base n b)
unfolding push Tiles
push-Appended b base n lo up fits = record {
  suffix = record { offset = b.off; base = base; size = n } ∷ [];
  appends = refl;
  tiles = (refl, refl, lo, up, omega arith, omega arith);
  advances = mod-eq_of_lt fits;
  keeps_pos = refl;
}

nothing : (b : SendBuf) (base n : ℕ) → n ≡ 0 → Appended b base n b
unfolding Tiles
nothing b base n e = record {
  suffix = [];
  appends = sym (append-nil b.chunks);
  tiles = e;
  advances = omega arith;
  keeps_pos = refl;
}

Appended-cast :
    {b after : SendBuf} {base base' n n' : ℕ}
    → base ≡ base'
    → n ≡ n'
    → Appended b base n after
    → Appended b base' n' after
Appended-cast {b} {after} {base} {base'} {n} {n'} eb en p =
    subst (λ m. Appended b base' m after) en (subst (λ x. Appended b x n after) eb p)

-- A chunk, and then the rest.
after_push :
    (b : SendBuf) (source it it' n ready w : ℕ) {result : SendBuf × ℕ}
    → it' ≡ it + n
    → 0 < n
    → n ≤ send_buffer_size
    → n ≤ ready - it
    → b.off + (ready - it) < 2 ^ 64
    → (Appended b (source + it) n (push (source + it) n b)
        → Appended (push (source + it) n b) (source + it') (ready - it') result.0
          × (result.1 ≡ w + n + (ready - it')))
    → Appended b (source + it) (ready - it) result.0 × (result.1 ≡ w + (ready - it))
after_push b source it it' n ready w e lo up fits hs rest =
    let first = push-Appended b (source + it) n lo up (omega arith) in
    let (later, count) = rest first in
    (
      Appended-cast refl (omega arith) (
          Appended-trans (source + it) n (ready - it') first
            (Appended-cast (omega arith) refl later)),
      omega (arith, count),
    )

push_all-Appended :
    (fuel source it ready w : ℕ) (b : SendBuf)
    → it ≤ ready
    → ready - it ≤ fuel
    → b.off + (ready - it) < 2 ^ 64
    → Appended b (source + it) (ready - it) (push_all fuel source it ready w b).0
      × ((push_all fuel source it ready w b).1 ≡ w + (ready - it))
unfolding push_all
push_all-Appended zero source it ready w b h hf hs =
    (nothing b (source + it) (ready - it) (omega arith), omega arith)
push_all-Appended (suc fuel) source it ready w b h hf hs = elim (lt-or_le it ready) [
  | inr g ↦ rw (le→ltb it ready g) (nothing b (source + it) (ready - it) (omega arith), omega arith)
  | inl l ↦ elim (lt-or_le send_buffer_size (ready - it)) [
    | inl k ↦
        rw (lt→ltb it ready l, lt→ltb send_buffer_size (ready - it) k)
          (after_push b source it (it + send_buffer_size) send_buffer_size ready w refl
            (omega arith) (omega arith) (omega arith) hs
            (λ p.
              push_all-Appended fuel source (it + send_buffer_size) ready (w + send_buffer_size)
                (push (source + it) send_buffer_size b) (omega arith) (omega arith)
                (omega (arith, p.advances))))
    | inr k ↦
        rw (lt→ltb it ready l, le→ltb send_buffer_size (ready - it) k)
          (after_push b source it ready (ready - it) ready w (omega arith) (omega arith) k
            (omega arith) hs
            (λ p.
              push_all-Appended fuel source ready ready (w + (ready - it))
                (push (source + it) (ready - it) b) (omega arith) (omega arith)
                (omega (arith, p.advances))))
  ]
]

append-Appended :
    (source ready off_len : ℕ) (b : SendBuf)
    → 0 < ready
    → off_len ≤ send_buffer_size
    → b.off + ready < 2 ^ 64
    → Appended b source ready (append source ready off_len b).0
      × ((append source ready off_len b).1 ≡ ready)
unfolding append
append-Appended source ready off_len b hr ho hs = elim (lt-or_le 0 off_len) [
  | inr g ↦
      let (all, count) =
        push_all-Appended ready source off_len ready 0 b (omega arith) (omega arith)
          (omega arith) in
      rw (le→ltb 0 off_len g) (Appended-cast (omega arith) (omega arith) all, omega (arith, count))
  | inl l ↦ elim (lt-or_le off_len ready) [
    | inl k ↦
        let first = push-Appended b source off_len l ho (omega arith) in
        let (rest, count) =
          push_all-Appended ready source off_len ready off_len (push source off_len b) (omega arith)
            (omega arith) (omega (arith, first.advances)) in
        rw (lt→ltb 0 off_len l, lt→ltb off_len ready k)
          (
            Appended-cast refl (omega arith)
                (Appended-trans source off_len (ready - off_len) first rest),
            omega (arith, count),
          )
    | inr k ↦
        rw (lt→ltb 0 off_len l, le→ltb off_len ready k)
          (push-Appended b source ready hr (omega arith) hs, refl)
  ]
]

-- A call that takes `taken` bytes of the `wanted` at `source`.
pub record Takes (b : SendBuf) (source wanted taken : ℕ) (after : Written) : Type 0 where
  pub counts : after.result ≡ some taken
  pub leaves : after.left ≡ wanted - taken
  pub appended : Appended b source taken after.buffer

-- The other fields do not matter.
Takes-same :
    {f b : SendBuf} {source wanted taken : ℕ} {after : Written}
    → f.chunks ≡ b.chunks
    → f.off ≡ b.off
    → f.pos ≡ b.pos
    → Takes f source wanted taken after
    → Takes b source wanted taken after
Takes-same ec eo ep t = record {
  counts = t.counts;
  leaves = t.leaves;
  appended = record {
    suffix = t.appended.suffix;
    appends = t.appended.appends ∙ ap (λ cs. cs ++ t.appended.suffix) ec;
    tiles = recast t.appended.suffix eo refl refl t.appended.tiles;
    advances = omega (arith, t.appended.advances);
    keeps_pos = t.appended.keeps_pos ∙ ep;
  };
}

commit-Takes :
    (b : SendBuf) (source wanted taken off_len : ℕ)
    → 0 < taken
    → off_len ≤ send_buffer_size
    → b.off + taken < 2 ^ 64
    → Takes b source wanted taken (commit wanted (append source taken off_len b))
unfolding commit
commit-Takes b source wanted taken off_len ht ho hs =
    let (fits, count) = append-Appended source taken off_len b ht ho hs in
    record { counts = ap some count; leaves = ap (λ n. wanted - n) count; appended = fits }

module _ (source wanted window off_len capacity : ℕ) (b : SendBuf) where
  ready_written-min : ready_written wanted capacity ≡ min wanted capacity
  unfolding ready_written
  ready_written-min = ground arith

  write_measured-Takes :
      0 < wanted
      → 0 < capacity
      → len b < window
      → off_len ≤ send_buffer_size
      → b.off + wanted < 2 ^ 64
      → Takes b source wanted
          (min wanted capacity)
          (write_measured source wanted window off_len (b, capacity))
  unfolding write_measured write_empty write_more len
  write_measured-Takes hw hc hl ho hs = elim (Bool-cases (is_empty b)) [
    | inl e ↦
        rw
          (
            pos-eq_zero capacity hc,
            le-zero wanted hw,
            e,
            not_full,
            pos-eq_zero wanted hw,
            ready_written-min,
          )
          (Takes-same refl refl refl (
            taken_by
              (record b {
                max_data = window;
                removed = 0;
                sent = 0;
                length = len b;
                used_length = len b;
              })
              hs))
    | inr e ↦
        rw
          (
            pos-eq_zero capacity hc,
            le-zero wanted hw,
            e,
            not_full,
            pos-eq_zero wanted hw,
            ready_written-min,
          )
          (taken_by b hs)
  ]
    where
      not_full : leb window (len b) ≡ false
      not_full = ground arith

      pos-eq_zero : (n : ℕ) → 0 < n → (n == 0) ≡ false
      pos-eq_zero n h = ground arith

      le-zero : (n : ℕ) → 0 < n → leb n 0 ≡ false
      le-zero n h = ground arith

      taken_by :
          (f : SendBuf)
          → f.off + wanted < 2 ^ 64
          → Takes f source wanted
              (min wanted capacity)
              (commit wanted (append source (min wanted capacity) off_len f))
      taken_by f h =
          commit-Takes f source wanted (min wanted capacity) off_len (omega arith) ho (omega arith)

room : (most used : ℕ) → used < most → most < 2 ^ 64 → u64 (most + 2 ^ 64 - used) ≡ most - used
room most used h k = omega arith

-- When there is something to write, the stored bytes are fewer than the window and than the limit
-- `max_data` of the call before, `off_len` is at most a payload and the stream's offset does not
-- wrap, `write` takes as many bytes as are offered or as that old limit leaves room for, whatever
-- the new window; it returns their number, takes it off the count and appends chunks that lie one
-- after the other in the stream and in the caller's memory, none empty or larger than a payload.
pub write-Takes :
    (src start_off write_data_len window_size off_len : ℕ) (b : SendBuf)
    → 0 < write_data_len
    → len b < window_size
    → len b < b.max_data
    → b.max_data < 2 ^ 64
    → off_len ≤ send_buffer_size
    → b.off + write_data_len < 2 ^ 64
    → Takes b
        (src + start_off)
        write_data_len
        (min write_data_len (b.max_data - len b))
        (write src start_off write_data_len window_size off_len b)
unfolding write cap len
write-Takes src start_off write_data_len window_size off_len b hw hl hc hm ho hs =
    elim (Bool-cases (b.pos == 0)) [
      | inl e ↦
          rw (e, room b.max_data (len b) hc hm)
            (Takes-same refl refl refl (
              write_measured-Takes (src + start_off) write_data_len window_size off_len
                (b.max_data - len b) (record b { recv_count = []; used_length = len b }) hw
                (omega arith) hl ho hs))
      | inr e ↦
          rw (e, room b.max_data (len b) hc hm)
            (Takes-same refl refl refl (
              write_measured-Takes (src + start_off) write_data_len window_size off_len
                (b.max_data - len b) (record b { used_length = len b }) hw (omega arith) hl ho hs))
    ]
