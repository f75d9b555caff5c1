-- ===== src/Dmludp/SendBuf/Emit.antt =====
-- `SendBuf::off_front` and `SendBuf::emit` of gloo/send_buf.h.
pub mod Order
use gloo.Prelude
use gloo.Prelude.{
  ℕ, zero, suc, ◌≡◌, refl, sym, ap, ◌∙◌, ◌+◌, ◌-◌, ◌^◌, ◌≤◌, ◌<◌, Bool, true, false, ◌||◌, Option,
  none, some, List, [], ◌∷◌, ◌++◌, drop, u64, ltb, leb, ◌==◌, if◌then◌else◌, arith,
}
use gloo.Dmludp.SendBuf.{SendBuf, Chunk, is_empty, min_sendbuf_initial_len}

-- What `off_front` does: return an offset, have `data.at` throw, or run off its end with no value.
pub data Front : Type 0 where
  found : (offset : ℕ) → Front
  throws : Front
  no_value : Front

-- `while (tmp_pos <= data.size() - 1)`, over the chunks from `tmp_pos` on.
unfoldable pub front_from : List Chunk → Front
front_from [] = Front.no_value
front_from (c ∷ cs) = if c.size == 0 then front_from cs else Front.found c.offset

-- On an empty buffer the bound wraps around, and `data.at(pos)` throws.
unfoldable pub off_front : SendBuf → Front
off_front b = if is_empty b then Front.throws else front_from (drop b.pos b.chunks)

-- The loop's variables.
pub record Emitting : Type 0 where
  pub pos : ℕ
  pub iov_base : ℕ
  pub iov_len : ℕ
  pub out_len : ℕ
  pub length : ℕ
  pub used_length : ℕ

unfoldable pub take_chunk : Chunk → Emitting → Emitting
take_chunk c e = record e {
  iov_base = c.base;
  iov_len = c.size;
  length = u64 (e.length + 2 ^ 64 - c.size);
  used_length = u64 (e.used_length + 2 ^ 64 - c.size);
  out_len = c.size;
  pos = suc e.pos;
}

-- `while (ready())`, over the chunks from `pos` on.
unfoldable pub emit_from : List Chunk → Emitting → Emitting
emit_from [] e = e
emit_from (c ∷ cs) e =
    let skipped = emit_from cs (record e { pos = suc e.pos }) in
    let more = emit_from cs (take_chunk c e) in
    if c.size == 0
    then skipped
    else if leb c.size min_sendbuf_initial_len
    then take_chunk c e
    else more

-- What `emit` gives: the exception or undefined value of `off_front`, or the payload.
pub data Emitted : Type 0 where
  threw : Emitted
  undefined : Emitted
  payload : (iov_base iov_len out_off : ℕ) (stop : Bool) (after : SendBuf) → Emitted

-- The lines after the loop: the end of the window or of the chunks starts over.
unfoldable pub finish : (out_off : ℕ) → Emitting → SendBuf → Emitted
finish out_off e b =
    let sent = u64 (b.sent + e.out_len) in
    let window_done = leb b.max_data sent in
    let pos = if window_done then 0 else e.pos in
    let all_done = pos == Prelude.length b.chunks in
    Emitted.payload e.iov_base e.iov_len (u64 (out_off + e.out_len)) (window_done || all_done)
      (record b {
        pos = if all_done then 0 else pos;
        length = e.length;
        used_length = e.used_length;
        sent = sent;
      })

unfoldable pub emit : (iov_base iov_len : ℕ) → SendBuf → Emitted
emit iov_base iov_len b = elim (off_front b) [
  | Front.throws ↦ Emitted.threw
  | Front.no_value ↦ Emitted.undefined
  | Front.found out_off ↦
      finish out_off
        (emit_from (drop b.pos b.chunks) (record {
          pos = b.pos;
          iov_base = iov_base;
          iov_len = iov_len;
          out_len = 0;
          length = b.length;
          used_length = b.used_length;
        }))
        b
]

-- Calls of `emit` until one says stop, at most `k`: base, length and end offset of each payload.
unfoldable pub emit_all : (k : ℕ) → SendBuf → List (ℕ × ℕ × ℕ)
emit_all zero b = []
emit_all (suc k) b = elim (emit 0 0 b) [
  | Emitted.threw ↦ []
  | Emitted.undefined ↦ []
  | Emitted.payload iov_base iov_len out_off stop after ↦
      (iov_base, iov_len, out_off) ∷ (if stop then [] else emit_all k after)
]
