-- ===== src/Dmludp/SendBuf/Emit/Order.antt =====
-- The payloads of a window are its chunks, in order.
use gloo.Prelude
use gloo.Prelude.{
  zero, suc, ◌+◌, ◌-◌, ◌^◌, ◌≤◌, ◌<◌, Bool, ◌||◌, Option, none, some, List, [], ◌∷◌, ◌++◌, u64, ltb,
  if◌then◌else◌,
}
use gloo.Dmludp.SendBuf.{SendBuf, Chunk, min_sendbuf_initial_len}
use gloo.Dmludp.SendBuf.Emit.{Emitting}

-- The loop's variables once it has the chunk.
abbrev after_chunk : SendBuf → Chunk → Emitting
after_chunk b c = record {
  pos = suc b.pos;
  iov_base = c.base;
  iov_len = c.size;
  out_len = c.size;
  length = u64 (b.length + 2 ^ 64 - c.size);
  used_length = u64 (b.used_length + 2 ^ 64 - c.size);
}

-- Chunks as `write` makes them.
unfoldable pub Payloads : List Chunk → Type 0
Payloads [] = Unit
Payloads (c ∷ cs) =
    (0 < c.size) × (c.size ≤ min_sendbuf_initial_len) × (c.offset + c.size < 2 ^ 64) × Payloads cs
