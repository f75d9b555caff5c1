-- ===== src/Dmludp/SendBuf/Write.antt =====
-- `SendBuf::write` of gloo/send_buf.h.
pub mod Tiles
use gloo.Prelude.{
  ℕ, zero, suc, ◌+◌, ◌-◌, ◌≤◌, Bool, true, Option, none, some, List, [], ◌∷◌, ◌++◌, u64, ltb, leb,
  ◌==◌, if◌then◌else◌,
}
use gloo.Dmludp.SendBuf.{SendBuf, Chunk, send_buffer_size, cap, len, is_empty, assign}

-- The lines that each of the loops repeats: a chunk of `n` bytes at `base` is appended.
unfoldable pub push : (base n : ℕ) → SendBuf → SendBuf
push base n b = record b {
  offset_recv = assign b.off true b.offset_recv;
  chunks = b.chunks ++ (record { offset = b.off; base = base; size = n } ∷ []);
  off = u64 (b.off + n);
  length = u64 (b.length + n);
  used_length = u64 (b.used_length + n);
}

-- `for (auto it = off_len; it < ready_written; )`, with the bytes written so far; each iteration
-- writes at least one, so `ready_written` rounds are enough.
unfoldable pub push_all : (fuel source it ready_written write_len : ℕ) → SendBuf → SendBuf × ℕ
push_all zero source it ready_written write_len b = (b, write_len)
push_all (suc fuel) source it ready_written write_len b =
    let full =
      push_all fuel source (it + send_buffer_size) ready_written (write_len + send_buffer_size)
        (push (source + it) send_buffer_size b) in
    let last =
      push_all fuel source ready_written ready_written (write_len + (ready_written - it))
        (push (source + it) (ready_written - it) b) in
    if ltb it ready_written
    then (if ltb send_buffer_size (ready_written - it) then full else last)
    else (b, write_len)

-- The part that both branches of `write` share: the rest of a split packet, then whole packets.
unfoldable pub append : (source ready_written off_len : ℕ) → SendBuf → SendBuf × ℕ
append source ready_written off_len b =
    if ltb 0 off_len
    then (if ltb off_len ready_written
        then push_all ready_written source off_len ready_written off_len (push source off_len b)
        else (push source ready_written b, ready_written))
    else push_all ready_written source off_len ready_written 0 b

-- What `write` returns, `none` for -1; the buffer; and what it leaves of `write_data_len`.
pub record Written : Type 0 where
  pub result : Option ℕ
  pub buffer : SendBuf
  pub left : ℕ

unfoldable pub ready_written : (write_data_len capacity : ℕ) → ℕ
ready_written write_data_len capacity =
    if ltb capacity write_data_len then capacity else write_data_len

unfoldable pub commit : (write_data_len : ℕ) → SendBuf × ℕ → Written
commit write_data_len (b, write_len) = record {
  result = some write_len;
  buffer = b;
  left = write_data_len - write_len;
}

unfoldable pub refuse : (result : Option ℕ) → (write_data_len : ℕ) → SendBuf → Written
refuse result write_data_len b = record { result = result; buffer = b; left = write_data_len }

-- The branch for an empty buffer: `max_data` becomes the window, after `capacity` was taken.
unfoldable pub write_empty :
    (source write_data_len window_size off_len capacity : ℕ) → SendBuf → Written
write_empty source write_data_len window_size off_len capacity b =
    let fresh = record b {
      max_data = window_size;
      removed = 0;
      sent = 0;
      length = len b;
      used_length = len b;
    } in
    if leb window_size (len b)
    then refuse (some 0) write_data_len fresh
    else if write_data_len == 0
    then refuse (some 0) write_data_len fresh
    else commit write_data_len (append source (ready_written write_data_len capacity) off_len fresh)

unfoldable pub write_more :
    (source write_data_len window_size off_len capacity : ℕ) → SendBuf → Written
write_more source write_data_len window_size off_len capacity b =
    if leb window_size (len b)
    then refuse (some 0) write_data_len b
    else if write_data_len == 0
    then refuse (some 0) write_data_len b
    else commit write_data_len (append source (ready_written write_data_len capacity) off_len b)

-- What follows once the capacity is known.
unfoldable pub write_measured :
    (source write_data_len window_size off_len : ℕ) → SendBuf × ℕ → Written
write_measured source write_data_len window_size off_len (b, capacity) =
    if capacity == 0
    then refuse (some 0) write_data_len b
    else if leb write_data_len 0
    then refuse none write_data_len b
    else if is_empty b
    then write_empty source write_data_len window_size off_len capacity b
    else write_more source write_data_len window_size off_len capacity b

unfoldable pub write : (src start_off write_data_len window_size off_len : ℕ) → SendBuf → Written
write src start_off write_data_len window_size off_len b =
    let restarted = if b.pos == 0 then record b { recv_count = [] } else b in
    write_measured (src + start_off) write_data_len window_size off_len (cap restarted)
