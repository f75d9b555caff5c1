-- ===== src/Dmludp/SendBuf.antt =====
-- gloo/send_buf.h: the send buffer, which cuts the application's bytes into the payloads of packets.

pub mod Write
pub mod Emit
pub mod Acks
use gloo.Prelude
use gloo.Prelude.{
  ℕ, zero, suc, ◌+◌, ◌-◌, ◌*◌, ◌^◌, Bool, true, false, not, ◌||◌, Option, none, some, List, [], ◌∷◌,
  ◌++◌, map, get_elem?, u64, ltb, leb, ◌==◌, if◌then◌else◌,
}

abbrev pub send_buffer_size : ℕ
send_buffer_size = 1350

abbrev pub min_sendbuf_initial_len : ℕ
min_sendbuf_initial_len = 1350

-- An element of `data`: an offset in the stream, and the application's bytes by address and count.
pub record Chunk : Type 0 where
  pub offset : ℕ
  pub base : ℕ
  pub size : ℕ

-- The fields; `offset_recv` is the map in the order of its keys, `recv_count` the set.
pub record SendBuf : Type 0 where
  pub chunks : List Chunk
  pub pos : ℕ
  pub off : ℕ
  pub length : ℕ
  pub max_data : ℕ
  pub used_length : ℕ
  pub offset_recv : List (ℕ × Bool)
  pub removed : ℕ
  pub sent : ℕ
  pub recv_count : List ℕ

abbrev pub empty_buf : SendBuf
empty_buf = record {
  chunks = [];
  pos = 0;
  off = 0;
  length = 0;
  max_data = min_sendbuf_initial_len * 8;
  used_length = 0;
  offset_recv = [];
  removed = 0;
  sent = 0;
  recv_count = [];
}

-- `len`: the bytes stored.
unfoldable pub sum_sizes : List Chunk → ℕ
sum_sizes [] = 0
sum_sizes (c ∷ cs) = c.size + sum_sizes cs

unfoldable pub len : SendBuf → ℕ
len b = sum_sizes b.chunks

unfoldable pub is_empty : SendBuf → Bool
is_empty b = elim b.chunks [ [] ↦ true | (c ∷ cs) ↦ false ]

-- `cap`: size_t arithmetic, so it wraps when more is stored than `max_data`.
unfoldable pub cap : SendBuf → SendBuf × ℕ
cap b = (record b { used_length = len b }, u64 (b.max_data + 2 ^ 64 - len b))

-- `offset_recv[key] = value`.
unfoldable pub assign : ℕ → Bool → List (ℕ × Bool) → List (ℕ × Bool)
assign key value [] = (key, value) ∷ []
assign key value ((k, v) ∷ entries) =
    let rest = assign key value entries in
    if ltb key k
    then (key, value) ∷ (k, v) ∷ entries
    else if key == k
    then (k, value) ∷ entries
    else (k, v) ∷ rest

-- `find`.
unfoldable pub has_key : ℕ → List (ℕ × Bool) → Bool
has_key key [] = false
has_key key ((k, v) ∷ entries) = (key == k) || has_key key entries

unfoldable pub ack_and_drop : ℕ → SendBuf → SendBuf
ack_and_drop offset b =
    if has_key offset b.offset_recv
    then record b { offset_recv = assign offset false b.offset_recv }
    else b

unfoldable pub contains : ℕ → List ℕ → Bool
contains n [] = false
contains n (m ∷ ms) = (n == m) || contains n ms

unfoldable pub insert_ack : ℕ → SendBuf → SendBuf
insert_ack offset b =
    if has_key offset b.offset_recv
    then record b {
      recv_count = if contains offset b.recv_count then b.recv_count else offset ∷ b.recv_count;
    }
    else b

unfoldable pub check_ack : SendBuf → Bool
check_ack b = Prelude.length b.recv_count == Prelude.length b.offset_recv

-- `keysToDelete`, and what is left without them.
unfoldable pub keys_to_delete : List (ℕ × Bool) → List ℕ
keys_to_delete [] = []
keys_to_delete ((k, v) ∷ entries) = if v then keys_to_delete entries else k ∷ keys_to_delete entries

unfoldable pub remove_chunks : List ℕ → List Chunk → List Chunk
remove_chunks keys [] = []
remove_chunks keys (c ∷ cs) =
    if contains c.offset keys then remove_chunks keys cs else c ∷ remove_chunks keys cs

unfoldable pub erase_keys : List ℕ → List (ℕ × Bool) → List (ℕ × Bool)
erase_keys keys [] = []
erase_keys keys ((k, v) ∷ entries) =
    if contains k keys then erase_keys keys entries else (k, v) ∷ erase_keys keys entries

unfoldable pub recv_and_drop : SendBuf → SendBuf
recv_and_drop b =
    if is_empty b
    then b
    else let keys = keys_to_delete b.offset_recv in
      record b { chunks = remove_chunks keys b.chunks; offset_recv = erase_keys keys b.offset_recv }

unfoldable pub clear : SendBuf → SendBuf
clear b = record b { chunks = []; pos = 0; off = 0; length = 0 }
