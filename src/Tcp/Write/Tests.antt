-- ===== src/Tcp/Write/Tests.antt =====
-- A message of three bytes, sent in two pieces with an interrupt in between.
use gloo.Prelude.{
  ℕ, ◌-◌, ◌≡◌, ◌⊎◌, inl, inr, refl, List, [], ◌∷◌, Option, none, some, arith, drop, length, true,
  false, replicate,
}
use gloo.Tcp.Op.{Op, Preamble, unbound_buffer_op}
use gloo.Tcp.Write.{
  prepare_write, iov_length, iov_bytes, WriteResult, wrote, eintr, eagain, complete, write_loop,
}
use gloo.Tcp.Write.Bytes.{message, IsSendable, prepare_write-bytes}
use gloo.Tcp.Write.Loop.{Continues, write_loop-Continues}
use gloo.Tcp.Write.Completion.{Delivers, last, piece, interrupted, write_loop-completes}

-- A struct of 48 bytes, and buffer 1 with four bytes.
abbrev pub struct_bytes : Preamble → List ℕ
struct_bytes p = replicate 48 7

abbrev pub buffers : Option ℕ → List ℕ
buffers none = []
buffers (some b) = 10 ∷ 20 ∷ 30 ∷ 40 ∷ []

-- Bytes 1 to 3 of buffer 1.
abbrev pub three_bytes : Op
three_bytes = unbound_buffer_op 1 5 1 3

small_buffers : (b : Option ℕ) → (length (buffers b) ≡ 4) ⊎ (length (buffers b) ≡ 0)
small_buffers none = inr refl
small_buffers (some b) = inl refl

pub three_bytes-IsSendable : IsSendable struct_bytes buffers three_bytes
unfolding unbound_buffer_op
three_bytes-IsSendable = record {
  struct = refl;
  target = (omega arith, refl);
  small = omega arith;
  addressable = λ b. omega (arith, small_buffers b);
  written = omega arith;
}

abbrev pub pieces : List WriteResult
pieces = wrote 20 ∷ eintr ∷ wrote 31 ∷ []

pub pieces-Delivers : Delivers pieces 51
pieces-Delivers = piece 20 30 _ (interrupted 31 _ (last 31 []))

prepare_write-bytes_example :
    (iov_bytes struct_bytes buffers three_bytes (prepare_write three_bytes)
      ≡ drop three_bytes.nwritten (message struct_bytes buffers three_bytes))
    × (iov_length (prepare_write three_bytes) ≡ three_bytes.preamble.nbytes - three_bytes.nwritten)
prepare_write-bytes_example =
    prepare_write-bytes struct_bytes buffers three_bytes three_bytes-IsSendable

write_loop-Continues_example :
    Continues struct_bytes buffers three_bytes []
      (write_loop struct_bytes buffers false (eagain ∷ []) three_bytes [])
unfolding write_loop
write_loop-Continues_example =
    write_loop-Continues struct_bytes buffers false (eagain ∷ []) three_bytes []
      three_bytes-IsSendable (λ e. cc)

write_loop-completes_example :
    let r = write_loop struct_bytes buffers true pieces three_bytes [] in
    (r.verdict ≡ complete)
    × (r.wire ≡ drop three_bytes.nwritten (message struct_bytes buffers three_bytes))
unfolding unbound_buffer_op
write_loop-completes_example =
    write_loop-completes struct_bytes buffers true three_bytes [] three_bytes-IsSendable
      pieces-Delivers refl
