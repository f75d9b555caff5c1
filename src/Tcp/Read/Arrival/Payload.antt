-- ===== src/Tcp/Read/Arrival/Payload.antt =====
-- The bytes of a payload arrive in the posted receive's part of its buffer.
use gloo.Prelude.{
  ℕ, ◌+◌, ◌-◌, ◌<◌, ◌≤◌, ◌^◌, ◌≡◌, refl, sym, ap, ◌∙◌, List, ◌++◌, Option, some, arith, take, drop,
  length, ltb, leb, ◌==◌, if◌then◌else◌, Bool, true, false, length-append, length-take,
  drop-append_ge, drop-drop, take-append_length, u64,
}
use mathlib.Core.Path.{fun_ext}
use mathlib.Core.List.{append_assoc}
use gloo.Tcp.Op.{Preamble, preamble_size, send_unbound_buffer}
use gloo.Tcp.Write.{Iovec, buffer, sub64}
use gloo.Tcp.RecvAny.{UnboundBufferOp}
use gloo.Tcp.Read.{Reader, target, whole, sized, overwrite, write_memory, prepare_read}

-- Writing behind what has been written.
overwrite-overwrite :
    (m bytes more : List ℕ) (start : ℕ)
    → start + length bytes + length more ≤ length m
    → overwrite (overwrite m start bytes) (start + length bytes) more
      ≡ overwrite m start (bytes ++ more)
unfolding overwrite
overwrite-overwrite m bytes more start fits =
    let front = take start m in
    let front_size : length front ≡ start = omega (arith, length-take start m) in
    let back = drop (start + length bytes) m in
    let both : length (front ++ bytes) ≡ start + length bytes =
      omega (arith, length-append front bytes) in
    let regroup : front ++ (bytes ++ back) ≡ (front ++ bytes) ++ back =
      sym (append_assoc front bytes back) in
    let kept : take (start + length bytes) ((front ++ bytes) ++ back) ≡ front ++ bytes =
      ap (λ k. take k ((front ++ bytes) ++ back)) (sym both)
      ∙ take-append_length (front ++ bytes) back in
    let far : start + length bytes + length more - length (front ++ bytes) ≡ length more =
      omega (arith, both) in
    let over : start + length bytes + length more ≡ start + length (bytes ++ more) =
      omega (arith, length-append bytes more) in
    let dropped : drop (start + length bytes + length more) ((front ++ bytes) ++ back)
        ≡ drop (start + length (bytes ++ more)) m =
      drop-append_ge (start + length bytes + length more) (front ++ bytes) back (omega arith)
      ∙ ap (λ k. drop k back) far
      ∙ drop-drop (start + length bytes) (length more) m
      ∙ ap (λ k. drop k m) over in
    rw
      (
        regroup,
        kept,
        dropped,
        append_assoc front bytes (more ++ drop (start + length (bytes ++ more)) m),
        append_assoc bytes more (drop (start + length (bytes ++ more)) m),
      )
      refl

pub write_memory-write_memory :
    (memory : ℕ → List ℕ) (b start : ℕ) (bytes more : List ℕ)
    → start + length bytes + length more ≤ length (memory b)
    → write_memory (write_memory memory (some b) start bytes) (some b) (start + length bytes) more
      ≡ write_memory memory (some b) start (bytes ++ more)
unfolding write_memory
write_memory-write_memory memory b start bytes more fits = fun_ext at_name
  where
    at_name :
        (name : ℕ)
        → (if b == name
            then overwrite
                (if b == b then overwrite (memory b) start bytes else memory b)
                (start + length bytes)
                more
            else if b == name
            then overwrite (memory b) start bytes
            else memory name)
          ≡ (if b == name then overwrite (memory b) start (bytes ++ more) else memory name)
    at_name name = ground (arith, overwrite-overwrite (memory b) bytes more start fits)

-- A reader of a payload, with some bytes of it.
abbrev pub at_payload : Reader → Preamble → UnboundBufferOp → List ℕ → List ℕ → Reader
at_payload r p u done incoming = record r {
  rx = record r.rx {
    preamble = record p { opcode = send_unbound_buffer };
    ubuf = some u.buf;
    offset = u.offset;
    nbytes = u.nbytes;
    nread = preamble_size + length done;
  };
  memory = write_memory r.memory (some u.buf) u.offset done;
  incoming = incoming;
}

abbrev pub payload_target : UnboundBufferOp → List ℕ → ℕ → Iovec
payload_target u done len = record {
  base = buffer (some u.buf);
  start = u.offset + length done;
  len = len;
}

-- The payload goes into its receive's part of a buffer of the address space.
pub record Suits (r : Reader) (p : Preamble) (u : UnboundBufferOp) (size : ℕ) : Type 0 where
  pub length_is : p.length ≡ size
  pub in_receive : size ≤ u.nbytes
  pub in_buffer : u.offset + size ≤ length (r.memory u.buf)
  pub addressable : length (r.memory u.buf) < 2 ^ 63

module _ (read_preamble : List ℕ → Preamble) (get_buffer : ℕ → Option ℕ) (size_of : ℕ → ℕ)
    (alive : ℕ → Bool) where
  pub prepare_more :
      (r : Reader) (p : Preamble) (u : UnboundBufferOp) (done incoming : List ℕ) (len : ℕ)
      → alive u.buf ≡ true
      → Suits r p u (length done + len)
      → 0 < len
      → prepare_read read_preamble get_buffer size_of alive (at_payload r p u done incoming)
        ≡ target (payload_target u done len) (at_payload r p u done incoming)
  unfolding prepare_read sized
  prepare_more r p u done incoming len there s some_left =
      let past : ltb (preamble_size + length done) preamble_size ≡ false = ground arith in
      let start : u64 (u.offset + (preamble_size + length done - preamble_size))
          ≡ u.offset + length done =
        omega (arith, s.in_buffer, s.addressable) in
      let left : sub64 p.length (preamble_size + length done - preamble_size) ≡ len =
        omega (arith, s.length_is, s.in_buffer, s.addressable) in
      let fits : leb p.length u.nbytes ≡ true = ground (arith, s.length_is, s.in_receive) in
      let nonzero : (len == 0) ≡ false = ground arith in
      let small : leb (2 ^ 63) len ≡ false = ground (arith, s.in_buffer, s.addressable) in
      rw (past, there, start, left, fits, nonzero, small) refl

  pub prepare_done :
      (r : Reader) (p : Preamble) (u : UnboundBufferOp) (done incoming : List ℕ)
      → alive u.buf ≡ true
      → Suits r p u (length done)
      → prepare_read read_preamble get_buffer size_of alive (at_payload r p u done incoming)
        ≡ whole (at_payload r p u done incoming)
  unfolding prepare_read sized
  prepare_done r p u done incoming there s =
      let past : ltb (preamble_size + length done) preamble_size ≡ false = ground arith in
      let left : sub64 p.length (preamble_size + length done - preamble_size) ≡ 0 =
        omega (arith, s.length_is, s.in_buffer, s.addressable) in
      let fits : leb p.length u.nbytes ≡ true = ground (arith, s.length_is, s.in_receive) in
      rw (past, there, left, fits) refl
