-- ===== src/Tcp/Write/Bytes.antt =====
-- What `prepareWrite` hands to writev is exactly the rest of the message.
use gloo.Prelude.{
  ℕ, ◌+◌, ◌-◌, ◌≤◌, ◌<◌, ◌^◌, ◌≡◌, refl, ap, ◌∙◌, sym, List, [], ◌++◌, Option, arith, take, drop,
  length, length-append, length-drop, length-take, ltb, Bool-cases, inl, inr, drop-drop, drop-take,
  drop-append_le, drop-append_ge, drop_all, take_all,
}
use mathlib.Core.List.{append-nil}
use gloo.Tcp.Op.{
  Op, Preamble, Opcode, send_buffer, send_unbound_buffer, notify_send_ready, notify_recv_ready,
  preamble_size,
}
use gloo.Tcp.Write.{
  Iovec, buffer, payload_iov, preamble_iov, body_iov, prepare_write, iov_length, base_bytes,
  iov_bytes,
}

abbrev payload : (Option ℕ → List ℕ) → Op → Opcode → List ℕ
payload memory op send_buffer = take op.preamble.length (drop op.preamble.offset (memory op.buf))
payload memory op send_unbound_buffer = take op.nbytes (drop op.offset (memory op.ubuf))
payload memory op notify_send_ready = []
payload memory op notify_recv_ready = []

-- The bytes of an operation's payload.
abbrev pub payload_of : (Option ℕ → List ℕ) → Op → List ℕ
payload_of memory op = payload memory op op.preamble.opcode

abbrev InBuffer : (Option ℕ → List ℕ) → Op → Opcode → Type 0
InBuffer memory op send_buffer =
    (op.preamble.offset + op.preamble.length ≤ length (memory op.buf))
    × (op.preamble.nbytes ≡ preamble_size + op.preamble.length)
InBuffer memory op send_unbound_buffer =
    (op.offset + op.nbytes ≤ length (memory op.ubuf))
    × (op.preamble.nbytes ≡ preamble_size + op.nbytes)
InBuffer memory op notify_send_ready = op.preamble.nbytes ≡ preamble_size
InBuffer memory op notify_recv_ready = op.preamble.nbytes ≡ preamble_size

size_at_least :
    (memory : Option ℕ → List ℕ) (op : Op) (kind : Opcode)
    → InBuffer memory op kind
    → preamble_size ≤ op.preamble.nbytes
size_at_least memory op send_buffer h = omega arith
size_at_least memory op send_unbound_buffer h = omega arith
size_at_least memory op notify_send_ready h = omega arith
size_at_least memory op notify_recv_ready h = omega arith

module _ (preamble_bytes : Preamble → List ℕ) (memory : Option ℕ → List ℕ) where
  -- The bytes that an operation sends.
  abbrev pub message : Op → List ℕ
  message op = preamble_bytes op.preamble ++ payload memory op op.preamble.opcode

  -- The struct has its size, the payload lies in its buffer, buffers fit the address space, and
  -- no more than the message has been written.
  pub record IsSendable (op : Op) : Type 0 where
    pub struct : length (preamble_bytes op.preamble) ≡ preamble_size
    pub target : InBuffer memory op op.preamble.opcode
    pub small : op.preamble.nbytes < 2 ^ 64
    pub addressable : (b : Option ℕ) → length (memory b) < 2 ^ 63
    pub written : op.nwritten ≤ op.preamble.nbytes

  slice_rest :
      (op : Op) (buf : Option ℕ) (offset nbytes : ℕ)
      → offset + nbytes ≤ length (memory buf)
      → length (memory buf) < 2 ^ 63
      → op.nwritten ≤ preamble_size + nbytes
      → let v = payload_iov op buf offset nbytes in
        take v.len (drop v.start (base_bytes preamble_bytes memory op v.base))
        ≡ drop (op.nwritten - preamble_size) (take nbytes (drop offset (memory buf)))
  unfolding payload_iov base_bytes
  slice_rest op buf offset nbytes fits small le =
      let v = payload_iov op buf offset nbytes in
      let done = op.nwritten - preamble_size in
      let start : v.start ≡ offset + done = ground arith in
      let len : v.len ≡ nbytes - done = ground arith in
      let base : v.base ≡ buffer buf = ground arith in
      rw
        (
          base,
          start,
          len,
          drop-take done nbytes (drop offset (memory buf)),
          drop-drop offset done (memory buf),
        )
        refl

  length-payload_iov :
      (op : Op) (buf : Option ℕ) (offset nbytes : ℕ)
      → op.nwritten ≤ preamble_size + nbytes
      → nbytes < 2 ^ 64
      → (payload_iov op buf offset nbytes).len ≡ nbytes - (op.nwritten - preamble_size)
  unfolding payload_iov
  length-payload_iov op buf offset nbytes le small = ground arith

  body_bytes :
      (op : Op) (kind : Opcode)
      → InBuffer memory op kind
      → ((b : Option ℕ) → length (memory b) < 2 ^ 63)
      → op.preamble.nbytes < 2 ^ 64
      → op.nwritten ≤ op.preamble.nbytes
      → (iov_bytes preamble_bytes memory op (body_iov op kind)
          ≡ drop (op.nwritten - preamble_size) (payload memory op kind))
        × (iov_length (body_iov op kind)
            ≡ (op.preamble.nbytes - preamble_size) - (op.nwritten - preamble_size))
  unfolding iov_bytes iov_length
  body_bytes op send_buffer target mem small le =
      let slice =
        slice_rest op op.buf op.preamble.offset op.preamble.length target.0 (mem op.buf)
          (omega arith) in
      let len =
        length-payload_iov op op.buf op.preamble.offset op.preamble.length (omega arith)
          (omega arith) in
      (unfold body_iov in append-nil _ ∙ slice, unfold body_iov in omega (arith, len))
  body_bytes op send_unbound_buffer target mem small le =
      let slice = slice_rest op op.ubuf op.offset op.nbytes target.0 (mem op.ubuf) (omega arith) in
      let len = length-payload_iov op op.ubuf op.offset op.nbytes (omega arith) (omega arith) in
      (unfold body_iov in append-nil _ ∙ slice, unfold body_iov in omega (arith, len))
  body_bytes op notify_send_ready target mem small le = (
    unfold body_iov in sym (drop_all (op.nwritten - preamble_size) [] (omega arith)),
    unfold body_iov in omega arith,
  )
  body_bytes op notify_recv_ready target mem small le = (
    unfold body_iov in sym (drop_all (op.nwritten - preamble_size) [] (omega arith)),
    unfold body_iov in omega arith,
  )

  header_bytes :
      (op : Op) (vs : List Iovec) (rest : List ℕ)
      → length (preamble_bytes op.preamble) ≡ preamble_size
      → iov_bytes preamble_bytes memory op vs ≡ drop (op.nwritten - preamble_size) rest
      → iov_bytes preamble_bytes memory op (preamble_iov op ++ vs)
        ≡ drop op.nwritten (preamble_bytes op.preamble ++ rest)
  unfolding preamble_iov iov_bytes base_bytes
  header_bytes op vs rest struct h =
      let header = preamble_bytes op.preamble in
      elim (Bool-cases (ltb op.nwritten preamble_size)) [
        | inl early ↦
            let none_yet : op.nwritten - preamble_size ≡ 0 = ground arith in
            rw
              (
                early,
                drop-append_le op.nwritten header rest (ground arith),
                take_all (preamble_size - op.nwritten) (drop op.nwritten header)
                    (omega (arith, length-drop op.nwritten header)),
              )
              (ap (λ r. drop op.nwritten header ++ r) (h ∙ rw none_yet))
        | inr past ↦ rw (past, drop-append_ge op.nwritten header rest (ground arith), struct) h
      ]

  length-preamble_iov :
      (op : Op) (vs : List Iovec)
      → iov_length (preamble_iov op ++ vs) ≡ (preamble_size - op.nwritten) + iov_length vs
  unfolding preamble_iov iov_length
  length-preamble_iov op vs = ground arith

  -- The iovecs cover the rest of the message, and their lengths add up to it.
  pub prepare_write-bytes :
      (op : Op)
      → IsSendable op
      → (iov_bytes preamble_bytes memory op (prepare_write op) ≡ drop op.nwritten (message op))
        × (iov_length (prepare_write op) ≡ op.preamble.nbytes - op.nwritten)
  unfolding prepare_write
  prepare_write-bytes op v =
      let kind = op.preamble.opcode in
      let body = body_bytes op kind v.target v.addressable v.small v.written in
      (
        header_bytes op (body_iov op kind) (payload memory op kind) v.struct body.0,
        omega (
          arith,
          length-preamble_iov op (body_iov op kind),
          body.1,
          size_at_least memory op kind v.target,
        ),
      )

  length-payload :
      (op : Op) (kind : Opcode)
      → InBuffer memory op kind
      → preamble_size + length (payload memory op kind) ≤ op.preamble.nbytes
  length-payload op send_buffer h =
      omega (arith, length-take op.preamble.length (drop op.preamble.offset (memory op.buf)))
  length-payload op send_unbound_buffer h =
      omega (arith, length-take op.nbytes (drop op.offset (memory op.ubuf)))
  length-payload op notify_send_ready h = omega arith
  length-payload op notify_recv_ready h = omega arith

  pub length-message : (op : Op) → IsSendable op → length (message op) ≤ op.preamble.nbytes
  length-message op v =
      let kind = op.preamble.opcode in
      omega (
        arith,
        length-append (preamble_bytes op.preamble) (payload memory op kind),
        length-payload op kind v.target,
        v.struct,
      )
