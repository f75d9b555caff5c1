-- ===== src/Tcp/Read/Arrival/Pieces.antt =====
-- The payload arrives in pieces.
use gloo.Prelude.{
  ℕ, ◌+◌, ◌-◌, ◌<◌, ◌≤◌, ◌≡◌, refl, sym, ap, subst, ◌∙◌, List, [], ◌∷◌, ◌++◌, Option, some, arith,
  min, take, drop, length, ◌==◌, Bool, true, false, List-cases, inl, inr, length-append,
  length-take, length-drop, take-append_le, drop-append_le, take-append-drop,
}
use mathlib.Core.List.{append_assoc, append-nil}
use gloo.Tcp.Op.{Preamble, preamble_size, send_unbound_buffer}
use gloo.Tcp.RecvAny.{UnboundBufferOp}
use gloo.Tcp.Read.{
  RecvResult, arrives, eagain, eintr, other_errno, Reader, Prepared, whole, store, prepare_read,
  proceed, receive,
}
use gloo.Tcp.Read.Arrival.{Feeds, arrivals}
use gloo.Tcp.Read.Arrival.Payload.{
  write_memory-write_memory, at_payload, payload_target, Suits, prepare_more, prepare_done,
}

pub Suits-resize :
    {r : Reader} {p : Preamble} {u : UnboundBufferOp} (m n : ℕ)
    → m ≡ n
    → Suits r p u m
    → Suits r p u n
Suits-resize {r} {p} {u} m n e s = subst (Suits r p u) e s

module _ (read_preamble : List ℕ → Preamble) (get_buffer : ℕ → Option ℕ) (size_of : ℕ → ℕ)
    (alive : ℕ → Bool) where
  store_payload :
      (r : Reader) (p : Preamble) (u : UnboundBufferOp) (done piece incoming i : List ℕ) (len : ℕ)
      → u.offset + length done + length piece ≤ length (r.memory u.buf)
      → store read_preamble get_buffer size_of alive
          (record (at_payload r p u done incoming) { incoming = i })
          (payload_target u done len)
          piece
        ≡ at_payload r p u (done ++ piece) i
  unfolding store
  store_payload r p u done piece incoming i len fits =
      let count : preamble_size + length done + length piece
          ≡ preamble_size + length (done ++ piece) =
        omega (arith, length-append done piece) in
      let memory = write_memory-write_memory r.memory u.buf u.offset done piece fits in
      λ k. record r {
        rx = record r.rx {
          preamble = record p { opcode = send_unbound_buffer };
          ubuf = some u.buf;
          offset = u.offset;
          nbytes = u.nbytes;
          nread = count k;
        };
        memory = memory k;
        incoming = i;
      }

  -- One call of recv.
  receive_piece :
      (n : ℕ) (script : List RecvResult) (r : Reader) (p : Preamble) (u : UnboundBufferOp)
      (done todo tail : List ℕ)
      → 0 < n
      → 0 < length todo
      → Suits r p u (length done + length todo)
      → let piece = take (min n (length todo)) todo in
        let rest = drop (min n (length todo)) todo in
        receive read_preamble get_buffer size_of alive
          (arrives n ∷ script)
          (payload_target u done (length todo))
          (at_payload r p u done (todo ++ tail))
        ≡ proceed read_preamble get_buffer size_of alive script
            (receive read_preamble get_buffer size_of alive script)
            (prepare_read read_preamble get_buffer size_of alive
              (at_payload r p u (done ++ piece) (rest ++ tail)))
  unfolding receive
  receive_piece n script r p u done todo tail some_room some_left s =
      let m = min n (length todo) in
      let piece = take m todo in
      let size : length piece ≡ m = omega (arith, length-take m todo) in
      let read = take-append_le m todo tail (omega arith) in
      let nonzero : (length piece == 0) ≡ false = ground (arith, size) in
      let left : drop (length piece) (todo ++ tail) ≡ drop m todo ++ tail =
        ap (λ k. drop k (todo ++ tail)) size ∙ drop-append_le m todo tail (omega arith) in
      rw (read, nonzero, left)
        (ap
          (λ q.
            proceed read_preamble get_buffer size_of alive script
              (receive read_preamble get_buffer size_of alive script)
              (prepare_read read_preamble get_buffer size_of alive q))
          (store_payload r p u done piece (todo ++ tail) (drop m todo ++ tail) (length todo)
            (omega (arith, size, s.in_buffer))))

  -- The rest of the payload arrives, in pieces; then the operation is complete.
  pub receive_payload :
      (script : List RecvResult) (r : Reader) (p : Preamble) (u : UnboundBufferOp)
      (done todo tail : List ℕ)
      → Feeds script
      → length todo ≤ arrivals script
      → 0 < length todo
      → alive u.buf ≡ true
      → Suits r p u (length done + length todo)
      → (s : List RecvResult) × (receive read_preamble get_buffer size_of alive script
            (payload_target u done (length todo))
            (at_payload r p u done (todo ++ tail))
          ≡ proceed read_preamble get_buffer size_of alive s
              (receive read_preamble get_buffer size_of alive s)
              (whole (at_payload r p u (done ++ todo) tail)))
  unfolding receive
  receive_payload [] r p u done todo tail f enough some_left there suits = absurd (omega arith)
  receive_payload (eintr ∷ script) r p u done todo tail f enough some_left there suits =
      receive_payload script r p u done todo tail f enough some_left there suits
  receive_payload (eagain late ∷ script) r p u done todo tail f enough some_left there suits =
      absurd f
  receive_payload (other_errno ∷ script) r p u done todo tail f enough some_left there suits =
      absurd f
  receive_payload (arrives n ∷ script) r p u done todo tail f enough some_left there suits =
      let m = min n (length todo) in
      let piece = take m todo in
      let rest = drop m todo in
      let size : length piece ≡ m = omega (arith, length-take m todo) in
      let left : length rest ≡ length todo - m = length-drop m todo in
      let joined : piece ++ rest ≡ todo = take-append-drop m todo in
      let step = receive_piece n script r p u done todo tail f.0 some_left suits in
      let go_on = λ (q : Prepared).
        proceed read_preamble get_buffer size_of alive script
          (receive read_preamble get_buffer size_of alive script) q in
      elim (List-cases rest) [
        | inl nothing ↦
            let all : piece ≡ todo =
              sym (append-nil piece) ∙ ap (λ l. piece ++ l) (sym nothing) ∙ joined in
            let suits' : Suits r p u (length (done ++ todo)) =
              Suits-resize _ _ (sym (length-append done todo)) suits in
            (
              script,
              step
                  ∙ rw (nothing, all) refl
                  ∙ ap go_on (
                      prepare_done read_preamble get_buffer size_of alive r p u (done ++ todo) tail
                        there suits'),
            )
        | inr (b, bs, more) ↦
            let some_rest : 0 < length rest = omega (arith, ap length more) in
            let total : length done + length todo ≡ length (done ++ piece) + length rest =
              omega (arith, length-append done piece) in
            let suits' : Suits r p u (length (done ++ piece) + length rest) =
              Suits-resize _ _ total suits in
            let (s, same) =
              receive_payload script r p u (done ++ piece) rest tail f.1 (omega (arith, f.0))
                some_rest there suits' in
            let again : (done ++ piece) ++ rest ≡ done ++ todo =
              append_assoc done piece rest ∙ ap (λ l. done ++ l) joined in
            (
              s,
              step
                  ∙ ap go_on (
                      prepare_more read_preamble get_buffer size_of alive r p u (done ++ piece)
                        (rest ++ tail) (length rest) there suits' some_rest)
                  ∙ same
                  ∙ ap
                      (λ l.
                        proceed read_preamble get_buffer size_of alive s
                          (receive read_preamble get_buffer size_of alive s)
                          (whole (at_payload r p u l tail)))
                      again,
            )
      ]
