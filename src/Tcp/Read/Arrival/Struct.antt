-- ===== src/Tcp/Read/Arrival/Struct.antt =====
-- The bytes of the struct arrive.
use gloo.Prelude.{
  ℕ, ◌+◌, ◌-◌, ◌<◌, ◌≤◌, ◌≡◌, refl, sym, ap, ◌∙◌, List, [], ◌∷◌, ◌++◌, Option, arith, min, take,
  drop, length, ltb, ◌==◌, Bool, true, false, List-cases, inl, inr, length-append, length-take,
  length-drop, take_all, take-append_le, drop-append_le, take-append-drop,
}
use mathlib.Core.List.{append_assoc, append-nil}
use gloo.Tcp.Op.{Preamble, preamble_size}
use gloo.Tcp.Write.{Iovec, Base}
use gloo.Tcp.Read.{
  RecvResult, arrives, eagain, eintr, other_errno, Reader, ReadRun, store, prepare_read, proceed,
  receive,
}
use gloo.Tcp.Read.Arrival.{Feeds, arrivals}

-- A reader with some bytes of the struct.
abbrev pub at_header : Reader → List ℕ → Preamble → List ℕ → Reader
at_header r done p incoming = record r {
  rx = record r.rx { preamble = p; nread = length done };
  header = done;
  incoming = incoming;
}

abbrev pub header_target : List ℕ → ℕ → Iovec
header_target done len = record { base = Base.preamble; start = length done; len = len }

module _ (read_preamble : List ℕ → Preamble) (get_buffer : ℕ → Option ℕ) (size_of : ℕ → ℕ)
    (alive : ℕ → Bool) where
  store_header :
      (r : Reader) (done bytes incoming i : List ℕ) (p : Preamble) (len : ℕ)
      → store read_preamble get_buffer size_of alive
          (record (at_header r done p incoming) { incoming = i })
          (header_target done len)
          bytes
        ≡ at_header r (done ++ bytes) (read_preamble (done ++ bytes)) i
  unfolding store
  store_header r done bytes incoming i p len =
      rw (take_all (length done) done (omega arith), length-append done bytes) refl

  -- One call of recv.
  receive_piece :
      (n : ℕ) (script : List RecvResult) (r : Reader) (done todo tail : List ℕ) (p : Preamble)
      → 0 < n
      → 0 < length todo
      → let piece = take (min n (length todo)) todo in
        let rest = drop (min n (length todo)) todo in
        receive read_preamble get_buffer size_of alive
          (arrives n ∷ script)
          (header_target done (length todo))
          (at_header r done p (todo ++ tail))
        ≡ proceed read_preamble get_buffer size_of alive script
            (receive read_preamble get_buffer size_of alive script)
            (prepare_read read_preamble get_buffer size_of alive
              (at_header r (done ++ piece) (read_preamble (done ++ piece)) (rest ++ tail)))
  unfolding receive
  receive_piece n script r done todo tail p some_room some_left =
      let m = min n (length todo) in
      let piece = take m todo in
      let size : length piece ≡ m = omega (arith, length-take m todo) in
      let read = take-append_le m todo tail (omega arith) in
      let nonzero : (length piece == 0) ≡ false = ground (arith, size) in
      let left : drop (length piece) (todo ++ tail) ≡ drop m todo ++ tail =
        ap (λ k. drop k (todo ++ tail)) size ∙ drop-append_le m todo tail (omega arith) in
      rw (read, nonzero, left)
        (ap
          (λ q.
            proceed read_preamble get_buffer size_of alive script
              (receive read_preamble get_buffer size_of alive script)
              (prepare_read read_preamble get_buffer size_of alive q))
          (store_header r done piece (todo ++ tail) (drop m todo ++ tail) p (length todo)))

  -- While bytes of the struct are missing, the loop calls recv for them.
  pub proceed_header :
      (script : List RecvResult) (recv : Iovec → Reader → ReadRun) (r : Reader) (done i : List ℕ)
      (p : Preamble) (len : ℕ)
      → length done + len ≡ preamble_size
      → 0 < len
      → proceed read_preamble get_buffer size_of alive script recv
          (prepare_read read_preamble get_buffer size_of alive (at_header r done p i))
        ≡ recv (header_target done len) (at_header r done p i)
  unfolding proceed prepare_read
  proceed_header script recv r done i p len total some_left =
      let early : ltb (length done) preamble_size ≡ true = ground (arith, total) in
      let left : preamble_size - length done ≡ len = omega arith in rw (early, left) refl

  -- The rest of the struct arrives, in pieces; then the payload is prepared.
  pub receive_header :
      (script : List RecvResult) (r : Reader) (done todo tail : List ℕ) (p : Preamble) (extra : ℕ)
      → Feeds script
      → length todo + extra ≤ arrivals script
      → 0 < length todo
      → length done + length todo ≡ preamble_size
      → (s : List RecvResult) × (receive read_preamble get_buffer size_of alive script
            (header_target done (length todo))
            (at_header r done p (todo ++ tail))
          ≡ proceed read_preamble get_buffer size_of alive s
              (receive read_preamble get_buffer size_of alive s)
              (prepare_read read_preamble get_buffer size_of alive
                (at_header r (done ++ todo) (read_preamble (done ++ todo)) tail)))
        × Feeds s
        × (extra ≤ arrivals s)
  unfolding receive
  receive_header [] r done todo tail p extra f enough some_left total = absurd (omega arith)
  receive_header (eintr ∷ script) r done todo tail p extra f enough some_left total =
      receive_header script r done todo tail p extra f enough some_left total
  receive_header (eagain late ∷ script) r done todo tail p extra f enough some_left total = absurd f
  receive_header (other_errno ∷ script) r done todo tail p extra f enough some_left total = absurd f
  receive_header (arrives n ∷ script) r done todo tail p extra f enough some_left total =
      let m = min n (length todo) in
      let piece = take m todo in
      let rest = drop m todo in
      let size : length piece ≡ m = omega (arith, length-take m todo) in
      let left : length rest ≡ length todo - m = length-drop m todo in
      let joined : piece ++ rest ≡ todo = take-append-drop m todo in
      let step = receive_piece n script r done todo tail p f.0 some_left in
      elim (List-cases rest) [
        | inl nothing ↦
            let all : piece ≡ todo =
              sym (append-nil piece) ∙ ap (λ l. piece ++ l) (sym nothing) ∙ joined in
            (script, step ∙ rw (nothing, all) refl, f.1, omega arith)
        | inr (b, bs, more) ↦
            let some_rest : 0 < length rest = omega (arith, ap length more) in
            let again : length (done ++ piece) + length rest ≡ preamble_size =
              omega (arith, length-append done piece) in
            let (s, same, f', enough') =
              receive_header script r (done ++ piece) rest tail (read_preamble (done ++ piece))
                extra f.1 (omega (arith, f.0)) some_rest again in
            let whole : (done ++ piece) ++ rest ≡ done ++ todo =
              append_assoc done piece rest ∙ ap (λ l. done ++ l) joined in
            (
              s,
              step
                  ∙ proceed_header script (receive read_preamble get_buffer size_of alive script) r
                      (done ++ piece) (rest ++ tail) (read_preamble (done ++ piece)) (length rest)
                      again some_rest
                  ∙ same
                  ∙ ap
                      (λ l.
                        proceed read_preamble get_buffer size_of alive s
                          (receive read_preamble get_buffer size_of alive s)
                          (prepare_read read_preamble get_buffer size_of alive
                            (at_header r l (read_preamble l) tail)))
                      whole,
              f',
              enough',
            )
      ]
