-- ===== src/Tcp/Read/Arrival/Message.antt =====
-- A whole message arrives: the reader does one step of the protocol and is ready for the next.
use gloo.Prelude.{
  ℕ, ◌+◌, ◌≤◌, ◌≡◌, refl, ap, ◌∙◌, List, [], ◌∷◌, ◌++◌, Option, some, arith, take, drop, length,
  ltb, ◌==◌, if◌then◌else◌, Bool, true, false, take-append-drop,
}
use mathlib.Core.Path.{fun_ext}
use mathlib.Core.List.{append_assoc}
use gloo.Tcp.Op.{
  Op, Preamble, preamble_size, send_unbound_buffer, notify_send_ready, notify_recv_ready,
}
use gloo.Tcp.RecvAny.{UnboundBufferOp}
use gloo.Tcp.Endpoint.{
  Endpoint, take_local_recv, handle_remote_pending_send, handle_remote_pending_recv,
}
use gloo.Tcp.Protocol.{Take, told_send, told_recv, payload}
use gloo.Tcp.Read.{
  RecvResult, Reader, ReadRun, complete, Arrived, handled, unbound_received, whole, idle_op,
  overwrite, write_memory, read_complete, prepare_payload, prepare_read, proceed, receive, read,
}
use gloo.Tcp.Read.Arrival.{Feeds, arrivals}
use gloo.Tcp.Read.Arrival.Struct.{at_header, proceed_header, receive_header}
use gloo.Tcp.Read.Arrival.Payload.{at_payload, Suits, prepare_more, prepare_done}
use gloo.Tcp.Read.Arrival.Pieces.{Suits-resize, receive_payload}

-- A reader between two messages.
abbrev pub ready : Reader → List ℕ → Reader
ready r incoming = record r { rx = idle_op; header = []; incoming = incoming }

-- Where a message's payload goes, what it takes for that, and whom the reader tells.
unfoldable pub placed :
    {e e' : Endpoint} {op : Op} {sent : List Op}
    → (ℕ → List ℕ)
    → List ℕ
    → Take e e' op sent
    → ℕ
    → List ℕ
placed memory bytes (told_send kind e) = memory
placed memory bytes (told_recv kind e) = memory
placed memory bytes (payload u kind e none_sent short) =
    write_memory memory (some u.buf) u.offset bytes

unfoldable pub Fits :
    {e e' : Endpoint} {op : Op} {sent : List Op}
    → (ℕ → Bool)
    → Reader
    → List ℕ
    → Take e e' op sent
    → Type 0
Fits alive r bytes (told_send kind e) = bytes ≡ []
Fits alive r bytes (told_recv kind e) = bytes ≡ []
Fits {op = op} alive r bytes (payload u kind e none_sent short) =
    (alive u.buf ≡ true) × Suits r op.preamble u (length bytes)

unfoldable pub told : {e e' : Endpoint} {op : Op} {sent : List Op} → Take e e' op sent → Arrived
told {sent = sent} (told_send kind e) = handled sent
told {sent = sent} (told_recv kind e) = handled sent
told (payload u kind e none_sent short) = unbound_received (some u.buf)

nothing_written :
    (memory : ℕ → List ℕ) (b start : ℕ) → write_memory memory (some b) start [] ≡ memory
unfolding write_memory overwrite
nothing_written memory b start = fun_ext at_name
  where
    whole_of : (m : List ℕ) → take start m ++ drop (start + 0) m ≡ m
    whole_of m = let e : start + 0 ≡ start = omega arith in rw e (take-append-drop start m)

    at_name :
        (name : ℕ)
        → (if b == name then take start (memory b) ++ drop (start + 0) (memory b) else memory name)
          ≡ memory name
    at_name name = ground (arith, whole_of (memory b))

-- The handlers read nothing of a notification but its slot.
handle_send-slot :
    (e : Endpoint) (op op' : Op)
    → op.preamble.slot ≡ op'.preamble.slot
    → handle_remote_pending_send e op ≡ handle_remote_pending_send e op'
unfolding handle_remote_pending_send
handle_send-slot e op op' same =
    ap
      (λ slot.
        handle_remote_pending_send e (record op { preamble = record op.preamble { slot = slot } }))
      same

handle_recv-slot :
    (e : Endpoint) (op op' : Op)
    → op.preamble.slot ≡ op'.preamble.slot
    → handle_remote_pending_recv e op ≡ handle_remote_pending_recv e op'
unfolding handle_remote_pending_recv
handle_recv-slot e op op' same =
    ap
      (λ slot.
        handle_remote_pending_recv e (record op { preamble = record op.preamble { slot = slot } }))
      same

module _ (read_preamble : List ℕ → Preamble) (get_buffer : ℕ → Option ℕ) (size_of : ℕ → ℕ)
    (alive : ℕ → Bool) where
  -- The struct arrives; then the payload is prepared.
  read_struct :
      (script : List RecvResult) (r : Reader) (bytes tail : List ℕ) (p : Preamble) (extra : ℕ)
      → Feeds script
      → preamble_size + extra ≤ arrivals script
      → length bytes ≡ preamble_size
      → read_preamble bytes ≡ p
      → (s : List RecvResult) × (read read_preamble get_buffer size_of alive script
            (ready r (bytes ++ tail))
          ≡ proceed read_preamble get_buffer size_of alive s
              (receive read_preamble get_buffer size_of alive s)
              (prepare_payload read_preamble get_buffer size_of alive p.opcode
                (at_header (record r { rx = idle_op }) bytes p tail)))
        × Feeds s
        × (extra ≤ arrivals s)
  unfolding read prepare_read
  read_struct script r bytes tail p extra f enough size decoded =
      let q : Reader = record r { rx = idle_op } in
      let (s, same, f', enough') =
        receive_header read_preamble get_buffer size_of alive script q [] bytes tail
          idle_op.preamble extra f (omega arith) (omega arith) (omega arith) in
      let late : ltb (length bytes) preamble_size ≡ false = ground arith in
      (
        s,
        proceed_header read_preamble get_buffer size_of alive script
              (receive read_preamble get_buffer size_of alive script) q [] (bytes ++ tail)
              idle_op.preamble (length bytes) (omega arith) (omega arith)
            ∙ same
            ∙ rw (decoded, late) refl,
        f',
        enough',
      )

  -- A whole payload arrives; then the operation is complete.
  read_payload :
      (script : List RecvResult) (r : Reader) (p : Preamble) (u : UnboundBufferOp)
      (bytes tail : List ℕ)
      → Feeds script
      → length bytes ≤ arrivals script
      → alive u.buf ≡ true
      → Suits r p u (length bytes)
      → (s : List RecvResult) × (proceed read_preamble get_buffer size_of alive script
            (receive read_preamble get_buffer size_of alive script)
            (prepare_read read_preamble get_buffer size_of alive
              (at_payload r p u [] (bytes ++ tail)))
          ≡ proceed read_preamble get_buffer size_of alive s
              (receive read_preamble get_buffer size_of alive s)
              (whole (at_payload r p u bytes tail)))
  unfolding proceed
  read_payload script r p u [] tail f enough there suits = (
    script,
    rw (prepare_done read_preamble get_buffer size_of alive r p u [] tail there suits) refl,
  )
  read_payload script r p u (b ∷ bs) tail f enough there suits =
      let suits' : Suits r p u (0 + length (b ∷ bs)) =
        Suits-resize (length (b ∷ bs)) _ (omega arith) suits in
      let (s, same) =
        receive_payload read_preamble get_buffer size_of alive script r p u [] (b ∷ bs) tail f
          enough (omega arith) there suits' in
      (
        s,
        rw
            (prepare_more read_preamble get_buffer size_of alive r p u [] ((b ∷ bs) ++ tail)
              (length (b ∷ bs)) there suits' (omega arith))
            same,
      )

  -- What the reader is once the struct has arrived.
  abbrev after_struct : List RecvResult → Reader → List ℕ → List ℕ → Preamble → ReadRun
  after_struct s r bytes tail p =
      proceed read_preamble get_buffer size_of alive s
        (receive read_preamble get_buffer size_of alive s)
        (prepare_payload read_preamble get_buffer size_of alive p.opcode
          (at_header (record r { rx = idle_op }) bytes p tail))

  abbrev finished : Reader → Endpoint → List ℕ → (ℕ → List ℕ) → Arrived → List RecvResult → ReadRun
  finished r e rest memory a s = record {
    reader = record (ready r rest) { endpoint = e; memory = memory };
    verdict = complete;
    arrived = some a;
    script = s;
  }

  after_send_ready :
      (s : List RecvResult) (r : Reader) (bytes tail : List ℕ) (op : Op) {e : Endpoint}
      {sent : List Op}
      → handle_remote_pending_send r.endpoint op ≡ (e, sent)
      → after_struct s r bytes tail (record op.preamble { opcode = notify_send_ready })
        ≡ finished r e tail r.memory (handled sent) s
  unfolding prepare_payload proceed read_complete
  after_send_ready s r bytes tail op h =
      let rx =
        (at_header (record r { rx = idle_op }) bytes
          (record op.preamble { opcode = notify_send_ready }) tail).rx in
      ap (λ out. finished r out.0 tail r.memory (handled out.1) s)
        (handle_send-slot r.endpoint rx op refl ∙ h)

  after_recv_ready :
      (s : List RecvResult) (r : Reader) (bytes tail : List ℕ) (op : Op) {e : Endpoint}
      {sent : List Op}
      → handle_remote_pending_recv r.endpoint op ≡ some (e, sent)
      → after_struct s r bytes tail (record op.preamble { opcode = notify_recv_ready })
        ≡ finished r e tail r.memory (handled sent) s
  unfolding prepare_payload proceed read_complete
  after_recv_ready s r bytes tail op h =
      let rx =
        (at_header (record r { rx = idle_op }) bytes
          (record op.preamble { opcode = notify_recv_ready }) tail).rx in
      let same = handle_recv-slot r.endpoint rx op refl ∙ h in
      rw (same, proceed, read_complete) refl

  after_payload_struct :
      (s : List RecvResult) (r : Reader) (bytes tail : List ℕ) (p : Preamble) (u : UnboundBufferOp)
      (e : Endpoint)
      → length bytes ≡ preamble_size
      → take_local_recv r.endpoint p.slot ≡ some (u, e)
      → after_struct s r bytes tail (record p { opcode = send_unbound_buffer })
        ≡ proceed read_preamble get_buffer size_of alive s
            (receive read_preamble get_buffer size_of alive s)
            (prepare_read read_preamble get_buffer size_of alive
              (at_payload (record r { rx = idle_op; header = bytes; endpoint = e }) p u [] tail))
  unfolding prepare_payload prepare_read
  after_payload_struct s r bytes tail p u e size h =
      rw (h, prepare_payload, size, nothing_written r.memory u.buf u.offset) refl

  -- A reader between two messages that gets the bytes of a message, in whatever pieces and with
  -- whatever interrupts, reads all of it and nothing of what follows, makes the step of the protocol
  -- that the message is for, puts its payload into the posted receive's part of its buffer, and is
  -- between two messages again.
  pub read-Take :
      (preamble_bytes : Preamble → List ℕ) (script : List RecvResult) (r : Reader) (op : Op)
      (bytes rest : List ℕ) {e : Endpoint} {sent : List Op} (t : Take r.endpoint e op sent)
      → length (preamble_bytes op.preamble) ≡ preamble_size
      → read_preamble (preamble_bytes op.preamble) ≡ op.preamble
      → Fits alive r bytes t
      → Feeds script
      → preamble_size + length bytes ≤ arrivals script
      → (s : List RecvResult) × (read read_preamble get_buffer size_of alive script
            (ready r ((preamble_bytes op.preamble ++ bytes) ++ rest))
          ≡ record {
            reader = record (ready r rest) { endpoint = e; memory = placed r.memory bytes t };
            verdict = complete;
            arrived = some (told t);
            script = s;
          })
  unfolding prepare_payload proceed read_complete placed Fits told
  read-Take preamble_bytes script r op bytes rest {e} {sent} (told_send kind h) struct decoded
        none_left f enough =
      let q = preamble_bytes op.preamble in
      let (s, same, feeds, none_more) =
        read_struct script r q (bytes ++ rest) op.preamble 0 f (omega arith) struct decoded in
      let typed : op.preamble ≡ record op.preamble { opcode = notify_send_ready } =
        λ i. record op.preamble { opcode = kind i } in
      (
        s,
        ap (λ l. read read_preamble get_buffer size_of alive script (ready r l))
              (append_assoc q bytes rest)
            ∙ same
            ∙ ap (after_struct s r q (bytes ++ rest)) typed
            ∙ after_send_ready s r q (bytes ++ rest) op h
            ∙ ap (λ l. finished r e (l ++ rest) r.memory (handled sent) s) none_left,
      )
  read-Take preamble_bytes script r op bytes rest {e} {sent} (told_recv kind h) struct decoded
        none_left f enough =
      let q = preamble_bytes op.preamble in
      let (s, same, feeds, none_more) =
        read_struct script r q (bytes ++ rest) op.preamble 0 f (omega arith) struct decoded in
      let typed : op.preamble ≡ record op.preamble { opcode = notify_recv_ready } =
        λ i. record op.preamble { opcode = kind i } in
      (
        s,
        ap (λ l. read read_preamble get_buffer size_of alive script (ready r l))
              (append_assoc q bytes rest)
            ∙ same
            ∙ ap (after_struct s r q (bytes ++ rest)) typed
            ∙ after_recv_ready s r q (bytes ++ rest) op h
            ∙ ap (λ l. finished r e (l ++ rest) r.memory (handled sent) s) none_left,
      )
  read-Take preamble_bytes script r op bytes rest {e} {sent} (payload u kind h none_sent short)
        struct decoded (there, suits) f enough =
      let q = preamble_bytes op.preamble in
      let (s, same, f', enough') =
        read_struct script r q (bytes ++ rest) op.preamble (length bytes) f enough struct decoded in
      let typed : op.preamble ≡ record op.preamble { opcode = send_unbound_buffer } =
        λ i. record op.preamble { opcode = kind i } in
      let r' : Reader = record r { rx = idle_op; header = q; endpoint = e } in
      let suits' : Suits r' op.preamble u (length bytes) = record {
        length_is = suits.length_is;
        in_receive = suits.in_receive;
        in_buffer = suits.in_buffer;
        addressable = suits.addressable;
      } in
      let (s', done) = read_payload s r' op.preamble u bytes rest f' enough' there suits' in
      (
        s',
        ap (λ l. read read_preamble get_buffer size_of alive script (ready r l))
              (append_assoc q bytes rest)
            ∙ same
            ∙ ap (after_struct s r q (bytes ++ rest)) typed
            ∙ after_payload_struct s r q (bytes ++ rest) op.preamble u e struct h
            ∙ done,
      )
