-- ===== src/Tcp/Read.antt =====
-- gloo/transport/tcp/pair.cc: `prepareRead`, and `read` over the results of recv.
-- `read_preamble` reads the struct from its bytes, `get_buffer` is the map of registered buffers and
-- `size_of` their sizes, and `alive` says whether an unbound buffer is still there.
pub mod Arrival
mod Tests
use gloo.Prelude.{
  ℕ, ◌+◌, ◌-◌, ◌%◌, ◌^◌, Bool, true, false, List, [], ◌∷◌, ◌++◌, Option, none, some, u64, ltb, leb,
  ◌==◌, ◌&&◌, not, if◌then◌else◌, take, drop, length, min,
}
use gloo.Tcp.Op.{
  Op, Preamble, Opcode, send_buffer, send_unbound_buffer, notify_send_ready, notify_recv_ready,
  preamble_size, new_op,
}
use gloo.Tcp.Write.{Base, preamble, buffer, Iovec, sub64}
use gloo.Tcp.Endpoint.{
  Endpoint, take_local_recv, handle_remote_pending_send, handle_remote_pending_recv,
}

-- A result of recv: some bytes of at most a count, of which 0 is the end of the stream; or an errno.
-- `eagain` comes with whether the timeout has passed.
pub data RecvResult : Type 0 where
  arrives : ℕ → RecvResult
  eagain : Bool → RecvResult
  eintr other_errno : RecvResult

-- The part of a pair that reads: `rx_`, with the bytes of its struct; what the socket still holds;
-- and the memory of the buffers.
pub record Reader : Type 0 where
  pub endpoint : Endpoint
  pub sync : Bool
  pub busy_poll : Bool
  pub rx : Op
  pub header : List ℕ
  pub incoming : List ℕ
  pub memory : ℕ → List ℕ

-- `Op()`.
abbrev pub idle_op : Op
idle_op = new_op send_buffer 0 0 0

-- What `prepareRead` finds: where to read to; nothing more to read; nowhere to read to yet; or the
-- failure of a GLOO_ENFORCE.
pub data Prepared : Type 0 where
  target : Iovec → Reader → Prepared
  whole : Reader → Prepared
  not_yet : Reader → Prepared
  failed : Reader → Prepared

-- How `read` ends: true, or false with or without an exception; a GLOO_ENFORCE fails; or the call
-- of recv has not returned yet.
pub data Verdict : Type 0 where
  complete nothing read_timeout read_error closed_by_peer enforce_failed waiting : Verdict

-- What `readComplete` does: a bound or unbound buffer is told, or a notification is handled, which
-- sends some operations.
pub data Arrived : Type 0 where
  bound_received unbound_received : Option ℕ → Arrived
  handled : List Op → Arrived

pub record ReadRun : Type 0 where
  pub reader : Reader
  pub verdict : Verdict
  pub arrived : Option Arrived
  pub script : List RecvResult

-- The return value of `prepareRead`, an ssize_t.
unfoldable pub sized : Iovec → Reader → Prepared
sized v r = if v.len == 0 then whole r else if leb (2 ^ 63) v.len then not_yet r else target v r

-- A write of bytes into the memory of a buffer.
unfoldable pub overwrite : List ℕ → ℕ → List ℕ → List ℕ
overwrite m start bytes = take start m ++ (bytes ++ drop (start + length bytes) m)

unfoldable pub write_memory : (ℕ → List ℕ) → Option ℕ → ℕ → List ℕ → ℕ → List ℕ
unfolding overwrite
write_memory memory none start bytes name = memory name
write_memory memory (some b) start bytes name =
    if b == name then overwrite (memory b) start bytes else memory name

module _ (read_preamble : List ℕ → Preamble) (get_buffer : ℕ → Option ℕ) (size_of : ℕ → ℕ)
    (alive : ℕ → Bool) where
  unfoldable pub prepare_bound : Reader → ℕ → Prepared
  unfolding sized
  prepare_bound r b =
      let offset = r.rx.nread - preamble_size in
      let v : Iovec = record {
        base = buffer (some b);
        start = u64 (offset + r.rx.preamble.roffset);
        len = sub64 r.rx.preamble.length offset;
      } in
      if leb (u64 (r.rx.preamble.roffset + r.rx.preamble.length)) (size_of b)
      then sized v r
      else failed r

  unfoldable pub prepare_unbound : Reader → ℕ → Prepared
  unfolding sized
  prepare_unbound r b =
      let offset = r.rx.nread - preamble_size in
      let v : Iovec = record {
        base = buffer (some b);
        start = u64 (r.rx.offset + offset);
        len = sub64 r.rx.preamble.length offset;
      } in
      if not (alive b)
      then not_yet r
      else if leb r.rx.preamble.length r.rx.nbytes
      then sized v r
      else failed r

  -- The payload in `prepareRead`, by opcode.
  unfoldable pub prepare_payload : Opcode → Reader → Prepared
  unfolding prepare_bound prepare_unbound
  prepare_payload send_buffer r = elim r.rx.buf [
    | some b ↦ prepare_bound r b
    | none ↦ elim (get_buffer r.rx.preamble.slot) [
      | none ↦ not_yet r
      | some b ↦ prepare_bound (record r { rx = record r.rx { buf = some b } }) b
    ]
  ]
  prepare_payload send_unbound_buffer r = elim r.rx.ubuf [
    | some b ↦ prepare_unbound r b
    | none ↦ elim (take_local_recv r.endpoint r.rx.preamble.slot) [
      | none ↦ failed r
      | some (u, e) ↦
          prepare_unbound
            (record r {
              endpoint = e;
              rx = record r.rx { ubuf = some u.buf; offset = u.offset; nbytes = u.nbytes };
            })
            u.buf
    ]
  ]
  prepare_payload notify_send_ready r = whole r
  prepare_payload notify_recv_ready r = whole r

  -- `Pair::prepareRead`.
  unfoldable pub prepare_read : Reader → Prepared
  unfolding prepare_payload
  prepare_read r =
      if ltb r.rx.nread preamble_size
      then target (record { base = preamble; start = r.rx.nread; len = preamble_size - r.rx.nread })
          r
      else prepare_payload r.rx.preamble.opcode r

  -- What recv stores, and the count of the bytes that are read.
  unfoldable pub store : Reader → Iovec → List ℕ → Reader
  unfolding write_memory
  store r v bytes = elim v.base [
    | preamble ↦
        let header = take v.start r.header ++ bytes in
        record r {
          header = header;
          rx = record r.rx { preamble = read_preamble header; nread = r.rx.nread + length bytes };
        }
    | buffer b ↦ record r {
      memory = write_memory r.memory b v.start bytes;
      rx = record r.rx { nread = r.rx.nread + length bytes };
    }
  ]

  -- `Pair::readComplete`; `none` is the failure of a GLOO_ENFORCE in a handler.
  unfoldable pub read_complete : Opcode → Reader → Option (Arrived × Reader)
  read_complete send_buffer r =
      some (bound_received r.rx.buf, record r { rx = idle_op; header = [] })
  read_complete send_unbound_buffer r =
      some (unbound_received r.rx.ubuf, record r { rx = idle_op; header = [] })
  read_complete notify_send_ready r =
      let (e, sent) = handle_remote_pending_send r.endpoint r.rx in
      some (handled sent, record r { endpoint = e; rx = idle_op; header = [] })
  read_complete notify_recv_ready r = elim (handle_remote_pending_recv r.endpoint r.rx) [
    | none ↦ none
    | some (e, sent) ↦ some (handled sent, record r { endpoint = e; rx = idle_op; header = [] })
  ]

  abbrev pub ended : Verdict → Reader → List RecvResult → ReadRun
  ended verdict r script = record { reader = r; verdict = verdict; arrived = none; script = script }

  -- The loop of `read` after a call of `prepareRead`; the calls of recv are the argument.
  unfoldable pub proceed : List RecvResult → (Iovec → Reader → ReadRun) → Prepared → ReadRun
  unfolding read_complete
  proceed script receive (target v r) = receive v r
  proceed script receive (whole r) = elim (read_complete r.rx.preamble.opcode r) [
    | none ↦ ended Verdict.enforce_failed r script
    | some (a, r') ↦ record {
      reader = r';
      verdict = Verdict.complete;
      arrived = some a;
      script = script;
    }
  ]
  proceed script receive (not_yet r) = ended Verdict.nothing r script
  proceed script receive (failed r) = ended Verdict.enforce_failed r script

  -- The loop of `read` from a call of recv on.
  unfoldable pub receive : List RecvResult → Iovec → Reader → ReadRun
  unfolding proceed prepare_read store
  receive [] v r = ended Verdict.waiting r []
  receive (arrives n ∷ script) v r =
      let bytes = take (min n v.len) r.incoming in
      let r' = store (record r { incoming = drop (length bytes) r.incoming }) v bytes in
      let again = proceed script (λ v' q. receive script v' q) (prepare_read r') in
      if length bytes == 0 then ended Verdict.closed_by_peer r script else again
  receive (eagain late ∷ script) v r =
      let again = receive script v r in
      if r.sync
      then (if r.busy_poll && not late then again else ended Verdict.read_timeout r script)
      else ended Verdict.nothing r script
  receive (eintr ∷ script) v r = receive script v r
  receive (other_errno ∷ script) v r = ended Verdict.read_error r script

  -- `Pair::read` on a pair that is not closed.
  unfoldable pub read : List RecvResult → Reader → ReadRun
  unfolding receive
  read script r = proceed script (λ v q. receive script v q) (prepare_read r)
