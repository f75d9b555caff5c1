-- ===== src/Tcp/Pair/Tests.antt =====
-- A connected pair, its queue empty or holding the rest of an operation.
use gloo.Prelude.{ℕ, ◌≡◌, refl, List, [], ◌∷◌, ◌++◌, Option, some, Bool, true, false}
use gloo.Tcp.Write.{wrote, eagain}
use gloo.Tcp.Write.Tests.{struct_bytes, buffers, three_bytes, three_bytes-IsSendable}
use gloo.Tcp.Pair.{
  connecting, connected, closed, application, Pair, ok, new_pair, connect, close, connect_callback,
  signal_exception_external, send, send_async_mode, handle_writable,
}
use gloo.Tcp.Pair.States.{
  shape, is_none, IsConsistent, Advances, life-Advances, late_connection_reopens,
}
use gloo.Tcp.Pair.Writes.{send-Advances}
use gloo.Tcp.Pair.Transmit.{
  Holds, backlog, remaining, AllSendable, send_async_mode-Holds, handle_writable-Holds,
}

abbrev opening : Pair
opening = record (new_pair []) { state = connecting }

abbrev idle : Pair
idle = record (new_pair (wrote 20 ∷ eagain ∷ [])) {
  state = connected;
  fd_open = true;
  reads = true;
}

abbrev busy : Pair
busy = record idle { writes = true; tx = three_bytes ∷ three_bytes ∷ [] }

abbrev alive : Option ℕ → Bool
alive b = true

life-Advances_example :
    Advances opening.state (connect opening)
    × (IsConsistent (close opening) × ((close opening).state ≡ closed))
    × Advances opening.state (signal_exception_external opening application)
    × (opening.state ≡ connecting
        → Advances opening.state (connect_callback opening true)
          × Advances opening.state (connect_callback opening false))
unfolding shape is_none
life-Advances_example = life-Advances opening application refl

late_connection_reopens_example :
    (q : Pair) × (r : Pair) × (signal_exception_external opening application ≡ ok tt q)
    × (q.state ≡ closed)
    × (connect_callback q false ≡ ok tt r)
    × (r.state ≡ connected)
    × (r.ex ≡ some application)
late_connection_reopens_example = late_connection_reopens opening application refl refl

send-Advances_example : Advances idle.state (send struct_bytes buffers alive idle three_bytes)
unfolding shape is_none
send-Advances_example = send-Advances struct_bytes buffers alive idle three_bytes refl

abbrev rest_of_it : List ℕ
rest_of_it = remaining struct_bytes buffers alive three_bytes

send_async_mode-Holds_example :
    Holds struct_bytes buffers alive
      (idle.wire ++ (backlog struct_bytes buffers alive idle.tx ++ rest_of_it))
      (send_async_mode struct_bytes buffers alive idle three_bytes)
unfolding AllSendable
send_async_mode-Holds_example =
    send_async_mode-Holds struct_bytes buffers alive idle three_bytes tt three_bytes-IsSendable

handle_writable-Holds_example :
    Holds struct_bytes buffers alive
      (busy.wire ++ backlog struct_bytes buffers alive busy.tx)
      (handle_writable struct_bytes buffers alive busy)
unfolding AllSendable
handle_writable-Holds_example =
    handle_writable-Holds struct_bytes buffers alive busy
      (three_bytes-IsSendable, (three_bytes-IsSendable, tt))
