-- ===== src/Tcp/UnboundBuffer/Tests.antt =====
-- A wait that a completion from rank 3 ends, after one of the other kind.
use gloo.Prelude.{List, [], ◌∷◌}
use gloo.Tcp.UnboundBuffer.{Event, received, sent, new_buffer, wait_recv, wait_send}
use gloo.Tcp.UnboundBuffer.Waits.{Receives, Transmits, wait_recv-Receives, wait_send-Transmits}

abbrev history : List Event
history = sent 2 ∷ received 3 ∷ []

wait_recv-Receives_example : Receives (new_buffer 8) history (wait_recv (new_buffer 8) history)
wait_recv-Receives_example = wait_recv-Receives (new_buffer 8) history

wait_send-Transmits_example : Transmits (new_buffer 8) history (wait_send (new_buffer 8) history)
wait_send-Transmits_example = wait_send-Transmits (new_buffer 8) history
