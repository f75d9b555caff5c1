-- ===== src/Dmludp/Tests.antt =====
-- The send buffer on small inputs.
use gloo.Prelude.{◌≡◌, refl, true, false, [], ◌∷◌, arith}
use gloo.Dmludp.SendBuf.{SendBuf, Chunk, empty_buf, len, sum_sizes, recv_and_drop}
use gloo.Dmludp.SendBuf.Write.{write}
use gloo.Dmludp.SendBuf.Write.Tiles.{Takes, write-Takes}
use gloo.Dmludp.SendBuf.Acks.{Keyed, unacked, pending, recv_and_drop-unacked}
use gloo.Dmludp.SendBuf.Acks.Tracked.{Tracked, write-Tracked}

-- 3000 bytes at address 5000.
write-Takes_example : Takes empty_buf 5000 3000 3000 (write 5000 0 3000 20000 1350 empty_buf)
unfolding len sum_sizes
write-Takes_example =
    write-Takes 5000 0 3000 20000 1350 empty_buf (omega arith) (omega arith) (omega arith)
      (omega arith) (omega arith) (omega arith)

write-Tracked_example : Tracked (write 5000 0 3000 20000 1350 empty_buf).buffer
unfolding Tracked Keyed
write-Tracked_example = write-Tracked 5000 0 3000 20000 1350 empty_buf (omega arith) tt

-- Two chunks, of which the first is acknowledged.
abbrev first_chunk : Chunk
first_chunk = record { offset = 0; base = 5000; size = 1350 }

abbrev second_chunk : Chunk
second_chunk = record { offset = 1350; base = 6350; size = 100 }

abbrev filled : SendBuf
filled = record empty_buf {
  chunks = first_chunk ∷ second_chunk ∷ [];
  off = 1450;
  length = 1450;
  used_length = 1450;
  offset_recv = (0, false) ∷ (1350, true) ∷ [];
}

recv_and_drop-unacked_example :
    ((recv_and_drop filled).chunks ≡ second_chunk ∷ [])
    × ((recv_and_drop filled).offset_recv ≡ (1350, true) ∷ [])
    × Keyed 0 1450 (recv_and_drop filled).chunks (recv_and_drop filled).offset_recv
unfolding Keyed unacked pending
recv_and_drop-unacked_example =
    recv_and_drop-unacked filled
      (refl, omega arith, omega arith, (refl, omega arith, omega arith, tt))
