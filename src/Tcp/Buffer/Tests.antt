-- ===== src/Tcp/Buffer/Tests.antt =====
-- A buffer of four bytes that sends two of them.
use gloo.Prelude.{ℕ, ◌+◌, ◌≤◌, ◌<◌, ◌^◌, ◌≡◌, refl, Option, none, some, length, arith}
use gloo.Tcp.Write.Tests.{buffers, struct_bytes}
use gloo.Tcp.Write.Bytes.{IsSendable}
use gloo.Tcp.Op.{Op}
use gloo.Tcp.Buffer.{Bound, new_bound, send_op}
use gloo.Tcp.Buffer.Sends.{send_op-IsSendable}

abbrev four_bytes : Bound
four_bytes = new_bound 1 5 4

few_bytes : (o : Option ℕ) → length (buffers o) < 2 ^ 63
few_bytes none = omega arith
few_bytes (some b) = omega arith

send_op-IsSendable_example :
    (2 + 1 ≤ 4
      → (r : Bound × Op) × (send_op four_bytes 2 1 0 ≡ some r)
        × IsSendable struct_bytes buffers r.1)
    × (4 < 2 + 1 → send_op four_bytes 2 1 0 ≡ none)
send_op-IsSendable_example =
    send_op-IsSendable struct_bytes buffers four_bytes 2 1 0 (λ p. refl) few_bytes refl
      (omega arith)
