-- ===== src/Tcp/Read/Tests.antt =====
-- The three bytes of a posted send arrive in a posted receive, with an interrupt in between.
use gloo.Prelude.{
  ℕ, ◌≡◌, refl, Bool, true, List, [], ◌∷◌, ◌++◌, Option, none, some, arith, replicate, queue_at,
  has_key, store_queue,
}
use gloo.Tcp.Op.{Preamble, unbound_buffer_op}
use gloo.Tcp.RecvAny.{UnboundBufferOp}
use gloo.Tcp.Write.Tests.{struct_bytes, three_bytes}
use gloo.Tcp.Endpoint.{Endpoint, take_local_recv}
use gloo.Tcp.Protocol.{Take, payload, fresh}
use gloo.Tcp.Read.{RecvResult, arrives, eintr, Reader, complete, idle_op, read}
use gloo.Tcp.Read.Arrival.Message.{ready, placed, Fits, told, read-Take}

abbrev target : UnboundBufferOp
target = record { buf = 2; offset = 1; nbytes = 3 }

abbrev posted : Endpoint
posted = record (fresh 0) { local_pending_recv = (5, target ∷ []) ∷ [] }

abbrev reader : Reader
reader = record {
  endpoint = posted;
  sync = true;
  busy_poll = true;
  rx = idle_op;
  header = [];
  incoming = [];
  memory = λ b. 0 ∷ 0 ∷ 0 ∷ 0 ∷ 0 ∷ [];
}

-- A codec for this operation's struct.
abbrev decode : List ℕ → Preamble
decode bytes = three_bytes.preamble

abbrev no_bound : ℕ → Option ℕ
no_bound slot = none

abbrev no_size : ℕ → ℕ
no_size b = 0

abbrev all_alive : ℕ → Bool
all_alive b = true

abbrev calls : List RecvResult
calls = arrives 20 ∷ eintr ∷ replicate 52 (arrives 3)

taken : Take posted (fresh 0) three_bytes []
unfolding take_local_recv unbound_buffer_op has_key queue_at store_queue
taken = payload target refl refl refl (omega arith)

abbrev sent_bytes : List ℕ
sent_bytes = 20 ∷ 30 ∷ 40 ∷ []

read-Take_example :
    (s : List RecvResult) × (read decode no_bound no_size all_alive calls
        (ready reader ((struct_bytes three_bytes.preamble ++ sent_bytes) ++ 9 ∷ []))
      ≡ record {
        reader = record (ready reader (9 ∷ [])) {
          endpoint = fresh 0;
          memory = placed reader.memory sent_bytes taken;
        };
        verdict = complete;
        arrived = some (told taken);
        script = s;
      })
unfolding Fits taken unbound_buffer_op
read-Take_example =
    read-Take decode no_bound no_size all_alive struct_bytes calls reader three_bytes sent_bytes
      (9 ∷ []) taken refl refl
      (
        refl,
        record {
          length_is = refl;
          in_receive = omega arith;
          in_buffer = omega arith;
          addressable = omega arith;
        },
      )
      (omega arith) (omega arith)
