-- ===== src/Lib.antt =====
-- A model of gloo, a library of collective operations over a network, with the theorems that hold
-- of it. It covers the core of the tcp transport, the slot numbers of the collectives, the
-- collectives in which every rank has the same part (the two allgathers, the two all-to-alls, the
-- barrier and the ring of allreduce), broadcast, the packet header and the send buffer of dmludp,
-- and the stores in which processes meet.
--
-- How the parts interact. A collective makes slot numbers (gloo/types.h) for its operations and
-- posts sends and receives of an unbound buffer on the pair of a rank. The pair meets each of them
-- with the peer's: it asks the context (gloo/transport/context.h) through a mutator what the peer
-- has announced, queues the operation, and sends notifications and payloads. These go through the
-- transmit queue of the pair to its socket, and arrivals go to the handlers of the other side.
--
-- Which file models what:
--   Slot        gloo/types.h, gloo/types.cc: `Slot`.
--   Transport   gloo/transport/context.h, context.cc. Transport/Tally has `Tally` and `LazyTally`;
--               a reference to a vector is passed and returned, an iterator is an index.
--               Transport/Mutator has `Context::Mutator`; its destructors are `close`.
--               Transport/Mutator/Ledger is the abstract view: a queue of ranks for each slot.
--   Tcp/Op      gloo/transport/tcp/pair.h: `Op`, and the operations that pair.cc makes.
--   Tcp/RecvAny gloo/transport/tcp/context.cc: receives from any rank.
--   Tcp/Endpoint and Tcp/Protocol
--               gloo/transport/tcp/pair.cc: `send`, `recv` and `tryRecv` of unbound buffers and the
--               handlers of notifications, on one side; then two sides with the streams between
--               them, as a step relation.
--   Tcp/Write   pair.cc: `prepareWrite` and the loop of `write`, over the results of writev.
--   Tcp/Read    pair.cc: `prepareRead`, `read` and `readComplete`, over the results of recv.
--   Tcp/Pair    pair.cc: the states of a pair, exceptions, the transmit queue, `send` in both modes
--               and the handling of a writable socket.
--   Tcp/UnboundBuffer
--               gloo/transport/tcp/unbound_buffer.cc: completions and waits.
--   Tcp/Buffer  gloo/transport/tcp/buffer.cc: what a bound buffer sends; its waits in sync mode.
--   Packet      gloo/packet.h: `Header`, on a little-endian machine.
--   Collective  gloo/allgather.cc, allgatherv.cc, alltoall.cc, alltoallv.cc, barrier.cc: what one
--               rank calls, in order. Collective/Ring has the loop of the two allgathers and the
--               runs of all ranks, where a step is an iteration of one rank, whose calls post its
--               send and its receive, or the arrival of one message in a posted receive; Collective/Exchange the loop of the two all-to-alls; Collective/Layout
--               blocks of different lengths. The bytes of a buffer are a function of the address.
--   Collective/Allreduce
--               gloo/allreduce.cc: the sizes, the offsets and the two loops of `ring`, as the calls
--               of each iteration. Allreduce/Local has what these do to a rank's buffers, read as
--               the element at each address, for any operation on any type of elements;
--               Allreduce/Run the runs of all ranks, in which a message lands where its receive was
--               posted and with the length of its send, and Allreduce/Call `allreduce` and its
--               checks.
--               An iteration is one step: what a rank computes before a wait touches no region
--               that a message lands in.
--   Collective/Broadcast
--               gloo/broadcast.cc, with log2ceil of gloo/math.h: the calls of a rank, and the runs of
--               all ranks, where a step is an iteration. Broadcast/Masks has the masks as
--               arithmetic, Broadcast/Tree who sends to whom.
--   Dmludp/SendBuf
--               gloo/send_buf.h: `SendBuf`; its deque is a list, `pos` an index in it, and a chunk
--               names the caller's bytes by their address.
--   Rendezvous/Store
--               gloo/rendezvous/hash_store.cc and prefix_store.cc.
--   Prelude     shared names, Boolean tests, maps of queues, slices of lists and bit fields.
--
-- How it is modelled. A mutex makes a call atomic, so a call is one function from state to state.
-- Fields of size_t and uint64_t are natural numbers, with the remainder modulo 2 ^ 64 written where
-- the code can wrap. What the operating system does is an argument: `write_loop` takes the list of
-- results of writev, and a wait takes the list of what other threads do until its timeout. These
-- lists are the only bounds: when the results run out, the call has not returned yet, and
-- Tcp/Write/Completion says which lists suffice for the call to return. The memory of the buffers
-- and the bytes of a struct are functions that the definitions take; they do not change while an
-- operation is sent. A weak pointer to an unbound buffer is a name, and `alive` says whether its
-- buffer is there.
--
-- The loop of write in SendBuf has as much fuel as there are bytes, and the loop of barrier one more
-- than there are ranks; both are shown to be enough. That of log2ceil has 32, which are enough for
-- all values that it is called with; it is the loop of gloo/math.h for compilers without a builtin
-- that counts zeros, whose values are the same for the sizes of a context. A wait in a collective is over when its message has landed at
-- the receiver, which is the most that any transport asks for; the run of a broadcast ends before
-- its waits for the sends, which change nothing.
--
-- Not modelled: `setSync` and the synchronous `recv` of a pair, the waits of bound buffers in async
-- mode, devices, sockets and the event loop, the tls, uv and ibverbs transports, the bcube
-- algorithm of allreduce, reduce, gather, gatherv and scatter, the receive buffer, the connection and
-- congestion control of dmludp, the element-wise kernels (an argument of allreduce), and the bindings
-- to CUDA, NCCL and MPI.
pub mod Prelude
pub mod Slot
pub mod Transport
pub mod Tcp
pub mod Packet
pub mod Collective
pub mod Dmludp
pub mod Rendezvous
