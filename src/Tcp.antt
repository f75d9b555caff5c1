-- ===== src/Tcp.antt =====
-- gloo/transport/tcp: pairs of processes over a socket.
pub mod Op
pub mod RecvAny
pub mod Endpoint
pub mod Protocol
pub mod Write
pub mod Read
pub mod Pair
pub mod UnboundBuffer
pub mod Buffer
