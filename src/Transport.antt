-- ===== src/Transport.antt =====
-- gloo/transport: what the transports share.
pub mod Tally
pub mod Mutator
