-- ===== src/Rendezvous.antt =====
-- gloo/rendezvous: the stores in which processes meet.
pub mod Store
