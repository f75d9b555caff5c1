-- ===== src/Dmludp.antt =====
-- The dmludp protocol (gloo/connection.h and the headers it uses).
pub mod SendBuf
mod Tests
