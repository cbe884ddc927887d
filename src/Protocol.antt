-- ===== src/Protocol.antt =====
-- The message formats that the server and the clients share (pkg/protocol).
pub mod Text
pub mod Stomp
pub mod Summary
