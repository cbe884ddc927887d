-- ===== src/Server.antt =====
-- The server (server/).
pub mod Limits
pub mod BruteForce
pub mod Hub
pub mod Signaling
pub mod Accounts
