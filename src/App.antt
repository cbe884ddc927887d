-- ===== src/App.antt =====
-- desktop/app: what the desktop client does with what it receives, on the history's manager.
pub mod Shared
pub mod Receive
pub mod Received
pub mod Latest
