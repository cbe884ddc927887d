-- ===== src/Transport.antt =====
-- desktop/transport: the connections of the desktop client.
pub mod Fragments
