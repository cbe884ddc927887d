-- ===== src/Files.antt =====
-- desktop/app/file_transfer.go and desktop/app/replay_targets.go: the transfer of files.
pub mod Paths
pub mod Extract
pub mod Transfer
pub mod Receiving
pub mod Sending
pub mod Handlers
pub mod Requesting
pub mod Preparing
pub mod Outgoing
