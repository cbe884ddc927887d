-- ===== src/Clipboard.antt =====
-- desktop/clipboard/monitor.go: the watch over the system clipboard and the writes to it. Every
-- section under the manager's lock is one step, and a method is its sections one after the other;
-- the time of a method is an argument, and so are the results of the platform's calls.
pub mod Capture
pub mod Changes
pub mod Writes
pub mod Watch
pub mod Echo
pub mod Selection
pub mod Contents
pub mod Reports
