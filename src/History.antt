-- ===== src/History.antt =====
-- desktop/history/history.go: the history of clipboard items and its manager.
pub mod State
pub mod Item
pub mod Manager
pub mod Updates
pub mod Ids
pub mod Order
pub mod Eviction
pub mod Valid
pub mod Adds
pub mod Routes
pub mod Changes
