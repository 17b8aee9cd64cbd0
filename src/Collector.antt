-- ===== src/Collector.antt =====
-- agent/internal/collector/filesystem.go: the threads that Codex's session files tell of.
pub mod Session
pub mod Listing
pub mod Inferred
pub mod Newest
pub mod Fails
