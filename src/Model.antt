-- ===== src/Model.antt =====
-- agent/internal/model/model.go: the data that the agent reports, and the summary of its threads.
pub mod Types
pub mod Summarize
pub mod Counts
pub mod Severity
pub mod Workflows
