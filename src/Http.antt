-- ===== src/Http.antt =====
-- agent/internal/httpapi/server.go: the HTTP API of the agent.
pub mod Messages
pub mod Reads
pub mod Actions
pub mod Stream
pub mod Server
pub mod Access
pub mod Answers
pub mod Resume
