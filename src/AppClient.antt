-- ===== src/AppClient.antt =====
-- agent/internal/appserver/client.go: the client of the App Server, which speaks JSON-RPC over the
-- pipes of a child process.
pub mod Requests
pub mod Connect
pub mod Replies
pub mod Ended
