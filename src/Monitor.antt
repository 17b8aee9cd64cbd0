-- ===== src/Monitor.antt =====
-- agent/internal/monitor: the state that the agent keeps, and what changes it.
pub mod State
pub mod Upsert
pub mod Hooks
pub mod Requests
pub mod Stream
pub mod Events
pub mod Rebuild
pub mod RecordHook
pub mod Control
pub mod Usage
pub mod Account
pub mod AppServer
pub mod Refresh
pub mod Connect
pub mod Loop
pub mod Steps
