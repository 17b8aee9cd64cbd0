-- ===== src/Monitor/State.antt =====
-- The state of `Monitor` (agent/internal/monitor/monitor.go) with the types of hooks.go, control.go
-- and events.go that it holds.
use codex_ha_monitor.Prelude.{ℕ, String, Bool, List, Option, ℤ, pos_part, if◌then◌else◌, ltb}
use codex_ha_monitor.Json.{JsonMap}
use codex_ha_monitor.Model.Types.{Time, State, Thread, TaskEvent, PendingRequest, Snapshot}

abbrev pub second : ℕ
second = 1_000_000_000

-- A duration is a signed number of nanoseconds.
pub record Config : Type 0 where
  pub agent_version : String
  pub installation_id : String
  pub codex_binary : String
  pub codex_home : String
  pub endpoint : String
  pub poll_interval : ℤ
  pub app_server_request_timeout : ℤ
  pub app_server_failure_threshold : ℤ
  pub usage_history_days : ℤ
  pub filesystem_interval : ℤ
  pub stale_after : ℤ
  pub filesystem_active_window : ℤ
  pub hook_running_ttl : ℤ
  pub hook_idle_ttl : ℤ
  pub hook_attention_ttl : ℤ
  pub max_threads : ℤ

-- `if d > 0 { return d }; return fallback`
abbrev pub positive_or : ℤ → ℕ → ℕ
positive_or d fallback = if ltb 0 (pos_part d) then pos_part d else fallback

pub record HookEvent : Type 0 where
  pub session_id : String
  pub turn_id : String
  pub transcript_path : String
  pub cwd : String
  pub event_name : String
  pub model : String
  pub permission_mode : String
  pub tool_name : String
  pub message : String
  pub legacy_event : String

pub record HookResult : Type 0 where
  pub session_id : String
  pub turn_id : String
  pub event_name : String
  pub state : State
  pub recorded : Bool
  pub received : Time

pub record HookObservation : Type 0 where
  pub event : HookEvent
  pub state : State
  pub received_at : Time

-- `pendingControl`, which the map holds by pointer: `address` stands for the pointer. A client is
-- known by a number, and a JSON-RPC id by its raw text.
pub record PendingControl : Type 0 where
  pub address : ℕ
  pub request : PendingRequest
  pub client : ℕ
  pub app_server_id : String

pub data StreamMessage : Type 0 where
  snapshot_message : Snapshot → StreamMessage
  task_activity : ℕ → TaskEvent → StreamMessage

-- A subscriber's channel, with what it holds, oldest first.
pub record Channel : Type 0 where
  pub number : ℕ
  pub buffer : List StreamMessage

pub record Monitor : Type 0 where
  pub cfg : Config
  pub started_at : Time
  pub snapshot : Snapshot
  pub app_threads : List Thread
  pub fs_threads : List Thread
  pub usage : JsonMap
  pub rate_limits : JsonMap
  pub hook_sessions : List (String × HookObservation)
  pub subs : List Channel
  pub last_threads : List (String × Thread)
  pub events_ready : Bool
  pub event_sequence : ℕ
  pub event_history : List TaskEvent
  pub stream_signature : ℕ
  pub stream_ready : Bool
  pub pending_requests : List (String × PendingControl)
  pub request_sequence : ℕ
  pub client : Option ℕ

-- What one call meets and does not decide: the orders in which Go ranges over the maps, what the
-- clock reads inside the call, and the SHA-256 digest of a snapshot's JSON, as a number.
pub record Env : Type 0 where
  pub order_threads : List Thread → List Thread
  pub order_hooks : List (String × HookObservation) → List (String × HookObservation)
  pub order_pending : List (String × PendingControl) → List (String × PendingControl)
  pub order_requests : List (String × PendingControl) → List (String × PendingControl)
  pub clock : Time
  pub digest : Snapshot → ℕ
