-- ===== src/Model/Types.antt =====
-- The types of agent/internal/model/model.go. A time is a number of nanoseconds, and 0 is Go's zero
-- time; a field that Go leaves at its zero value is `""`, `unset`, 0 or `false` here.
use codex_ha_monitor.Prelude.{String, ℕ, Bool, false, List, Option}
use codex_ha_monitor.Prelude.{ℤ, ◌==◌}
use codex_ha_monitor.Json.{Json, JsonMap}

abbrev pub Time : Type 0
Time = ℕ

-- The constants `State…`; `unset` is the empty text of a thread that has no state yet.
pub data State : Type 0 where
  unset running waiting_approval waiting_input idle error unknown : State

-- The text that stands for a state in the API.
unfoldable pub state_text : State → String
state_text unset = ""
state_text running = "RUNNING"
state_text waiting_approval = "WAITING_APPROVAL"
state_text waiting_input = "WAITING_INPUT"
state_text idle = "IDLE"
state_text error = "ERROR"
state_text unknown = "UNKNOWN"

-- A number for each state, to compare two of them by.
abbrev pub state_number : State → ℕ
state_number unset = 0
state_number running = 1
state_number waiting_approval = 2
state_number waiting_input = 3
state_number idle = 4
state_number error = 5
state_number unknown = 6

-- `a == b` on two states.
abbrev pub same_state : State → State → Bool
same_state a b = state_number a == state_number b

pub record Thread : Type 0 where
  pub id : String
  pub session_id : String
  pub turn_id : String
  pub parent_thread_id : String
  pub root_thread_id : String
  pub thread_role : String
  pub agent_nickname : String
  pub agent_role : String
  pub name : String
  pub preview : String
  pub cwd : String
  pub source : String
  pub cli_version : String
  pub state : State
  pub state_source : String
  pub state_confidence : String
  pub loaded : Bool
  pub updated_at : Time
  pub last_turn_status : String
  pub last_hook_event : String
  pub attention_type : String
  pub request_id : String
  pub controllable : Bool

-- `model.Thread{}`
abbrev pub zero_thread : Thread
zero_thread = record {
  id = "";
  session_id = "";
  turn_id = "";
  parent_thread_id = "";
  root_thread_id = "";
  thread_role = "";
  agent_nickname = "";
  agent_role = "";
  name = "";
  preview = "";
  cwd = "";
  source = "";
  cli_version = "";
  state = unset;
  state_source = "";
  state_confidence = "";
  loaded = false;
  updated_at = 0;
  last_turn_status = "";
  last_hook_event = "";
  attention_type = "";
  request_id = "";
  controllable = false;
}

pub record StateCounts : Type 0 where
  pub running_count : ℕ
  pub waiting_approval_count : ℕ
  pub waiting_input_count : ℕ
  pub idle_count : ℕ
  pub error_count : ℕ
  pub unknown_count : ℕ

pub record Summary : Type 0 where
  pub workload_state : State
  pub state_source : String
  pub state_confidence : String
  pub known_threads : ℕ
  pub active_threads : ℕ
  pub active_workflows : ℕ
  pub active_workers : ℕ
  pub states : StateCounts

-- The constants `Event…`.
pub data EventType : Type 0 where
  task_started task_completed approval_required input_required : EventType
  task_failed task_interrupted task_resumed agent_recovered : EventType

pub record TaskEvent : Type 0 where
  pub sequence : ℕ
  pub event_id : String
  pub event_type : EventType
  pub installation_id : String
  pub thread_id : String
  pub turn_id : String
  pub parent_thread_id : String
  pub root_thread_id : String
  pub thread_role : String
  pub agent_nickname : String
  pub task_name : String
  pub from_state : String
  pub to_state : String
  pub state_source : String
  pub state_confidence : String
  pub request_id : String
  pub controllable : Bool
  pub occurred_at : Time

pub record PendingRequest : Type 0 where
  pub id : String
  pub request_type : String
  pub method : String
  pub thread_id : String
  pub turn_id : String
  pub item_id : String
  pub summary : String
  pub cwd : String
  pub questions : List (List (String × Json))
  pub available_decisions : List String
  pub controllable : Bool
  pub created_at : Time

pub record HostInfo : Type 0 where
  pub name : String
  pub os : String
  pub arch : String

pub record AgentInfo : Type 0 where
  pub version : String
  pub go_version : String
  pub uptime_seconds : ℕ

pub record CodexCliInfo : Type 0 where
  pub binary : String
  pub raw : String
  pub version : String
  pub error_text : String

pub record AppServerInfo : Type 0 where
  pub user_agent : String
  pub codex_home : String

pub record HookInfo : Type 0 where
  pub received_events : ℤ
  pub active_sessions : ℕ
  pub last_event_at : Option Time

pub record CodexInfo : Type 0 where
  pub connection_state : String
  pub visibility : String
  pub last_success_at : Option Time
  pub last_error : String
  pub consecutive_failures : ℤ
  pub last_recovery_at : Option Time

pub record Snapshot : Type 0 where
  pub schema_version : String
  pub generated_at : Time
  pub stale : Bool
  pub installation_id : String
  pub host : HostInfo
  pub agent : AgentInfo
  pub codex_cli : CodexCliInfo
  pub app_server : AppServerInfo
  pub hooks : HookInfo
  pub codex : CodexInfo
  pub summary : Summary
  pub threads : List Thread
  pub pending_requests : List PendingRequest
  pub usage : JsonMap
  pub rate_limits : JsonMap
