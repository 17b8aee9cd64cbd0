-- ===== src/Tests.antt =====
-- Concrete inputs for agent/internal/model and agent/internal/monitor: two threads and a monitor
-- with a subscriber, a past event and a pending request.
mod Threads
mod Runs
mod Agent
mod Http
mod Sources
use codex_ha_monitor.Prelude.{String, Bool, true, List, [], ◌∷◌, Option, some, none, ℤ, pos}
use codex_ha_monitor.Json.{null, array, from_list}
use codex_ha_monitor.Model.Types.{
  Thread, zero_thread, running, idle, waiting_approval, HostInfo, CodexCliInfo, TaskEvent,
}
use codex_ha_monitor.Monitor.State.{Config, HookObservation, Monitor, Env, PendingControl}
use codex_ha_monitor.Monitor.Connect.{recovered_event}
use codex_ha_monitor.Monitor.Refresh.{new_monitor}

abbrev pub parent : Thread
parent = record zero_thread {
  id = "a";
  state = running;
  state_source = "app_server_event";
  state_confidence = "exact";
  updated_at = 5;
}

abbrev pub child : Thread
child = record zero_thread {
  id = "b";
  parent_thread_id = "a";
  state = waiting_approval;
  state_source = "app_server_event";
  state_confidence = "exact";
  updated_at = 7;
}

-- The session file's view of `child`.
abbrev pub file_child : Thread
file_child = record zero_thread { id = "b"; cwd = "/work"; updated_at = 9 }

abbrev pub threads : List Thread
threads = parent ∷ child ∷ []

abbrev pub cfg : Config
cfg = record {
  agent_version = "0.3";
  installation_id = "home";
  codex_binary = "codex";
  codex_home = "";
  endpoint = "auto";
  poll_interval = pos 0;
  app_server_request_timeout = pos 0;
  app_server_failure_threshold = pos 3;
  usage_history_days = pos 30;
  filesystem_interval = pos 0;
  stale_after = pos 0;
  filesystem_active_window = pos 0;
  hook_running_ttl = pos 0;
  hook_idle_ttl = pos 0;
  hook_attention_ttl = pos 0;
  max_threads = pos 10;
}

abbrev pub host : HostInfo
host = record { name = "box"; os = "linux"; arch = "amd64" }

abbrev pub cli : CodexCliInfo
cli = record { binary = "codex"; raw = "codex 1.0"; version = "1.0"; error_text = "" }

abbrev pub env : Env
env = record {
  order_threads = λ ts. ts;
  order_hooks = λ m. m;
  order_pending = λ m. m;
  order_requests = λ m. m;
  clock = 100;
  digest = λ s. s.generated_at;
}

abbrev pub question : PendingControl
question = record {
  address = 1;
  request = record {
    id = "req-1";
    request_type = "approval";
    method = "item/fileChange/requestApproval";
    thread_id = "b";
    turn_id = "t1";
    item_id = "i";
    summary = "";
    cwd = "/work";
    questions = [];
    available_decisions = "accept" ∷ "decline" ∷ [];
    controllable = true;
    created_at = 8;
  };
  client = 4;
  app_server_id = "17";
}

abbrev pub working : HookObservation
working = record {
  event = record {
    session_id = "a";
    turn_id = "t0";
    transcript_path = "";
    cwd = "/work";
    event_name = "PreToolUse";
    model = "";
    permission_mode = "";
    tool_name = "";
    message = "";
    legacy_event = "";
  };
  state = running;
  received_at = 6;
}

abbrev pub past_event : TaskEvent
past_event = record (recovered_event 6) { sequence = 1; event_id = "1" }

abbrev pub created_monitor : Monitor
created_monitor = new_monitor cfg 5 host cli "go1.24"

abbrev pub busy : Monitor
busy = record {
  cfg = cfg;
  started_at = 5;
  snapshot = created_monitor.snapshot;
  app_threads = threads;
  fs_threads = file_child ∷ [];
  usage = some (("dailyUsageBuckets", array (from_list (null ∷ null ∷ []))) ∷ []);
  rate_limits = none;
  hook_sessions = ("a", working) ∷ [];
  subs = record { number = 9; buffer = [] } ∷ [];
  last_threads = ("a", record parent { state = idle }) ∷ [];
  events_ready = true;
  event_sequence = 1;
  event_history = past_event ∷ [];
  stream_signature = 0;
  stream_ready = true;
  pending_requests = ("req-1", question) ∷ [];
  request_sequence = 1;
  client = some 4;
}
