-- ===== src/Monitor/Refresh.antt =====
-- agent/internal/monitor/monitor.go: `New`, and how the two collectors feed the state
-- (`collectFilesystem`, `refreshAppServer`). What they read is an argument.
pub mod Outcomes
use Prim.Native.String
use codex_ha_monitor.Prelude.{
  ℕ, suc, String, Bool, true, false, List, [], ◌∷◌, ◌++◌, map, any, insert, length, ◌==◌, ◌=?=◌,
  if◌then◌else◌, Option, none, some, ℤ, pos, negsuc, Result, ok, err,
}
use codex_ha_monitor.Text.{format_uint, format_int}
use codex_ha_monitor.Json.{Json, text, JsonMap}
use codex_ha_monitor.Model.Types.{
  Time, Thread, zero_thread, State, unknown, HostInfo, CodexCliInfo, Snapshot,
}
use codex_ha_monitor.Model.Summarize.{no_counts}
use codex_ha_monitor.Monitor.State.{Config, Monitor, Env}
use codex_ha_monitor.Monitor.Usage.{trim_usage_history, usage_history_days}
use codex_ha_monitor.Monitor.Account.{record_account_result, sprint}
use codex_ha_monitor.Monitor.AppServer.{Status, map_app_server_state}
use codex_ha_monitor.Monitor.Rebuild.{schema_version, rebuild}

-- `New`, on the host's and the runtime's data. The digest that a zero array stands for is never
-- read, since `stream_ready` is false.
unfoldable pub new_monitor : Config → Time → HostInfo → CodexCliInfo → String → Monitor
new_monitor cfg now host cli go_version = record {
  cfg = cfg;
  started_at = now;
  snapshot = record {
    schema_version = schema_version;
    generated_at = now;
    stale = false;
    installation_id = cfg.installation_id;
    host = host;
    agent = record { version = cfg.agent_version; go_version = go_version; uptime_seconds = 0 };
    codex_cli = cli;
    app_server = record { user_agent = ""; codex_home = "" };
    hooks = record { received_events = pos 0; active_sessions = 0; last_event_at = none };
    codex = record {
      connection_state = "connecting";
      visibility = "unavailable";
      last_success_at = none;
      last_error = "";
      consecutive_failures = pos 0;
      last_recovery_at = none;
    };
    summary = record {
      workload_state = unknown;
      state_source = "none";
      state_confidence = "unknown";
      known_threads = 0;
      active_threads = 0;
      active_workflows = 0;
      active_workers = 0;
      states = no_counts;
    };
    threads = [];
    pending_requests = [];
    usage = none;
    rate_limits = none;
  };
  app_threads = [];
  fs_threads = [];
  usage = none;
  rate_limits = none;
  hook_sessions = [];
  subs = [];
  last_threads = [];
  events_ready = false;
  event_sequence = 0;
  event_history = [];
  stream_signature = 0;
  stream_ready = false;
  pending_requests = [];
  request_sequence = 0;
  client = none;
}

-- The end of `collectFilesystem`, on what the session files yield.
unfoldable pub collect_filesystem : Env → Time → Option (List Thread) → Monitor → Monitor
collect_filesystem env now none m = m
collect_filesystem env now (some threads) m = rebuild env now (record m { fs_threads = threads })

-- An item of `thread/list`, with its source as a text and its status decoded.
pub record ThreadItem : Type 0 where
  pub id : String
  pub session_id : String
  pub parent_thread_id : String
  pub agent_nickname : String
  pub agent_role : String
  pub name : String
  pub preview : String
  pub cwd : String
  pub source : String
  pub cli_version : String
  pub updated_at : Time
  pub status : Option Status

abbrev pub is_loaded : List String → String → Bool
is_loaded loaded id = any (λ l. l =?= id) loaded

unfoldable pub item_thread : List String → ThreadItem → Thread
item_thread loaded item = record zero_thread {
  id = item.id;
  session_id = item.session_id;
  parent_thread_id = item.parent_thread_id;
  agent_nickname = item.agent_nickname;
  agent_role = item.agent_role;
  name = item.name;
  preview = item.preview;
  cwd = item.cwd;
  source = item.source;
  cli_version = item.cli_version;
  state = (map_app_server_state item.status).0;
  state_source = "app_server_reconcile";
  state_confidence = (map_app_server_state item.status).1;
  loaded = is_loaded loaded item.id;
  controllable = is_loaded loaded item.id;
  updated_at = item.updated_at;
}

-- What an account's reading leaves: `none` where Go panics, which stores into a nil map if the App
-- Server answers `null`.
pub account_reading : Result String JsonMap → Option JsonMap
account_reading (err e) =
    some (some (("availability", text "unavailable") ∷ ("error", text e) ∷ []))
account_reading (ok none) = none
account_reading (ok (some answer)) = some (some (insert "availability" (text "available") answer))

-- The failure of one reading.
unfoldable pub failure : String → Result String JsonMap → List String
failure method (err e) = String.◌++◌ method (String.◌++◌ ": " e) ∷ []
failure method (ok answer) = []

-- What the App Server answers: `loaded` is empty if its own request fails.
pub record Replies : Type 0 where
  pub threads : Result String (List ThreadItem)
  pub loaded : List String
  pub usage : Result String JsonMap
  pub rate_limits : Result String JsonMap

abbrev pub failures_of : Replies → List String
failures_of r =
    failure "account/usage/read" r.usage ++ failure "account/rateLimits/read" r.rate_limits

-- The second section under the lock, before the rebuild.
unfoldable pub store_refresh : Time → List Thread → JsonMap → JsonMap → Bool → Monitor → Monitor
store_refresh now threads usage rate_limits healthy m =
    let codex = m.snapshot.codex in
    record m {
      app_threads = threads;
      usage = trim_usage_history usage (usage_history_days m.cfg);
      rate_limits = rate_limits;
      snapshot = record m.snapshot {
        codex = record codex {
          connection_state = if healthy then "connected" else codex.connection_state;
          last_success_at = some now;
          last_error = if healthy then "" else codex.last_error;
        };
      };
    }

-- `refreshAppServer` returns no error, returns one, or panics.
pub data Refreshed : Type 0 where
  alive : Monitor → Refreshed
  returned : String → Monitor → Refreshed
  panicked : Refreshed

abbrev restart_error : ℤ → List String → String
restart_error count failures =
    String.◌++◌ "account reads failed "
      (String.◌++◌ (format_int count) (String.◌++◌ " consecutive times: " (sprint failures)))

-- The end, which reads the count of failures again.
abbrev pub finished : Bool → List String → Monitor → Refreshed
finished restart failures m =
    if restart
    then returned (restart_error m.snapshot.codex.consecutive_failures failures) m
    else alive m

-- `refreshAppServer` from the account's readings on; `meanwhile` is what others do between its two
-- sections under the lock.
unfoldable pub refresh_with :
    Env → Time → (Monitor → Monitor) → List Thread → Replies → Monitor → Refreshed
refresh_with env now meanwhile threads r m = elim (account_reading r.usage) [
  | none ↦ panicked
  | some usage ↦ elim (account_reading r.rate_limits) [
    | none ↦ panicked
    | some rate_limits ↦
        let failures = failures_of r in
        let (counted, restart) = record_account_result now failures m in
        finished restart failures (
          rebuild env now (
            store_refresh now threads usage rate_limits (length failures == 0) (meanwhile counted)))
  ]
]

-- `refreshAppServer`
unfoldable pub refresh_app_server : Env → Time → (Monitor → Monitor) → Replies → Monitor → Refreshed
refresh_app_server env now meanwhile r m = elim r.threads [
  | err e ↦ returned (String.◌++◌ "thread/list: " e) m
  | ok items ↦ refresh_with env now meanwhile (map (item_thread r.loaded) items) r m
]
