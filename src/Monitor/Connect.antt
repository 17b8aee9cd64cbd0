-- ===== src/Monitor/Connect.antt =====
-- agent/internal/monitor/monitor.go: what `runAppServer` does around a connection.
pub mod Recovery
use codex_ha_monitor.Prelude.{ℕ, suc, zero, String, Bool, ◌||◌, ◌=?=◌, if◌then◌else◌, some}
use codex_ha_monitor.Model.Types.{Time, TaskEvent, AppServerInfo, agent_recovered}
use codex_ha_monitor.Monitor.State.{Monitor, Env, second}
use codex_ha_monitor.Monitor.Stream.{emit_task_event}
use codex_ha_monitor.Monitor.Account.{next_backoff, set_connection}
use codex_ha_monitor.Monitor.Rebuild.{rebuild}

-- The states after which a connection counts as a recovery.
abbrev pub is_lost : String → Bool
is_lost connection =
    (connection =?= "recovering") || (connection =?= "disconnected") || (connection =?= "error")

-- `model.TaskEvent{Type: model.EventAgentRecovered, ToState: "connected", OccurredAt: now}`
abbrev pub recovered_event : Time → TaskEvent
recovered_event now = record {
  sequence = 0;
  event_id = "";
  event_type = agent_recovered;
  installation_id = "";
  thread_id = "";
  turn_id = "";
  parent_thread_id = "";
  root_thread_id = "";
  thread_role = "";
  agent_nickname = "";
  task_name = "";
  from_state = "";
  to_state = "connected";
  state_source = "";
  state_confidence = "";
  request_id = "";
  controllable = Bool.false;
  occurred_at = now;
}

-- The state with its client.
unfoldable pub store_client : ℕ → AppServerInfo → Monitor → Monitor
store_client client info m = record m {
  client = some client;
  snapshot = record m.snapshot {
    app_server = info;
    codex = record m.snapshot.codex {
      connection_state = "connected";
      visibility = "agent_owned_with_filesystem_fallback";
      last_error = "";
    };
  };
}

-- The section under the lock after `ConnectStdio`.
unfoldable pub attach_client : Env → Time → ℕ → AppServerInfo → Monitor → Monitor
attach_client env now client info m =
    let attached = store_client client info m in
    rebuild env now (
      if is_lost m.snapshot.codex.connection_state
      then emit_task_event env.clock (recovered_event now) attached
      else attached)

-- A round of `runAppServer` up to its first refresh: `meanwhile` is what other goroutines do while
-- the App Server starts.
pub connect : Env → Env → Time → Time → (Monitor → Monitor) → ℕ → AppServerInfo → Monitor → Monitor
connect env env' before now meanwhile client info m =
    attach_client env' now client info (meanwhile (set_connection env before "connecting" "" m))
