-- ===== src/Monitor/Rebuild.antt =====
-- agent/internal/monitor/monitor.go: `rebuildLocked`, which every change of the state ends with, and
-- `isStaleLocked`.
pub mod Keeps
pub mod Reported
use codex_ha_monitor.Prelude.{
  ℕ, ◌+◌, ◌-◌, ◌/◌, String, Bool, true, false, ◌&&◌, not, List, [], ◌∷◌, length, ltb, leb, ◌=?=◌,
  if◌then◌else◌, pos_part, neg_part, ℤ,
}
use codex_ha_monitor.Model.Types.{Time, Thread, Snapshot}
use codex_ha_monitor.Model.Summarize.{summarize}
use codex_ha_monitor.Hierarchy.{assign_thread_hierarchy}
use codex_ha_monitor.Merge.{merge_threads}
use codex_ha_monitor.Monitor.State.{Monitor, Env, second}
use codex_ha_monitor.Monitor.Hooks.{apply_hooks}
use codex_ha_monitor.Monitor.Requests.{decorate_pending_requests, pending_request_snapshot}
use codex_ha_monitor.Monitor.Stream.{broadcast_snapshot}
use codex_ha_monitor.Monitor.Events.{emit_transition_events}

abbrev pub schema_version : String
schema_version = "1.1"

abbrev fresh_enough : ℤ → Time → List Thread → Bool
fresh_enough stale_after now [] = false
fresh_enough stale_after now (t ∷ _) =
    leb (now + neg_part stale_after) (t.updated_at + pos_part stale_after)

-- `isStaleLocked`, from the connection's state and the session files' threads: the first of them is
-- the newest. `now.Sub(t) <= d` is written without its subtraction.
unfoldable pub is_stale : String → ℤ → Time → List Thread → Bool
is_stale connection stale_after now fs =
    if connection =?= "connected" then false else not (fresh_enough stale_after now fs)

-- The visibility, where session files are the only source so far.
abbrev pub first_visibility : Snapshot → List Thread → String
first_visibility s fs =
    if (s.codex.visibility =?= "unavailable") && ltb 0 (length fs)
    then "filesystem_fallback"
    else s.codex.visibility

abbrev pub is_shared : String → Bool
is_shared visibility = visibility =?= "shared_app_server"

-- The visibility beside a connection that the agent owns.
abbrev pub last_visibility : Snapshot → List Thread → String
last_visibility s fs =
    let visibility = first_visibility s fs in
    if (s.codex.connection_state =?= "connected") && ltb 0 (length fs) && not (is_shared visibility)
    then "agent_owned_with_filesystem_fallback"
    else visibility

-- The snapshot's fields that a rebuild sets. The clock is read again for the uptime.
unfoldable pub refresh_snapshot : Env → Time → List Thread → Monitor → Monitor
refresh_snapshot env now merged m = record m {
  snapshot = record m.snapshot {
    schema_version = schema_version;
    generated_at = now;
    agent = record m.snapshot.agent { uptime_seconds = (env.clock - m.started_at) / second };
    codex = record m.snapshot.codex { visibility = last_visibility m.snapshot m.fs_threads };
    threads = merged;
    summary = summarize merged (is_shared (first_visibility m.snapshot m.fs_threads));
    pending_requests = pending_request_snapshot env m;
    usage = m.usage;
    rate_limits = m.rate_limits;
    stale = is_stale m.snapshot.codex.connection_state m.cfg.stale_after now m.fs_threads;
  };
}

-- The threads of a rebuild: both sources, the hooks, the hierarchy, the pending requests, and the
-- hierarchy again for the threads that only a request has named.
unfoldable pub rebuild_threads : Env → Time → Monitor → List Thread × Monitor
rebuild_threads env now m =
    let (hooked, m') =
      apply_hooks env (merge_threads env.order_threads m.app_threads m.fs_threads) now m in
    (
      assign_thread_hierarchy (decorate_pending_requests env (assign_thread_hierarchy hooked) m'),
      m',
    )

unfoldable pub rebuild : Env → Time → Monitor → Monitor
rebuild env now m =
    let (merged, m') = rebuild_threads env now m in
    broadcast_snapshot env
      (emit_transition_events merged env.clock now (refresh_snapshot env now merged m'))
