-- ===== src/Monitor/Hooks.antt =====
-- agent/internal/monitor/hooks.go: `mapHookEvent`, `hookTTL` and `applyHooksLocked`.
pub mod Observed
use codex_ha_monitor.Prelude.{
  ℕ, suc, ◌*◌, ◌-◌, String, Bool, true, false, ◌||◌, List, [], ◌∷◌, delete, leb, ltb, ◌=?=◌,
  if◌then◌else◌,
}
use codex_ha_monitor.Text.{lower_contains}
use codex_ha_monitor.Model.Types.{
  State, unset, running, waiting_approval, waiting_input, idle, error, unknown, Thread, zero_thread,
  Time,
}
use codex_ha_monitor.Merge.{sort_threads}
use codex_ha_monitor.Monitor.State.{
  Config, HookEvent, HookObservation, Monitor, Env, second, positive_or,
}
use codex_ha_monitor.Monitor.Upsert.{Index, index_threads, upsert}

-- A `Notification` asks for approval if it says so.
pub map_notification : String → State
unfolding lower_contains
map_notification message =
    if lower_contains message "permission"
      || lower_contains message "approve"
      || lower_contains message "approval"
    then waiting_approval
    else waiting_input

abbrev is_idle_event : String → Bool
is_idle_event name = name =?= "Stop" || name =?= "SessionEnd" || name =?= "SessionStart"

abbrev is_work_event : String → Bool
is_work_event name =
    name =?= "UserPromptSubmit"
    || name =?= "PreToolUse"
    || name =?= "PostToolUse"
    || name =?= "PreCompact"
    || name =?= "PostCompact"
    || name =?= "SubagentStart"
    || name =?= "SubagentStop"
    || name =?= "WorktreeCreate"

-- The state that an event stands for, and whether it is recorded.
unfoldable pub map_hook_event : HookEvent → State × Bool
unfolding map_notification
map_hook_event event =
    if event.event_name =?= "PermissionRequest"
    then (waiting_approval, true)
    else if event.event_name =?= "Elicitation"
    then (waiting_input, true)
    else if event.event_name =?= "Notification"
    then (map_notification event.message, true)
    else if is_idle_event event.event_name
    then (idle, true)
    else if is_work_event event.event_name
    then (running, true)
    else (unknown, false)

-- How long an observation counts.
pub hook_ttl : Config → State → ℕ
hook_ttl cfg idle = positive_or cfg.hook_idle_ttl (60 * second)
hook_ttl cfg waiting_approval = positive_or cfg.hook_attention_ttl (300 * second)
hook_ttl cfg waiting_input = positive_or cfg.hook_attention_ttl (300 * second)
hook_ttl cfg unset = positive_or cfg.hook_running_ttl (600 * second)
hook_ttl cfg running = positive_or cfg.hook_running_ttl (600 * second)
hook_ttl cfg error = positive_or cfg.hook_running_ttl (600 * second)
hook_ttl cfg unknown = positive_or cfg.hook_running_ttl (600 * second)

-- `now.Sub(observation.receivedAt) >= m.hookTTL(observation.state)`. The time to live is positive,
-- so that a time of receipt after `now` does not pass this test either way.
unfoldable pub has_expired : Config → Time → HookObservation → Bool
unfolding hook_ttl
has_expired cfg now o = leb (hook_ttl cfg o.state) (now - o.received_at)

-- What a live observation sets on its thread.
unfoldable pub observe : HookObservation → Thread → Thread
observe o thread = record thread {
  turn_id = o.event.turn_id;
  cwd = if thread.cwd =?= "" then o.event.cwd else thread.cwd;
  state = o.state;
  state_source = "codex_hook";
  state_confidence = "event_derived";
  last_hook_event = o.event.event_name;
  updated_at = if ltb thread.updated_at o.received_at then o.received_at else thread.updated_at;
}

abbrev pub hook_thread : String → HookObservation → Thread
hook_thread session_id o = record zero_thread {
  id = session_id;
  cwd = o.event.cwd;
  source = "codex_hook";
}

-- The variables of the loop over `m.hookSessions`.
pub record HookPass : Type 0 where
  pub index : Index
  pub sessions : List (String × HookObservation)
  pub active : ℕ

unfoldable pub hook_round : Config → Time → HookPass → String → HookObservation → HookPass
hook_round cfg now p session_id o =
    if has_expired cfg now o
    then record p { sessions = delete session_id p.sessions }
    else record p {
      active = suc p.active;
      index = upsert session_id (hook_thread session_id o) (observe o) p.index;
    }

unfoldable pub hook_rounds : Config → Time → HookPass → List (String × HookObservation) → HookPass
hook_rounds cfg now p [] = p
hook_rounds cfg now p ((session_id, o) ∷ rest) =
    hook_rounds cfg now (hook_round cfg now p session_id o) rest

-- `applyHooksLocked`: the threads under the live observations, newest first; the expired ones are
-- forgotten and the others counted.
unfoldable pub apply_hooks : Env → List Thread → Time → Monitor → List Thread × Monitor
apply_hooks env threads now m =
    let start : HookPass = record {
      index = index_threads threads;
      sessions = m.hook_sessions;
      active = 0;
    } in
    let p = hook_rounds m.cfg now start (env.order_hooks m.hook_sessions) in
    (
      sort_threads p.index.threads,
      record m {
        hook_sessions = p.sessions;
        snapshot = record m.snapshot {
          hooks = record m.snapshot.hooks { active_sessions = p.active };
        };
      },
    )
