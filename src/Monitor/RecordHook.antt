-- ===== src/Monitor/RecordHook.antt =====
-- agent/internal/monitor/hooks.go: `RecordHook`.
use codex_ha_monitor.Prelude.{◌=?=◌, if◌then◌else◌, insert, inc_int64, some, Result, ok, err}
use codex_ha_monitor.Text.{trim_space}
use codex_ha_monitor.Model.Types.{Time}
use codex_ha_monitor.Monitor.State.{HookEvent, HookResult, Monitor, Env}
use codex_ha_monitor.Monitor.Hooks.{map_hook_event}
use codex_ha_monitor.Monitor.Events.{prepare_live_event}
use codex_ha_monitor.Monitor.Rebuild.{rebuild}

pub data HookError : Type 0 where
  event_name_required session_id_required : HookError

-- The event with its names trimmed, and the older field `event` in place of an empty name.
unfoldable pub clean_event : HookEvent → HookEvent
clean_event event =
    let name = trim_space event.event_name in
    record event {
      event_name = if name =?= "" then trim_space event.legacy_event else name;
      session_id = trim_space event.session_id;
      turn_id = trim_space event.turn_id;
    }

abbrev pub hook_result : HookEvent → Time → HookResult
hook_result event now = record {
  session_id = event.session_id;
  turn_id = event.turn_id;
  event_name = event.event_name;
  state = (map_hook_event event).0;
  recorded = (map_hook_event event).1;
  received = now;
}

-- The state under the lock, before the rebuild.
unfoldable pub store_hook : HookEvent → Time → Monitor → Monitor
store_hook event now m' =
    let m = prepare_live_event m' in
    record m {
      snapshot = record m.snapshot {
        hooks = record m.snapshot.hooks {
          received_events = inc_int64 m.snapshot.hooks.received_events;
          last_event_at = some now;
        };
      };
      hook_sessions =
          if (map_hook_event event).1
          then insert event.session_id
              (record { event = event; state = (map_hook_event event).0; received_at = now })
              m.hook_sessions
          else m.hook_sessions;
    }

unfoldable pub record_hook :
    Env → Time → HookEvent → Monitor → Result HookError (Monitor × HookResult)
record_hook env now raw m =
    let event = clean_event raw in
    if event.event_name =?= ""
    then err event_name_required
    else if event.session_id =?= ""
    then err session_id_required
    else ok (rebuild env now (store_hook event now m), hook_result event now)
