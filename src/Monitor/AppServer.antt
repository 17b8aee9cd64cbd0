-- ===== src/Monitor/AppServer.antt =====
-- agent/internal/monitor/monitor.go: `handleAppServerMessage` and `mapAppServerState`. What
-- encoding/json decodes is an argument: `none` where it fails.
pub mod Resolved
use codex_ha_monitor.Prelude.{
  ℕ, String, Bool, ◌||◌, not, List, [], ◌∷◌, map, keep_if, any, ◌=?=◌, if◌then◌else◌, Option, none,
  some,
}
use codex_ha_monitor.Model.Types.{
  State, running, waiting_approval, waiting_input, idle, error, unknown, Thread, zero_thread, Time,
}
use codex_ha_monitor.Monitor.State.{Monitor, Env}
use codex_ha_monitor.Monitor.Events.{prepare_live_event}
use codex_ha_monitor.Monitor.Rebuild.{rebuild}
use codex_ha_monitor.Monitor.Control.{RequestParams, record_server_request}

pub record Status : Type 0 where
  pub status_type : String
  pub active_flags : List String

abbrev has_flag : String → List String → Bool
has_flag name = any (λ flag. flag =?= name)

pub active_state : List String → State
active_state flags =
    if has_flag "waitingOnApproval" flags
    then waiting_approval
    else if has_flag "waitingOnUserInput" flags
    then waiting_input
    else running

-- `mapAppServerState`: the state and the confidence.
unfoldable pub map_app_server_state : Option Status → State × String
unfolding active_state
map_app_server_state none = (unknown, "unknown")
map_app_server_state (some s) =
    if s.status_type =?= "systemError"
    then (error, "exact")
    else if s.status_type =?= "idle"
    then (idle, "exact")
    else if s.status_type =?= "active"
    then (active_state s.active_flags, "exact")
    else (unknown, "unknown")

pub record TurnEvent : Type 0 where
  pub thread_id : String
  pub turn_id : String
  pub status : String

-- A message with the structures that its handler decodes its parameters into.
pub record Message : Type 0 where
  pub request_id : String
  pub method : String
  pub request : Option RequestParams
  pub status_changed : Option (String × Option Status)
  pub turn : Option TurnEvent
  pub resolved : Option String

abbrev pub change_status : String → State × String → Time → Thread → Thread
change_status thread_id (state, confidence) now t =
    if t.id =?= thread_id
    then record t {
      state = state;
      state_source = "app_server_event";
      state_confidence = confidence;
      updated_at = now;
    }
    else t

-- `thread/status/changed`
unfoldable pub on_status : Env → Time → Option (String × Option Status) → Monitor → Monitor
on_status env now none m = m
on_status env now (some (thread_id, status)) m =
    let m' = prepare_live_event m in
    rebuild env now (record m' {
      app_threads = map (change_status thread_id (map_app_server_state status) now) m'.app_threads;
    })

-- The state of a thread after a turn has started or ended.
unfoldable pub turn_state : String → String → State
turn_state method status =
    if (method =?= "turn/started") || (status =?= "inProgress")
    then running
    else if status =?= "failed"
    then error
    else idle

abbrev pub change_turn : String → TurnEvent → Time → Thread → Thread
change_turn method e now t = record t {
  turn_id = e.turn_id;
  last_turn_status = e.status;
  state_source = "app_server_event";
  state_confidence = "exact";
  updated_at = now;
  state = turn_state method e.status;
}

-- The first thread with the id is changed; if there is none, a new one is appended.
unfoldable pub change_first : String → (Thread → Thread) → List Thread → List Thread
change_first id change [] = change (record zero_thread { id = id }) ∷ []
change_first id change (t ∷ ts) =
    if t.id =?= id then change t ∷ ts else t ∷ change_first id change ts

-- `turn/started` and `turn/completed`
unfoldable pub on_turn : Env → Time → String → Option TurnEvent → Monitor → Monitor
on_turn env now method none m = m
on_turn env now method (some e) m =
    if e.thread_id =?= ""
    then m
    else let m' = prepare_live_event m in
      rebuild env now (record m' {
        app_threads = change_first e.thread_id (change_turn method e now) m'.app_threads;
      })

-- `serverRequest/resolved`
unfoldable pub on_resolved : Env → Time → Option String → Monitor → Monitor
on_resolved env now none m = m
on_resolved env now (some id) m = rebuild env now (record m {
  pending_requests = keep_if (λ e. not (e.1.app_server_id =?= id)) m.pending_requests;
})

-- `handleAppServerMessage`
unfoldable pub handle_app_server_message : Env → Time → ℕ → Message → Monitor → Monitor
handle_app_server_message env now client msg m =
    if msg.request_id =?= ""
    then if msg.method =?= "thread/status/changed"
      then on_status env now msg.status_changed m
      else if (msg.method =?= "turn/started") || (msg.method =?= "turn/completed")
      then on_turn env now msg.method msg.turn m
      else if msg.method =?= "serverRequest/resolved"
      then on_resolved env now msg.resolved m
      else m
    else record_server_request env now client msg.request_id msg.method msg.request m
