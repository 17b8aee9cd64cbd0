-- ===== src/Monitor/Events.antt =====
-- agent/internal/monitor/events.go: the task events that a change of the threads gives rise to.
pub mod Kinds
pub mod Steady
use codex_ha_monitor.Prelude.{
  String, Bool, true, false, ◌&&◌, ◌||◌, List, [], ◌∷◌, lookup, ◌=?=◌, if◌then◌else◌, Option, none,
  some,
}
use mathlib.Core.Option
use codex_ha_monitor.Model.Types.{
  State, unset, running, waiting_approval, waiting_input, idle, error, unknown, same_state,
  state_text, Thread, zero_thread, TaskEvent, Time, EventType, task_started, task_completed,
  approval_required, input_required, task_failed, task_interrupted, task_resumed,
}
use codex_ha_monitor.Hierarchy.{index_by_id}
use codex_ha_monitor.Monitor.State.{Monitor}
use codex_ha_monitor.Monitor.Stream.{emit_task_event}

-- A thread that has become idle, by how its last turn ended.
pub idle_event : Thread → Thread → Option EventType
idle_event previous current =
    if current.last_turn_status =?= "interrupted"
    then some task_interrupted
    else if current.last_turn_status =?= "failed"
    then some task_failed
    else if same_state previous.state running
        || same_state previous.state waiting_approval
        || same_state previous.state waiting_input
    then some task_completed
    else none

-- The `switch` of `transitionEventType`; Go's empty text is `none`.
pub event_for : State → Thread → Thread → Bool → Option EventType
unfolding idle_event
event_for waiting_approval previous current existed = some approval_required
event_for waiting_input previous current existed = some input_required
event_for error previous current existed = some task_failed
event_for running previous current existed =
    if existed
      && (same_state previous.state waiting_approval
          || same_state previous.state waiting_input
          || same_state previous.state idle)
    then some task_resumed
    else some task_started
event_for idle previous current existed = if existed then idle_event previous current else none
event_for unset previous current existed = none
event_for unknown previous current existed = none

unfoldable pub transition_event_type : Thread → Thread → Bool → Option EventType
unfolding event_for
transition_event_type previous current existed = event_for current.state previous current existed

pub display_thread_name : Thread → String
display_thread_name thread =
    if thread.name =?= ""
    then if thread.preview =?= "" then thread.id else thread.preview
    else thread.name

-- The event of a thread; `emitTaskEventLocked` fills in the number, its text and the installation.
unfoldable pub transition_event : Thread → Thread → EventType → Time → TaskEvent
unfolding display_thread_name state_text
transition_event previous thread event_type now = record {
  sequence = 0;
  event_id = "";
  event_type = event_type;
  installation_id = "";
  thread_id = thread.id;
  turn_id = thread.turn_id;
  parent_thread_id = thread.parent_thread_id;
  root_thread_id = thread.root_thread_id;
  thread_role = thread.thread_role;
  agent_nickname = thread.agent_nickname;
  task_name = display_thread_name thread;
  from_state = state_text previous.state;
  to_state = state_text thread.state;
  state_source = thread.state_source;
  state_confidence = thread.state_confidence;
  request_id = thread.request_id;
  controllable = thread.controllable;
  occurred_at = now;
}

-- What one thread emits, against the threads of the last rebuild.
unfoldable pub thread_event : List (String × Thread) → Time → Thread → Option TaskEvent
thread_event last now thread = elim (lookup thread.id last) [
  | none ↦
      Option.map (λ ty. transition_event zero_thread thread ty now)
        (transition_event_type zero_thread thread false)
  | some previous ↦
      if same_state previous.state thread.state && (previous.request_id =?= thread.request_id)
      then none
      else Option.map (λ ty. transition_event previous thread ty now)
          (transition_event_type previous thread true)
]

-- The loop of `emitTransitionEventsLocked`; `last` is `m.lastThreads`, which the loop leaves alone.
unfoldable pub emit_each : List (String × Thread) → Time → Time → List Thread → Monitor → Monitor
emit_each last clock now [] m = m
emit_each last clock now (t ∷ ts) m =
    emit_each last clock now ts
      (elim (thread_event last now t) [ none ↦ m | some event ↦ emit_task_event clock event m ])

-- `emitTransitionEventsLocked`: the first call only takes the threads for its baseline.
unfoldable pub emit_transition_events : List Thread → Time → Time → Monitor → Monitor
emit_transition_events threads clock now m =
    if m.events_ready
    then record (emit_each m.last_threads clock now threads m) {
      last_threads = index_by_id threads;
    }
    else record m { last_threads = index_by_id threads; events_ready = true }

-- `prepareLiveEventLocked`: a live event before the first baseline compares against the snapshot.
unfoldable pub prepare_live_event : Monitor → Monitor
prepare_live_event m =
    if m.events_ready
    then m
    else record m { last_threads = index_by_id m.snapshot.threads; events_ready = true }
