-- ===== src/Monitor/Stream.antt =====
-- agent/internal/monitor/events.go: the events and snapshots that subscribers are sent.
pub mod History
pub mod Replay
pub mod Quiet
use codex_ha_monitor.Prelude.{
  ℕ, suc, ◌+◌, ◌-◌, ◌%◌, ◌^◌, String, Bool, true, false, ◌&&◌, not, List, [], ◌∷◌, ◌++◌, map,
  length, drop, keep_if, ltb, ◌==◌, ◌=?=◌, if◌then◌else◌, Option, none, some,
}
use codex_ha_monitor.Text.{format_uint}
use codex_ha_monitor.Json.{Json, JsonMap}
use codex_ha_monitor.Model.Types.{Time, Thread, TaskEvent, Snapshot}
use codex_ha_monitor.Monitor.State.{
  Monitor, Env, Channel, StreamMessage, snapshot_message, task_activity,
}

abbrev pub event_history_limit : ℕ
event_history_limit = 256

-- `make(chan StreamMessage, 300)`
abbrev pub channel_capacity : ℕ
channel_capacity = 300

-- `select { case ch <- message: default: }`: a full channel misses the message.
unfoldable pub offer : StreamMessage → Channel → Channel
offer message ch =
    if ltb (length ch.buffer) channel_capacity
    then record ch { buffer = ch.buffer ++ message ∷ [] }
    else ch

-- The history with an event at its end, and its oldest events dropped beyond the limit.
pub remember : List TaskEvent → TaskEvent → List TaskEvent
remember history event =
    let longer = history ++ event ∷ [] in
    if ltb event_history_limit (length longer)
    then drop (length longer - event_history_limit) longer
    else longer

-- `emitTaskEventLocked`
unfoldable pub emit_task_event : Time → TaskEvent → Monitor → Monitor
emit_task_event clock event m =
    let sequence = (m.event_sequence + 1) % 2 ^ 64 in
    let numbered : TaskEvent = record event {
      sequence = sequence;
      event_id = format_uint sequence;
      installation_id = m.cfg.installation_id;
      occurred_at = if event.occurred_at == 0 then clock else event.occurred_at;
    } in
    record m {
      event_sequence = sequence;
      event_history = remember m.event_history numbered;
      subs = map (offer (task_activity sequence numbered)) m.subs;
    }

-- `compactUsage`: the usage without its daily history.
unfoldable pub compact_usage : JsonMap → JsonMap
compact_usage none = none
compact_usage (some usage) = some (keep_if (λ e. not (e.0 =?= "dailyUsageBuckets")) usage)

-- The snapshot without its times and its usage history: what `snapshotStreamSignature` digests.
unfoldable pub normalize : Snapshot → Snapshot
normalize s = record s {
  generated_at = 0;
  agent = record s.agent { uptime_seconds = 0 };
  codex = record s.codex { last_success_at = none };
  threads = map (λ (t : Thread). record t { updated_at = 0 }) s.threads;
  usage = compact_usage s.usage;
}

abbrev pub signature_of : Env → Snapshot → ℕ
signature_of env s = env.digest (normalize s)

-- `broadcastSnapshotLocked`: subscribers are sent the snapshot if its signature has changed.
unfoldable pub broadcast_snapshot : Env → Monitor → Monitor
broadcast_snapshot env m =
    if m.stream_ready && signature_of env m.snapshot == m.stream_signature then m else record m {
      stream_ready = true;
      stream_signature = signature_of env m.snapshot;
      subs = map (offer (snapshot_message m.snapshot)) m.subs;
    }

-- The messages that `Subscribe` replays.
unfoldable pub replay : ℕ → List TaskEvent → List StreamMessage
replay after [] = []
replay after (e ∷ es) =
    if ltb after e.sequence then task_activity e.sequence e ∷ replay after es else replay after es

-- `Subscribe` up to the unlock: the new channel with the replayed events, and the snapshot that is
-- sent to it afterwards. Both sends block on a full channel; `Replay` shows that they do not.
unfoldable pub subscribe_locked : ℕ → ℕ → Monitor → Monitor × Snapshot
subscribe_locked number after m = (
  record m { subs = record { number = number; buffer = replay after m.event_history } ∷ m.subs },
  m.snapshot,
)

-- `ch <- StreamMessage{...}` after the unlock; `none` if the channel is full, where Go waits.
unfoldable pub send_to : ℕ → StreamMessage → List Channel → Option (List Channel)
send_to number message [] = none
send_to number message (ch ∷ rest) = elim (ch.number == number) [
  | true ↦
      if ltb (length ch.buffer) channel_capacity
      then some (record ch { buffer = ch.buffer ++ message ∷ [] } ∷ rest)
      else none
  | false ↦ elim (send_to number message rest) [ none ↦ none | some sent ↦ some (ch ∷ sent) ]
]

unfoldable pub subscribe_send : ℕ → Snapshot → Monitor → Option Monitor
subscribe_send number current m = elim (send_to number (snapshot_message current) m.subs) [
  | none ↦ none
  | some subs ↦ some (record m { subs = subs })
]

-- The oldest message of a channel with the channel after it; `none` if it holds none.
unfoldable pub take_oldest : Channel → Option (StreamMessage × Channel)
take_oldest ch = elim ch.buffer [
  | [] ↦ none
  | message ∷ later ↦ some (message, record ch { buffer = later })
]

unfoldable pub receive_from : ℕ → List Channel → Option (StreamMessage × List Channel)
receive_from number [] = none
receive_from number (ch ∷ rest) = elim (ch.number == number) [
  | true ↦ elim (take_oldest ch) [
    | none ↦ none
    | some (message, later) ↦ some (message, later ∷ rest)
  ]
  | false ↦ elim (receive_from number rest) [
    | none ↦ none
    | some (message, chs) ↦ some (message, ch ∷ chs)
  ]
]

-- `message, ok := <-updates` of `handleEvents`, on a channel that is still open: what the subscriber
-- reads; `none` where it waits.
unfoldable pub receive : ℕ → Monitor → Option (StreamMessage × Monitor)
receive number m = elim (receive_from number m.subs) [
  | none ↦ none
  | some (message, subs) ↦ some (message, record m { subs = subs })
]

-- The function that `Subscribe` returns: the channel is deleted and closed.
unfoldable pub unsubscribe : ℕ → Monitor → Monitor
unsubscribe number m = record m { subs = keep_if (λ ch. not (ch.number == number)) m.subs }
