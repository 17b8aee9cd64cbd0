-- ===== src/Monitor/Requests.antt =====
-- agent/internal/monitor/events.go: `pendingRequestSnapshotLocked`, `decoratePendingRequestsLocked`
-- and `nextRequestID`.
pub mod Decorated
use Prim.Native.String
use codex_ha_monitor.Prelude.{
  ℕ, ◌/◌, ◌-◌, String, List, [], ◌∷◌, map, oldest_first, ◌=?=◌, if◌then◌else◌,
}
use codex_ha_monitor.Text.{format_uint}
use codex_ha_monitor.Model.Types.{
  State, waiting_approval, waiting_input, Thread, zero_thread, Time, PendingRequest,
}
use codex_ha_monitor.Monitor.State.{PendingControl, Monitor, Env}
use codex_ha_monitor.Monitor.Upsert.{Index, index_threads, upsert}

-- The requests, oldest first. Go's sort is not stable, and starts from an arbitrary order.
unfoldable pub pending_request_snapshot : Env → Monitor → List PendingRequest
pending_request_snapshot env m =
    oldest_first (λ (r : PendingRequest). r.created_at)
      (map (λ e. e.1.request) (env.order_requests m.pending_requests))

-- The state that a request asks for; other types leave the thread's.
abbrev pub attention_state : String → State → State
attention_state request_type old =
    if request_type =?= "approval"
    then waiting_approval
    else if request_type =?= "input"
    then waiting_input
    else old

-- What a pending request sets on its thread.
unfoldable pub decorate : PendingRequest → Thread → Thread
decorate r thread = record thread {
  turn_id = r.turn_id;
  request_id = r.id;
  attention_type = r.request_type;
  controllable = r.controllable;
  state_source = "app_server_request";
  state_confidence = "exact";
  updated_at = r.created_at;
  state = attention_state r.request_type thread.state;
}

abbrev pub request_thread : PendingRequest → Thread
request_thread r = record zero_thread {
  id = r.thread_id;
  root_thread_id = r.thread_id;
  thread_role = "root";
}

unfoldable pub decorate_all : Index → List (String × PendingControl) → Index
decorate_all x [] = x
decorate_all x ((key, pending) ∷ rest) =
    decorate_all
      (upsert pending.request.thread_id (request_thread pending.request) (decorate pending.request)
        x)
      rest

unfoldable pub decorate_pending_requests : Env → List Thread → Monitor → List Thread
decorate_pending_requests env threads m =
    (decorate_all (index_threads threads) (env.order_pending m.pending_requests)).threads

-- `fmt.Sprintf("req-%d-%d", now.UnixMilli(), sequence)`; the time is counted from year 1 here, and
-- from 1970 there.
abbrev unix_epoch_ms : ℕ
unix_epoch_ms = 62_135_596_800_000

unfoldable pub next_request_id : ℕ → Time → String
next_request_id sequence now = String.◌++◌ "req-" (
    String.◌++◌ (format_uint (now / 1_000_000 - unix_epoch_ms))
      (String.◌++◌ "-" (format_uint sequence)))
