-- ===== src/Monitor/Control/Recorded.antt =====
-- `recordServerRequest` of agent/internal/monitor/control.go: what becomes pending.
use codex_ha_monitor.Prelude.{
  ℕ, ◌+◌, ◌%◌, ◌^◌, String, false, ◌||◌, some, lookup, lookup-insert, ◌=?=◌, if◌then◌else◌, ◌≡◌,
  ◌≢◌, ◌∙◌, ap, arith, eq_iff,
}
use codex_ha_monitor.Model.Types.{Time}
use codex_ha_monitor.Monitor.State.{Monitor, Env, PendingControl}
use codex_ha_monitor.Monitor.Events.{prepare_live_event}
use codex_ha_monitor.Monitor.Requests.{next_request_id}
use codex_ha_monitor.Monitor.Rebuild.Keeps.{rebuild-SameSources}
use codex_ha_monitor.Monitor.Control.{
  RequestParams, RequestKind, request_kind, store_request, record_server_request,
}

-- The request that a message asks for, under the id that the agent gives it.
abbrev pub asked : ℕ → String → String → RequestParams → RequestKind → Time → ℕ → PendingControl
asked client app_server_id method p kind now sequence = record {
  address = sequence;
  request = record {
    id = next_request_id sequence now;
    request_type = kind.request_type;
    method = method;
    thread_id = p.thread_id;
    turn_id = p.turn_id;
    item_id = p.item_id;
    summary = kind.summary;
    cwd = p.cwd;
    questions = kind.questions;
    available_decisions = kind.decisions;
    controllable = kind.controllable;
    created_at = now;
  };
  client = client;
  app_server_id = app_server_id;
}

live_pending :
    (m : Monitor)
    → ((prepare_live_event m).pending_requests ≡ m.pending_requests)
      × ((prepare_live_event m).request_sequence ≡ m.request_sequence)
unfolding prepare_live_event
live_pending m = ground arith

stored_lookup :
    (client : ℕ) (app_server_id method : String) (p : RequestParams) (kind : RequestKind)
    (now : Time) (m : Monitor) (k : String)
    → let sequence = (m.request_sequence + 1) % 2 ^ 64 in
      lookup k (store_request client app_server_id method p kind now m).pending_requests ≡ (
        if next_request_id sequence now =?= k
        then some (asked client app_server_id method p kind now sequence)
        else lookup k m.pending_requests)
unfolding store_request
stored_lookup client app_server_id method p kind now m k =
    let sequence : ℕ → ℕ = λ s. (s + 1) % 2 ^ 64 in
    let live = live_pending m in
    lookup-insert (next_request_id (sequence (prepare_live_event m).request_sequence) now) k _
      (prepare_live_event m).pending_requests
    ∙ (λ i.
        if next_request_id (sequence (live.1 i)) now =?= k
        then some (asked client app_server_id method p kind now (sequence (live.1 i)))
        else lookup k (live.0 i))

-- A request of a known method, that names a thread and wants an answer, becomes pending under the id
-- made of the time and the next number of the sequence, with the App Server and the id that an
-- answer goes to; every other pending request stays as it is.
pub record_server_request_lem :
    (env : Env) (now : Time) (client : ℕ) (app_server_id method : String) (p : RequestParams)
    (kind : RequestKind) (m : Monitor) (k : String)
    → app_server_id ≢ ""
    → p.thread_id ≢ ""
    → request_kind method p ≡ some kind
    → let sequence = (m.request_sequence + 1) % 2 ^ 64 in
      lookup k
        (record_server_request env now client app_server_id method (some p) m).pending_requests
      ≡ (if next_request_id sequence now =?= k
          then some (asked client app_server_id method p kind now sequence)
          else lookup k m.pending_requests)
unfolding record_server_request
record_server_request_lem env now client app_server_id method p kind m k named threaded known =
    let test : ((app_server_id =?= "") || (p.thread_id =?= "")) ≡ false =
      ground (arith, eq_iff app_server_id "", eq_iff p.thread_id "") in
    let stored = store_request client app_server_id method p kind now m in
    rw (test, known, record_server_request)
      (ap (lookup k) (rebuild-SameSources env now stored).same_pending
        ∙ stored_lookup client app_server_id method p kind now m k)
