-- ===== src/Monitor/Steps/Preserved.antt =====
-- Each section of agent/internal/monitor keeps the invariant of its state: the lemmas that a step uses.
use codex_ha_monitor.Prelude.{
  ℕ, String, Bool, true, false, ◌||◌, Option, some, none, Option-cases, Bool-cases, ◌≡◌, ap, arith,
  inl, inr, refl, subst, List, [], ◌∷◌, delete, ◌=?=◌, if◌then◌else◌, ltb_int64, inc_int64, ok,
  lookup,
}
use codex_ha_monitor.Model.Types.{Time, AppServerInfo, Thread, Snapshot}
use codex_ha_monitor.Monitor.State.{
  StreamMessage, snapshot_message, HookEvent, HookResult, Monitor, Env, PendingControl,
}
use codex_ha_monitor.Monitor.Stream.{
  subscribe_send, send_to, receive_from, receive, emit_task_event,
}
use codex_ha_monitor.Monitor.Events.{prepare_live_event}
use codex_ha_monitor.Monitor.RecordHook.{record_hook, store_hook, clean_event}
use codex_ha_monitor.Monitor.Rebuild.{rebuild}
use codex_ha_monitor.Monitor.Control.{
  RequestParams, request_kind, store_request, record_server_request, finish_pending,
  is_same_pending, settle_interrupt,
}
use codex_ha_monitor.Monitor.Account.{
  record_account_result, failure_threshold, set_connection, drop_client, clear_client,
}
use codex_ha_monitor.Monitor.Connect.{is_lost, recovered_event, store_client, attach_client}
use codex_ha_monitor.Monitor.Refresh.{collect_filesystem}
use codex_ha_monitor.Monitor.AppServer.{
  Message, Status, TurnEvent, on_status, on_turn, on_resolved, handle_app_server_message,
}
use codex_ha_monitor.Monitor.Steps.Invariant.{
  RequestsAreValid, keep_if-RequestsAreValid, delete-RequestsAreValid,
  store_request-RequestsAreValid, rebuild-RequestsAreValid, prepare_live_event-pending_requests,
  request_kind-attention,
}
use codex_ha_monitor.Monitor.Steps.Invariant.Streams.{
  StreamsAreValid, emit_task_event-StreamsAreValid, rebuild-StreamsAreValid,
  prepare_live_event-StreamsAreValid,
}

-- The history and the channels keep within their limits, and the pending requests are a map from
-- each request's own id, each of them asking for approval or for input.
pub record IsValid (m : Monitor) : Type 0 where
  pub streams : StreamsAreValid m
  pub requests : RequestsAreValid m.pending_requests

pub rebuild-IsValid :
    (env : Env) (now : Time) (m : Monitor) → IsValid m → IsValid (rebuild env now m)
rebuild-IsValid env now m v = record {
  streams = rebuild-StreamsAreValid env now m v.streams;
  requests = rebuild-RequestsAreValid env now m v.requests;
}

-- The invariant reads three fields.
pub IsValid-of :
    (m n : Monitor)
    → m.event_history ≡ n.event_history
    → m.subs ≡ n.subs
    → RequestsAreValid m.pending_requests
    → IsValid n
    → IsValid m
IsValid-of m n h s r v = record {
  streams = record { short = rw h v.streams.short; roomy = rw s v.streams.roomy };
  requests = r;
}

prepare_live_event-IsValid : (m : Monitor) → IsValid m → IsValid (prepare_live_event m)
prepare_live_event-IsValid m v = record {
  streams = prepare_live_event-StreamsAreValid m v.streams;
  requests = rw (prepare_live_event-pending_requests m) v.requests;
}

-- `x` or `y`, whichever a test takes.
either_IsValid : (b : Bool) (x y : Monitor) → IsValid x → IsValid y → IsValid (if b then x else y)
either_IsValid true x y h k = h
either_IsValid false x y h k = k

store_hook-IsValid :
    (event : HookEvent) (now : Time) (m : Monitor) → IsValid m → IsValid (store_hook event now m)
unfolding store_hook
store_hook-IsValid event now m v =
    let p = prepare_live_event-IsValid m v in
    IsValid-of _ (prepare_live_event m) refl refl p.requests p

pub record_hook-IsValid :
    (env : Env) (now : Time) (raw : HookEvent) (m n : Monitor) (r : HookResult)
    → record_hook env now raw m ≡ ok (n, r)
    → IsValid m
    → IsValid n
unfolding record_hook
record_hook-IsValid env now raw m n r h v =
    let next = rebuild env now (store_hook (clean_event raw) now m) in
    let same : next ≡ n = ground arith in
    subst IsValid same (
      rebuild-IsValid env now (store_hook (clean_event raw) now m)
        (store_hook-IsValid (clean_event raw) now m v))

store_request-IsValid :
    (client : ℕ) (id method : String) (p : RequestParams) (kind : _) (now : Time) (m : Monitor)
    → request_kind method p ≡ some kind
    → IsValid m
    → IsValid (store_request client id method p kind now m)
unfolding store_request
store_request-IsValid client id method p kind now m known v =
    IsValid-of _ (prepare_live_event m) refl refl
      (store_request-RequestsAreValid client id method p kind now m
        (request_kind-attention method p kind known) v.requests)
      (prepare_live_event-IsValid m v)

record_server_request-IsValid :
    (env : Env) (now : Time) (client : ℕ) (id method : String) (p : Option RequestParams)
    (m : Monitor)
    → IsValid m
    → IsValid (record_server_request env now client id method p m)
unfolding record_server_request
record_server_request-IsValid env now client id method none m v = v
record_server_request-IsValid env now client id method (some p) m v =
    elim (Bool-cases ((id =?= "") || (p.thread_id =?= ""))) [
      | inl b ↦ rw (b, record_server_request) v
      | inr b ↦ elim (Option-cases (request_kind method p)) [
        | inl ignored ↦ rw (b, ignored, record_server_request) v
        | inr (kind, known) ↦
            rw (b, known, record_server_request)
              (rebuild-IsValid env now (store_request client id method p kind now m)
                (store_request-IsValid client id method p kind now m known v))
      ]
    ]

pub finish_pending-IsValid :
    (env : Env) (now : Time) (id : String) (p : PendingControl) (m : Monitor)
    → IsValid m
    → IsValid (finish_pending env now id p m)
unfolding finish_pending
finish_pending-IsValid env now id p m v =
    let removed : Monitor = record m { pending_requests = delete id m.pending_requests } in
    rebuild-IsValid env now _ (
      either_IsValid (is_same_pending (lookup id m.pending_requests) p) removed m
        (IsValid-of removed m refl refl (delete-RequestsAreValid id m.pending_requests v.requests)
          v)
        v)

pub settle_interrupt-IsValid :
    (thread turn : String) (now : Time) (m : Monitor)
    → IsValid m
    → IsValid (settle_interrupt thread turn now m)
unfolding settle_interrupt
settle_interrupt-IsValid thread turn now m v =
    IsValid-of _ m refl refl (keep_if-RequestsAreValid _ m.pending_requests v.requests) v

pub clear_client-IsValid :
    (env : Env) (now : Time) (client : ℕ) (m : Monitor)
    → IsValid m
    → IsValid (clear_client env now client m)
unfolding clear_client drop_client
clear_client-IsValid env now client m v =
    rebuild-IsValid env now _
      (IsValid-of _ m refl refl (keep_if-RequestsAreValid _ m.pending_requests v.requests) v)

pub set_connection-IsValid :
    (env : Env) (now : Time) (state last_error : String) (m : Monitor)
    → IsValid m
    → IsValid (set_connection env now state last_error m)
unfolding set_connection
set_connection-IsValid env now state last_error m v =
    rebuild-IsValid env now _ (IsValid-of _ m refl refl v.requests v)

pub record_account_result-IsValid :
    (now : Time) (failures : List String) (m : Monitor)
    → IsValid m
    → IsValid (record_account_result now failures m).0
unfolding record_account_result
record_account_result-IsValid now [] m v = IsValid-of _ m refl refl v.requests v
record_account_result-IsValid now (f ∷ fs) m v =
    either (ltb_int64 (inc_int64 m.snapshot.codex.consecutive_failures) (failure_threshold m.cfg)) _
      _ (IsValid-of _ m refl refl v.requests v) (IsValid-of _ m refl refl v.requests v)
  where
    either :
        (b : Bool) (x y : Monitor × Bool)
        → IsValid x.0
        → IsValid y.0
        → IsValid ((if b then x else y).0)
    either true x y h k = h
    either false x y h k = k

pub subscribe_send-pending_requests :
    (channel : ℕ) (current : Snapshot) (m n : Monitor)
    → subscribe_send channel current m ≡ some n
    → m.pending_requests ≡ n.pending_requests
unfolding subscribe_send
subscribe_send-pending_requests channel current m n h =
    elim (Option-cases (send_to channel (snapshot_message current) m.subs)) [
      | inl full ↦ ground arith
      | inr (chs, e) ↦
          let same : record m { subs = chs } ≡ n = ground arith in
          ap (λ (k : Monitor). k.pending_requests) same
    ]

pub receive-pending_requests :
    (channel : ℕ) (read : StreamMessage) (m n : Monitor)
    → receive channel m ≡ some (read, n)
    → m.pending_requests ≡ n.pending_requests
unfolding receive
receive-pending_requests channel read m n h = elim (Option-cases (receive_from channel m.subs)) [
  | inl empty ↦ ground arith
  | inr (taken, e) ↦
      let same : record m { subs = taken.1 } ≡ n = ground arith in
      ap (λ (k : Monitor). k.pending_requests) same
]

on_status-IsValid :
    (env : Env) (now : Time) (s : Option (String × Option Status)) (m : Monitor)
    → IsValid m
    → IsValid (on_status env now s m)
unfolding on_status
on_status-IsValid env now none m v = v
on_status-IsValid env now (some (id, s)) m v =
    let p = prepare_live_event-IsValid m v in
    rebuild-IsValid env now _ (IsValid-of _ (prepare_live_event m) refl refl p.requests p)

on_turn-IsValid :
    (env : Env) (now : Time) (method : String) (e : Option TurnEvent) (m : Monitor)
    → IsValid m
    → IsValid (on_turn env now method e m)
unfolding on_turn
on_turn-IsValid env now method none m v = v
on_turn-IsValid env now method (some e) m v =
    let p = prepare_live_event-IsValid m v in
    either_IsValid (e.thread_id =?= "") m _ v
      (rebuild-IsValid env now _ (IsValid-of _ (prepare_live_event m) refl refl p.requests p))

on_resolved-IsValid :
    (env : Env) (now : Time) (id : Option String) (m : Monitor)
    → IsValid m
    → IsValid (on_resolved env now id m)
unfolding on_resolved
on_resolved-IsValid env now none m v = v
on_resolved-IsValid env now (some id) m v =
    rebuild-IsValid env now _
      (IsValid-of _ m refl refl (keep_if-RequestsAreValid _ m.pending_requests v.requests) v)

pub handle_app_server_message-IsValid :
    (env : Env) (now : Time) (client : ℕ) (msg : Message) (m : Monitor)
    → IsValid m
    → IsValid (handle_app_server_message env now client msg m)
unfolding handle_app_server_message
handle_app_server_message-IsValid env now client msg m v =
    either_IsValid (msg.request_id =?= "") _ _
      (either_IsValid (msg.method =?= "thread/status/changed") _ _
        (on_status-IsValid env now msg.status_changed m v)
        (either_IsValid ((msg.method =?= "turn/started") || (msg.method =?= "turn/completed")) _ _
          (on_turn-IsValid env now msg.method msg.turn m v)
          (either_IsValid (msg.method =?= "serverRequest/resolved") _ m
            (on_resolved-IsValid env now msg.resolved m v) v)))
      (record_server_request-IsValid env now client msg.request_id msg.method msg.request m v)

pub collect_filesystem-IsValid :
    (env : Env) (now : Time) (found : Option (List Thread)) (m : Monitor)
    → IsValid m
    → IsValid (collect_filesystem env now found m)
unfolding collect_filesystem
collect_filesystem-IsValid env now none m v = v
collect_filesystem-IsValid env now (some threads) m v =
    rebuild-IsValid env now _ (IsValid-of _ m refl refl v.requests v)

pub attach_client-IsValid :
    (env : Env) (now : Time) (client : ℕ) (info : AppServerInfo) (m : Monitor)
    → IsValid m
    → IsValid (attach_client env now client info m)
unfolding attach_client store_client emit_task_event
attach_client-IsValid env now client info m v =
    let with_client = store_client client info m in
    let next = IsValid-of with_client m refl refl v.requests v in
    rebuild-IsValid env now _ (
      either_IsValid (is_lost m.snapshot.codex.connection_state)
        (emit_task_event env.clock (recovered_event now) with_client) with_client
        (record {
          streams =
              emit_task_event-StreamsAreValid env.clock (recovered_event now) with_client
                next.streams;
          requests = next.requests;
        })
        next)
