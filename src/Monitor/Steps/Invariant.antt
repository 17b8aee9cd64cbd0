-- ===== src/Monitor/Steps/Invariant.antt =====
-- What every run of agent/internal/monitor keeps true of the monitor's state.
pub mod Streams
use codex_ha_monitor.Prelude.{
  ℕ, ◌+◌, ◌%◌, ◌^◌, ◌≤◌, String, Bool, true, false, ◌&&◌, ◌||◌, not, Option, some, none,
  Option-cases, Bool-cases, String-cases, ◌≡◌, ◌⊎◌, ◌∙◌, ap, arith, eq_iff, inl, inr, refl, sym,
  subst, List, [], ◌∷◌, length, All, map, keep_if, keep_if-All, keep_if-IsMap, insert-All,
  delete-All, insert-IsMap, delete-IsMap, IsMap, delete, ◌=?=◌, ◌==◌, if◌then◌else◌, lookup, Result,
  ok, err,
}
use codex_ha_monitor.Model.Types.{Time, PendingRequest, Snapshot}
use codex_ha_monitor.Monitor.State.{HookEvent, HookResult, Monitor, Env, PendingControl}
use codex_ha_monitor.Monitor.Events.{prepare_live_event}
use codex_ha_monitor.Monitor.Requests.Decorated.{IsAttention}
use codex_ha_monitor.Monitor.Requests.{next_request_id}
use codex_ha_monitor.Monitor.Rebuild.{rebuild}
use codex_ha_monitor.Monitor.Rebuild.Keeps.{rebuild-SameSources}
use codex_ha_monitor.Monitor.Control.{
  RequestParams, RequestKind, request_kind, store_request, record_server_request, finish_pending,
  is_same_pending, settle_interrupt,
}
use codex_ha_monitor.Monitor.Control.Answer.{finish_pending-pending_requests}

-- The pending requests are a map from each request's own id, and each asks for approval or input.
pub record RequestsAreValid (requests : List (String × PendingControl)) : Type 0 where
  pub unique : IsMap requests
  pub named : All (λ e. e.1.request.id ≡ e.0) requests
  pub attention : All (λ e. IsAttention e.1.request) requests

pub keep_if-RequestsAreValid :
    (keep : String × PendingControl → Bool) (requests : List (String × PendingControl))
    → RequestsAreValid requests
    → RequestsAreValid (keep_if keep requests)
keep_if-RequestsAreValid keep requests v = record {
  unique = keep_if-IsMap keep requests v.unique;
  named = keep_if-All (λ e. e.1.request.id ≡ e.0) keep requests v.named;
  attention = keep_if-All (λ e. IsAttention e.1.request) keep requests v.attention;
}

pub delete-RequestsAreValid :
    (id : String) (requests : List (String × PendingControl))
    → RequestsAreValid requests
    → RequestsAreValid (delete id requests)
delete-RequestsAreValid id requests v = record {
  unique = delete-IsMap id requests v.unique;
  named = delete-All (λ e. e.1.request.id ≡ e.0) id requests v.named;
  attention = delete-All (λ e. IsAttention e.1.request) id requests v.attention;
}

-- Every method that is recorded asks for approval or for input.
pub request_kind-attention :
    (method : String) (p : RequestParams) (kind : RequestKind)
    → request_kind method p ≡ some kind
    → (kind.request_type ≡ "approval") ⊎ (kind.request_type ≡ "input")
unfolding request_kind
request_kind-attention method p kind h = elim (Option-cases p.questions) [
  | inl gone ↦ let h' = rw (gone, request_kind) at h in ground arith
  | inr (qs, here) ↦ let h' = rw (here, request_kind) at h in ground arith
]

pub prepare_live_event-pending_requests :
    (m : Monitor) → (prepare_live_event m).pending_requests ≡ m.pending_requests
unfolding prepare_live_event
prepare_live_event-pending_requests m = ground arith

pub rebuild-RequestsAreValid :
    (env : Env) (now : Time) (m : Monitor)
    → RequestsAreValid m.pending_requests
    → RequestsAreValid (rebuild env now m).pending_requests
rebuild-RequestsAreValid env now m v = rw ((rebuild-SameSources env now m).same_pending) v

pub store_request-RequestsAreValid :
    (client : ℕ) (app_server_id method : String) (p : RequestParams) (kind : RequestKind)
    (now : Time) (m : Monitor)
    → (kind.request_type ≡ "approval") ⊎ (kind.request_type ≡ "input")
    → RequestsAreValid m.pending_requests
    → RequestsAreValid (store_request client app_server_id method p kind now m).pending_requests
unfolding store_request
store_request-RequestsAreValid client app_server_id method p kind now m asks v' =
    let v = subst RequestsAreValid (sym (prepare_live_event-pending_requests m)) v' in
    let old = (prepare_live_event m).pending_requests in
    let id = next_request_id (((prepare_live_event m).request_sequence + 1) % 2 ^ 64) now in
    record {
      unique = insert-IsMap id _ old v.unique;
      named = insert-All (λ e. e.1.request.id ≡ e.0) id _ old refl v.named;
      attention = insert-All (λ e. IsAttention e.1.request) id _ old asks v.attention;
    }
