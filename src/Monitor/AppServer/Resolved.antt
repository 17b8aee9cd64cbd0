-- ===== src/Monitor/AppServer/Resolved.antt =====
-- `serverRequest/resolved` in `handleAppServerMessage` of agent/internal/monitor/monitor.go.
use codex_ha_monitor.Prelude.{
  ℕ, String, not, List, some, none, Option, keep_if, Without, nothing, kept, [], ◌∷◌,
  keep_if-Without, ◌=?=◌, ◌≡◌, arith, eq_iff,
}
use codex_ha_monitor.Model.Types.{Time}
use codex_ha_monitor.Monitor.State.{Monitor, Env, PendingControl}
use codex_ha_monitor.Monitor.Rebuild.Keeps.{rebuild-SameSources}
use codex_ha_monitor.Monitor.AppServer.{Message, on_resolved, handle_app_server_message}

-- The requests that an App Server knows under an id.
abbrev pub OfServerId : String → String × PendingControl → Type 0
OfServerId id e = e.1.app_server_id ≡ id

abbrev pub OfResolved : Option String → String × PendingControl → Type 0
OfResolved none e = ⊥
OfResolved (some id) e = OfServerId id e

on_resolved_lem :
    (env : Env) (now : Time) (id : String) (m : Monitor)
    → Without (OfServerId id) m.pending_requests (on_resolved env now (some id) m).pending_requests
unfolding on_resolved
on_resolved_lem env now id m =
    let same = rebuild-SameSources env now (record m {
      pending_requests = keep_if (λ e. not (e.1.app_server_id =?= id)) m.pending_requests;
    }) in
    rw (same.same_pending) (
      keep_if-Without (OfServerId id) (λ e. not (e.1.app_server_id =?= id))
        (λ e b. ground (arith, eq_iff e.1.app_server_id id))
        (λ e b h. ground (arith, eq_iff e.1.app_server_id id)) m.pending_requests)

all_kept : (requests : List (String × PendingControl)) → Without (OfResolved none) requests requests
all_kept [] = nothing
all_kept (e ∷ rest) = kept (λ h. h) (all_kept rest)

-- When the App Server tells that a request is resolved, exactly the requests with its id are gone
-- from the pending ones, and nothing is gone if the message's parameters do not decode.
pub handle_app_server_message-resolved :
    (env : Env) (now : Time) (client : ℕ) (msg : Message) (m : Monitor)
    → let told : Message = record msg { request_id = ""; method = "serverRequest/resolved" } in
      Without
        (OfResolved msg.resolved)
        m.pending_requests
        (handle_app_server_message env now client told m).pending_requests
unfolding handle_app_server_message on_resolved
handle_app_server_message-resolved env now client msg m = by_id msg.resolved
  where
    by_id :
        (id : Option String)
        → Without (OfResolved id) m.pending_requests (on_resolved env now id m).pending_requests
    by_id none = all_kept m.pending_requests
    by_id (some id) = on_resolved_lem env now id m
