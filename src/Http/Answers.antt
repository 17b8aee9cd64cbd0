-- ===== src/Http/Answers.antt =====
-- agent/internal/httpapi/server.go with agent/internal/monitor/control.go: an action from its request
-- to its status.
use codex_ha_monitor.Prelude.{
  ℕ, String, true, false, List, ◌++◌, ◌=?=◌, if◌then◌else◌, none, lookup, ◌≡◌, ◌∙◌, refl, sym, ap,
  subst, Result, ok, err,
}
use codex_ha_monitor.Text.{has_prefix}
use codex_ha_monitor.Monitor.State.{Monitor}
use codex_ha_monitor.Monitor.Control.{
  ActionError, ActionResult, Outcome, request_not_found, request_conflict, not_controllable,
  no_app_server, client_error, resolve_approval, decision_payload, done,
}
use codex_ha_monitor.Monitor.Control.Answer.{Resolution, resolve_approval-Resolution, IsOffered}
use codex_ha_monitor.Http.Messages.{ActionRequest, HttpRequest, World, Served}
use codex_ha_monitor.Http.Actions.{
  serve_outcome, action_response, run_action, handle_action, handle_approve, handle_reject,
}
use codex_ha_monitor.Http.Server.{
  route, handle, after_redirect, serve_mux, bearer, is_unauthorized, authenticate, with_cors,
  is_post_path, serve,
}
use codex_ha_monitor.Http.Access.{is_unauthorized-bearer}

-- The status that tells a caller how an action ended.
pub data HasStatus : Result ActionError ActionResult → ℕ → Type 0 where
  accepted : (result : ActionResult) → HasStatus (ok result) 200
  missing : HasStatus (err request_not_found) 404
  conflict : HasStatus (err request_conflict) 409
  observed : HasStatus (err not_controllable) 409
  disconnected : HasStatus (err no_app_server) 503
  upstream : (e : String) → HasStatus (err (client_error e)) 502

action_response-HasStatus :
    (result : Result ActionError ActionResult) → HasStatus result (action_response result).status
action_response-HasStatus (ok result) = accepted result
action_response-HasStatus (err request_not_found) = missing
action_response-HasStatus (err request_conflict) = conflict
action_response-HasStatus (err not_controllable) = observed
action_response-HasStatus (err no_app_server) = disconnected
action_response-HasStatus (err (client_error e)) = upstream e

-- A POST to an action's path, with the token and a body that decodes.
pub record IsPosted (token : List ℕ) (w : World) (r : HttpRequest) (path : String)
    (input : ActionRequest) : Type 0 where
  pub posted : r.method ≡ "POST"
  pub at_path : r.path ≡ path
  pub known : w.redirect path ≡ none
  pub with_token : r.authorization ≡ bearer ++ token
  pub carries : r.action_json ≡ ok input

module _ (token : List ℕ) (w : World) (r : HttpRequest) (m : Monitor) (path : String)
    (input : ActionRequest) (p : IsPosted token w r path input) where
  -- What stands before the handlers lets it through.
  serve-IsPosted :
      is_post_path path ≡ true
      → (path =?= "/") ≡ false
      → serve token w r m ≡ with_cors (handle (route path) w r m)
  unfolding serve authenticate serve_mux
  serve-IsPosted post other =
      let first : (r.method =?= "OPTIONS") ≡ false = ap (λ s. s =?= "OPTIONS") p.posted in
      let second : (r.method =?= "POST") ≡ true = ap (λ s. s =?= "POST") p.posted in
      let third : is_post_path r.path ≡ true = ap is_post_path p.at_path ∙ post in
      let fourth : (r.path =?= "/") ≡ false = ap (λ s. s =?= "/") p.at_path ∙ other in
      let fifth : is_unauthorized token r.authorization ≡ false =
        ap (is_unauthorized token) p.with_token ∙ is_unauthorized-bearer token in
      rw (first, second, third, fourth, fifth)
        (ap with_cors (
          ap (λ a. after_redirect a w r m) (ap w.redirect p.at_path ∙ p.known)
          ∙ ap (λ q. handle (route q) w r m) p.at_path))

  handle_action-IsPosted :
      (action : ActionRequest → Outcome) → handle_action r m action ≡ serve_outcome (action input)
  unfolding handle_action
  handle_action-IsPosted action =
      let posted : (r.method =?= "POST") ≡ true = ap (λ s. s =?= "POST") p.posted in
      rw posted (ap (run_action m action) p.carries)

-- The two actions that decide an approval.
pub data Verdict : Type 0 where
  approving rejecting : Verdict

abbrev pub verdict_path : Verdict → String
verdict_path approving = "/api/v1/actions/approve"
verdict_path rejecting = "/api/v1/actions/reject"

abbrev pub verdict_name : Verdict → String
verdict_name approving = "approve"
verdict_name rejecting = "reject"

-- The decision that the App Server is sent.
abbrev pub decision : Verdict → ActionRequest → String
decision approving input = if input.for_session then "acceptForSession" else "accept"
decision rejecting input = if input.cancel_turn then "cancel" else "decline"

abbrev verdict_outcome : World → Verdict → ActionRequest → Monitor → Outcome
verdict_outcome w v input m =
    resolve_approval w.env w.now w.reply w.meanwhile (verdict_name v) input.request_id
      input.thread_id input.turn_id (decision v input) m

-- The request's outcome is in the answer.
abbrev pub IsSettled : Served → Outcome → Type 0
IsSettled served outcome =
    (served.monitor ≡ outcome.monitor)
    × (served.sent ≡ outcome.sent)
    × HasStatus outcome.result served.response.status

IsSettled-serve_outcome :
    (served : Served) (outcome : Outcome)
    → served ≡ with_cors (serve_outcome outcome)
    → IsSettled served outcome
IsSettled-serve_outcome served outcome e =
    subst (λ s. IsSettled s outcome) (sym e) (refl, refl, action_response-HasStatus outcome.result)

serve-verdict :
    (token : List ℕ) (w : World) (r : HttpRequest) (m : Monitor) (v : Verdict)
    (input : ActionRequest)
    → IsPosted token w r (verdict_path v) input
    → serve token w r m ≡ with_cors (serve_outcome (verdict_outcome w v input m))
unfolding route handle handle_approve handle_reject has_prefix lookup
serve-verdict token w r m approving input p =
    serve-IsPosted token w r m (verdict_path approving) input p refl refl
    ∙ ap with_cors (handle_action-IsPosted token w r m (verdict_path approving) input p _)
serve-verdict token w r m rejecting input p =
    serve-IsPosted token w r m (verdict_path rejecting) input p refl refl
    ∙ ap with_cors (handle_action-IsPosted token w r m (verdict_path rejecting) input p _)

-- A POST with the token to the path of either verdict does what `Approve` and `Reject` promise: it is
-- refused with the state as it was, or sends the App Server that asked exactly its one decision. The
-- status tells which: 200 if the App Server took the decision, 404 for a request that is not pending,
-- 409 for one that is not the caller's or not theirs to answer or a decision that is not offered, and
-- 502 if the App Server's client failed.
pub serve-Resolution :
    (token : List ℕ) (w : World) (r : HttpRequest) (m : Monitor) (v : Verdict)
    (input : ActionRequest)
    → IsPosted token w r (verdict_path v) input
    → (outcome : Outcome) × Resolution w.meanwhile m "approval"
        (IsOffered (decision v input))
        (decision_payload (decision v input))
        (done (verdict_name v) input.request_id input.thread_id input.turn_id)
        w.reply
        outcome
      × IsSettled (serve token w r m) outcome
serve-Resolution token w r m v input p = (
  verdict_outcome w v input m,
  resolve_approval-Resolution w.meanwhile m w.env w.now w.reply (verdict_name v) input.request_id
      input.thread_id input.turn_id (decision v input),
  IsSettled-serve_outcome (serve token w r m) (verdict_outcome w v input m)
      (serve-verdict token w r m v input p),
)
