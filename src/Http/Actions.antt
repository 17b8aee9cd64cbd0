-- ===== src/Http/Actions.antt =====
-- The handlers of agent/internal/httpapi/server.go that change the state: the actions, and the hooks.
use Prim.Native.String
use codex_ha_monitor.Prelude.{
  ℕ, String, ◌&&◌, not, List, [], ◌∷◌, length, ◌==◌, ◌=?=◌, if◌then◌else◌, lookup, Result, ok, err,
}
use codex_ha_monitor.Json.{Json}
use codex_ha_monitor.Model.Types.{PendingRequest}
use codex_ha_monitor.Monitor.State.{Monitor, HookEvent, HookResult}
use codex_ha_monitor.Monitor.Requests.{pending_request_snapshot}
use codex_ha_monitor.Monitor.RecordHook.{
  HookError, event_name_required, session_id_required, record_hook,
}
use codex_ha_monitor.Monitor.Control.{
  Answers, ActionResult, ActionError, request_not_found, request_conflict, not_controllable,
  no_app_server, client_error, Outcome, as_text, approve, reject, submit_input, interrupt,
}
use codex_ha_monitor.Http.Messages.{
  ActionRequest, HttpRequest, Response, World, Served, plain, action_result, hook_recorded,
  reply_with, write_json, http_error,
}

-- The answer to a method other than POST.
abbrev pub method_not_allowed : Response
method_not_allowed = record {
  status = 405;
  headers = ("Allow", "POST") ∷ [];
  body = plain "method not allowed";
}

-- The errors' texts, in agent/internal/monitor/control.go.
abbrev pub error_message : ActionError → String
error_message request_not_found = "pending request not found"
error_message request_conflict = "pending request does not match thread or turn"
error_message not_controllable =
    "request is visible but not controllable through this app-server connection"
error_message no_app_server = "app-server is not connected"
error_message (client_error e) = e

abbrev pub error_status : ActionError → ℕ
error_status request_not_found = 404
error_status request_conflict = 409
error_status not_controllable = 409
error_status no_app_server = 503
error_status (client_error _) = 502

abbrev pub action_response : Result ActionError ActionResult → Response
action_response (err e) = http_error (error_message e) (error_status e)
action_response (ok result) = write_json (action_result result)

abbrev pub serve_outcome : Outcome → Served
serve_outcome outcome = record {
  monitor = outcome.monitor;
  sent = outcome.sent;
  response = action_response outcome.result;
}

-- `handleAction` on what the body decodes to.
abbrev pub run_action : Monitor → (ActionRequest → Outcome) → Result String ActionRequest → Served
run_action m action (err e) = reply_with m (http_error (String.◌++◌ "invalid action JSON: " e) 400)
run_action m action (ok input) = serve_outcome (action input)

-- `handleAction`
unfoldable pub handle_action : HttpRequest → Monitor → (ActionRequest → Outcome) → Served
handle_action r m action =
    if not (r.method =?= "POST")
    then reply_with m method_not_allowed
    else run_action m action r.action_json

unfoldable pub handle_approve : World → HttpRequest → Monitor → Served
unfolding handle_action
handle_approve w r m = handle_action r m (λ input.
    approve w.env w.now w.reply w.meanwhile input.request_id input.thread_id input.turn_id
      input.for_session m)

unfoldable pub handle_reject : World → HttpRequest → Monitor → Served
unfolding handle_action
handle_reject w r m = handle_action r m (λ input.
    reject w.env w.now w.reply w.meanwhile input.request_id input.thread_id input.turn_id
      input.cancel_turn m)

-- The id of the only question, if it is a text that is not empty.
abbrev pub only_question : List (List (String × Json)) → String
only_question (question ∷ []) = as_text (lookup "id" question)
only_question _ = ""

-- The loop over the pending requests: the last that fits sets the answers.
pub fill_answers : ActionRequest → List PendingRequest → Answers → Answers
fill_answers input [] answers = answers
fill_answers input (p ∷ rest) answers =
    let question = only_question p.questions in
    let filled = fill_answers input rest ((question, input.answer_text ∷ []) ∷ []) in
    let kept = fill_answers input rest answers in
    if (p.id =?= input.request_id) && not (question =?= "") then filled else kept

-- The answers that `handleSubmitInput` submits.
pub submitted_answers : World → ActionRequest → Monitor → Answers
unfolding fill_answers pending_request_snapshot
submitted_answers w input m =
    if length input.answers == 0 && not (input.answer_text =?= "")
    then fill_answers input (pending_request_snapshot w.env m) input.answers
    else input.answers

unfoldable pub handle_submit_input : World → HttpRequest → Monitor → Served
unfolding handle_action submitted_answers
handle_submit_input w r m = handle_action r m (λ input.
    submit_input w.env w.now w.reply w.meanwhile input.request_id input.thread_id input.turn_id
      (submitted_answers w input m) (w.before m))

unfoldable pub handle_interrupt : World → HttpRequest → Monitor → Served
unfolding handle_action
handle_interrupt w r m =
    handle_action r m
      (λ input. interrupt w.env w.now w.reply w.meanwhile input.thread_id input.turn_id m)

abbrev hook_message : HookError → String
hook_message event_name_required = "hook_event_name is required"
hook_message session_id_required = "session_id is required"

abbrev pub hook_served : Monitor → Result HookError (Monitor × HookResult) → Served
hook_served m (err e) = reply_with m (http_error (hook_message e) 400)
hook_served m (ok (after, result)) = reply_with after (write_json (hook_recorded result))

abbrev pub run_hook : World → Monitor → Result String HookEvent → Served
run_hook w m (err e) = reply_with m (http_error (String.◌++◌ "invalid hook JSON: " e) 400)
run_hook w m (ok event) = hook_served m (record_hook w.env w.now event m)

-- `handleCodexHook`
unfoldable pub handle_codex_hook : World → HttpRequest → Monitor → Served
unfolding record_hook
handle_codex_hook w r m =
    if not (r.method =?= "POST") then reply_with m method_not_allowed else run_hook w m r.hook_json
