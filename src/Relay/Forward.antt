-- ===== src/Relay/Forward.antt =====
-- `Forward` of agent/internal/hookrelay/relay.go, and what agent/internal/httpapi/server.go does with the
-- request that it sends.
use Prim.Native.String
use codex_ha_monitor.Prelude.{
  ℕ, String, ◌||◌, ◌++◌, List, ltb, if◌then◌else◌, Option, none, some, Result, ok, err, ◌≡◌, refl,
  sym, subst, ap, [], lookup,
}
use codex_ha_monitor.Text.{has_prefix}
use codex_ha_monitor.Monitor.State.{Monitor, HookEvent, HookResult}
use codex_ha_monitor.Monitor.RecordHook.{HookError, record_hook}
use codex_ha_monitor.Http.Messages.{HttpRequest, ActionRequest, World, Served, hook_recorded}
use codex_ha_monitor.Http.Actions.{handle_codex_hook, run_hook, hook_served}
use codex_ha_monitor.Http.Server.{
  bearer, route, handle, after_redirect, serve_mux, authenticate, with_cors, serve,
}
use codex_ha_monitor.Http.Access.{is_unauthorized-bearer}

-- The request of `Forward`, as the endpoint's server reads it: `path` is the path of the endpoint, and
-- the other two are what the first mebibyte of the hook's input decodes to.
pub forward_request :
    List ℕ → String → Result String ActionRequest → Result String HookEvent → HttpRequest
forward_request token path action_json hook_json = record {
  method = "POST";
  path = path;
  query = λ name. "";
  authorization = bearer ++ token;
  last_event_id = "";
  action_json = action_json;
  hook_json = hook_json;
}

-- What `Forward` returns: the error of building or sending the request, or one for a status that is no
-- success.
unfoldable forward_result : Option String → Option String → ℕ → String → Option String
forward_result (some e) sent status text = some e
forward_result none (some e) status text = some e
forward_result none none status text =
    if ltb status 200 || ltb 299 status
    then some (String.◌++◌ "hook endpoint returned " text)
    else none

abbrev hook_path : String
hook_path = "/api/v1/hooks/codex"

-- The answer that follows from what `RecordHook` returns, with the state that it leaves.
abbrev pub Recorded : Monitor → Result HookError (Monitor × HookResult) → Served → Type 0
Recorded m (err e) s = (s.monitor ≡ m) × (s.response.status ≡ 400)
Recorded m (ok (after, result)) s =
    (s.monitor ≡ after) × (s.response.status ≡ 200) × (s.response.body ≡ hook_recorded result)

-- What becomes of a hook that the server decodes to an event, or does not decode.
abbrev pub IsRecorded : World → Monitor → Result String HookEvent → Served → Type 0
IsRecorded w m (err e) s = (s.monitor ≡ m) × (s.response.status ≡ 400)
IsRecorded w m (ok event) s = Recorded m (record_hook w.env w.now event m) s

forward_request-run_hook :
    (token : List ℕ) (w : World) (m : Monitor) (action_json : Result String ActionRequest)
    (hook_json : Result String HookEvent)
    → w.redirect "/api/v1/hooks/codex" ≡ none
    → serve token w (forward_request token "/api/v1/hooks/codex" action_json hook_json) m
      ≡ with_cors (run_hook w m hook_json)
unfolding serve authenticate serve_mux forward_request handle handle_codex_hook route lookup
    has_prefix
forward_request-run_hook token w m action_json hook_json known =
    let r = forward_request token "/api/v1/hooks/codex" action_json hook_json in
    rw (is_unauthorized-bearer token) (ap (λ a. with_cors (after_redirect a w r m)) known)

hook_served-Recorded :
    (m : Monitor) (r : Result HookError (Monitor × HookResult))
    → ((with_cors (hook_served m r)).sent ≡ []) × Recorded m r (with_cors (hook_served m r))
hook_served-Recorded m (err e) = (refl, (refl, refl))
hook_served-Recorded m (ok (after, result)) = (refl, (refl, refl, refl))

run_hook-IsRecorded :
    (w : World) (m : Monitor) (hook_json : Result String HookEvent)
    → ((with_cors (run_hook w m hook_json)).sent ≡ [])
      × IsRecorded w m hook_json (with_cors (run_hook w m hook_json))
run_hook-IsRecorded w m (err e) = (refl, (refl, refl))
run_hook-IsRecorded w m (ok event) = hook_served-Recorded m (record_hook w.env w.now event m)

-- A hook that is forwarded with the agent's token to the path of the default endpoint passes the
-- authorisation, where `ServeMux` does not redirect that path, and no App Server is called. One that
-- decodes leaves the state that `RecordHook` leaves and is answered with its result and 200; one that
-- does not, or that `RecordHook` refuses, leaves the state alone and is answered with 400.
pub forward_request-serve :
    (token : List ℕ) (w : World) (m : Monitor) (action_json : Result String ActionRequest)
    (hook_json : Result String HookEvent)
    → w.redirect "/api/v1/hooks/codex" ≡ none
    → let served =
        serve token w (forward_request token "/api/v1/hooks/codex" action_json hook_json) m in
      (served.sent ≡ []) × IsRecorded w m hook_json served
forward_request-serve token w m action_json hook_json known =
    subst (λ s. (s.sent ≡ []) × IsRecorded w m hook_json s)
      (sym (forward_request-run_hook token w m action_json hook_json known))
      (run_hook-IsRecorded w m hook_json)
