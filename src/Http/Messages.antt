-- ===== src/Http/Messages.antt =====
-- What the handlers of agent/internal/httpapi/server.go take and answer. What net/http and
-- encoding/json decode of a request is in its fields.
use codex_ha_monitor.Prelude.{ℕ, String, Bool, List, [], ◌∷◌, Option, Result}
use codex_ha_monitor.Json.{JsonMap}
use codex_ha_monitor.Model.Types.{
  Time, Thread, PendingRequest, AgentInfo, CodexCliInfo, AppServerInfo, Snapshot, TaskEvent,
}
use codex_ha_monitor.Prelude.{ℤ}
use codex_ha_monitor.Monitor.State.{Monitor, Env, HookEvent, HookResult}
use codex_ha_monitor.Monitor.Control.{Answers, ActionResult, Call, Reply}

-- `actionRequest`
pub record ActionRequest : Type 0 where
  pub request_id : String
  pub thread_id : String
  pub turn_id : String
  pub for_session : Bool
  pub cancel_turn : Bool
  pub answer_text : String
  pub answers : Answers

-- A request: its query by name ("" where it has none), its headers `Authorization`, as bytes, and
-- `Last-Event-ID`, and what the first mebibyte of its body decodes to for either kind of handler.
pub record HttpRequest : Type 0 where
  pub method : String
  pub path : String
  pub query : String → String
  pub authorization : List ℕ
  pub last_event_id : String
  pub action_json : Result String ActionRequest
  pub hook_json : Result String HookEvent

-- The content of an answer.
pub data Body : Type 0 where
  nothing status_page stream_opened stream_blocked : Body
  plain : String → Body
  health : String → ℕ → Body
  readiness : Bool → String → Bool → ℤ → Body
  version_info : String → String → AgentInfo → CodexCliInfo → AppServerInfo → Body
  status_json : Snapshot → Body
  thread_list : String → Time → List Thread → Body
  usage_json rate_limits_json : JsonMap → Body
  usage_unavailable rate_limits_unavailable : Body
  request_list : List PendingRequest → Body
  action_result : ActionResult → Body
  hook_recorded : HookResult → Body

-- An answer, with the headers that the handlers themselves set.
pub record Response : Type 0 where
  pub status : ℕ
  pub headers : List (String × String)
  pub body : Body

-- The state after a request, what was written to an App Server, and the answer.
pub record Served : Type 0 where
  pub monitor : Monitor
  pub sent : List Call
  pub response : Response

-- What surrounds one request: the clock and the map orders, the App Server client's reply to the one
-- call that the request may make, what other goroutines do to the state before an action, and while
-- its call is written or a new channel waits for its snapshot, the number of a new channel, whether the connection can be flushed, what
-- `ServeMux` answers by itself to a path that is not clean, and what encoding/json prints.
pub record World : Type 0 where
  pub env : Env
  pub now : Time
  pub reply : Reply
  pub before : Monitor → Monitor
  pub meanwhile : Monitor → Monitor
  pub channel : ℕ
  pub can_flush : Bool
  pub redirect : String → Option Response
  pub print_event : TaskEvent → String
  pub print_snapshot : Snapshot → String

-- An answer that leaves the state alone and calls nobody.
abbrev pub reply_with : Monitor → Response → Served
reply_with m response = record { monitor = m; sent = []; response = response }

-- `writeJSON`
abbrev pub write_json : Body → Response
write_json body = record {
  status = 200;
  headers = ("Content-Type", "application/json; charset=utf-8") ∷ [];
  body = body;
}

-- `http.Error`
abbrev pub http_error : String → ℕ → Response
http_error message status = record { status = status; headers = []; body = plain message }

abbrev pub only_status : ℕ → Response
only_status status = record { status = status; headers = []; body = nothing }
