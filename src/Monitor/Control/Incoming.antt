-- ===== src/Monitor/Control/Incoming.antt =====
-- `recordServerRequest` of agent/internal/monitor/control.go: the requests of the App Server.
use codex_ha_monitor.Prelude.{
  ℕ, ◌+◌, ◌%◌, ◌^◌, String, Bool, true, false, ◌||◌, List, [], ◌∷◌, ◌=?=◌, if◌then◌else◌, lookup,
  insert, Option, some, none,
}
use codex_ha_monitor.Text.{trim_space}
use codex_ha_monitor.Json.{Json, text}
use codex_ha_monitor.Model.Types.{Time}
use codex_ha_monitor.Monitor.State.{Monitor, Env}
use codex_ha_monitor.Monitor.Requests.{next_request_id}
use codex_ha_monitor.Monitor.Events.{prepare_live_event}
use codex_ha_monitor.Monitor.Rebuild.{rebuild}

-- What encoding/json makes of a request's parameters: the common fields, and the two lists that
-- some methods read (`none` where they do not decode).
pub record RequestParams : Type 0 where
  pub thread_id : String
  pub turn_id : String
  pub item_id : String
  pub cwd : String
  pub reason : String
  pub command : String
  pub available : Option (List Json)
  pub questions : Option (List (List (String × Json)))

-- What the `switch` on the method decides.
pub record RequestKind : Type 0 where
  pub request_type : String
  pub controllable : Bool
  pub summary : String
  pub questions : List (List (String × Json))
  pub decisions : List String

-- The decisions that are texts.
pub text_decisions : List Json → List String
text_decisions [] = []
text_decisions (text s ∷ js) = s ∷ text_decisions js
text_decisions (_ ∷ js) = text_decisions js

abbrev pub as_text : Option Json → String
as_text (some (text s)) = s
as_text _ = ""

abbrev first_question : String → List (List (String × Json)) → String
first_question summary [] = summary
first_question summary (q ∷ _) = as_text (lookup "question" q)

abbrev or_empty {ℓ} : {A : Type ℓ} → Option (List A) → List A
or_empty none = []
or_empty (some xs) = xs

abbrev input_kind : String → Option (List (List (String × Json))) → RequestKind
input_kind summary none = record {
  request_type = "input";
  controllable = true;
  summary = summary;
  questions = [];
  decisions = [];
}
input_kind summary (some qs) = record {
  request_type = "input";
  controllable = true;
  summary = first_question summary qs;
  questions = qs;
  decisions = [];
}

abbrev plain_kind : String → Bool → String → List String → RequestKind
plain_kind ty controllable summary decisions = record {
  request_type = ty;
  controllable = controllable;
  summary = summary;
  questions = [];
  decisions = decisions;
}

-- The `switch`; a method that it does not name is ignored.
unfoldable pub request_kind : String → RequestParams → Option RequestKind
unfolding text_decisions
request_kind method p =
    let reason = trim_space p.reason in
    if method =?= "item/commandExecution/requestApproval"
    then some (
        plain_kind "approval" true (if p.command =?= "" then reason else p.command)
          (text_decisions (or_empty p.available)))
    else if method =?= "item/fileChange/requestApproval"
    then some (
        plain_kind "approval" true reason
          ("accept" ∷ "acceptForSession" ∷ "decline" ∷ "cancel" ∷ []))
    else if method =?= "item/tool/requestUserInput"
    then some (input_kind reason p.questions)
    else if method =?= "item/permissions/requestApproval"
    then some (plain_kind "approval" false reason [])
    else if method =?= "mcpServer/elicitation/request"
    then some (plain_kind "input" false reason [])
    else none

-- The new request, under the lock and before the rebuild.
unfoldable pub store_request :
    ℕ → String → String → RequestParams → RequestKind → Time → Monitor → Monitor
store_request client app_server_id method p kind now m' =
    let m = prepare_live_event m' in
    let sequence = (m.request_sequence + 1) % 2 ^ 64 in
    let id = next_request_id sequence now in
    record m {
      request_sequence = sequence;
      pending_requests =
          insert id
            (record {
              address = sequence;
              request = record {
                id = id;
                request_type = kind.request_type;
                method = method;
                thread_id = p.thread_id;
                turn_id = p.turn_id;
                item_id = p.item_id;
                summary = kind.summary;
                cwd = p.cwd;
                questions = kind.questions;
                available_decisions = kind.decisions;
                controllable = kind.controllable;
                created_at = now;
              };
              client = client;
              app_server_id = app_server_id;
            })
            m.pending_requests;
    }

-- `recordServerRequest`; `none` for parameters that do not decode.
unfoldable pub record_server_request :
    Env → Time → ℕ → String → String → Option RequestParams → Monitor → Monitor
record_server_request env now client app_server_id method none m = m
record_server_request env now client app_server_id method (some p) m =
    if (app_server_id =?= "") || (p.thread_id =?= "") then m else elim (request_kind method p) [
      | none ↦ m
      | some kind ↦ rebuild env now (store_request client app_server_id method p kind now m)
    ]
