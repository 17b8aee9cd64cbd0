-- ===== src/Monitor/Control.antt =====
-- agent/internal/monitor/control.go: the requests of the App Server, and the actions that answer
-- them. The App Server's client is outside: an action takes its reply, and yields what it sent.
mod Incoming
unfoldable pub use Incoming.*
pub mod Lookup
pub mod Recorded
pub mod Asked
pub mod Answer
pub mod Interrupt
use codex_ha_monitor.Prelude.{
  ℕ, ◌+◌, ◌%◌, ◌^◌, String, Bool, true, false, ◌&&◌, ◌||◌, not, List, [], ◌∷◌, map, length, keep_if,
  any, ltb, ◌==◌, ◌=?=◌, if◌then◌else◌, lookup, insert, delete, Option, some, none, Result, ok, err,
}
use codex_ha_monitor.Text.{trim_space}
use codex_ha_monitor.Json.{Json, text, object, member, stop, array, from_list, Members}
use codex_ha_monitor.Model.Types.{Time, Thread, PendingRequest, idle}
use codex_ha_monitor.Monitor.State.{PendingControl, Monitor, Env}
use codex_ha_monitor.Monitor.Requests.{next_request_id}
use codex_ha_monitor.Monitor.Events.{prepare_live_event}
use codex_ha_monitor.Monitor.Rebuild.{rebuild}

pub record ActionResult : Type 0 where
  pub ok_flag : Bool
  pub action : String
  pub request_id : String
  pub thread_id : String
  pub turn_id : String

-- The errors that a caller tells apart; `client_error` is the App Server client's own.
pub data ActionError : Type 0 where
  request_not_found request_conflict not_controllable no_app_server : ActionError
  client_error : String → ActionError

-- A response or a request that was written to an App Server.
pub data Call : Type 0 where
  respond : ℕ → String → Json → Call
  request : ℕ → String → Json → Call

-- An action leaves a state, what was sent, and a result.
pub record Outcome : Type 0 where
  pub monitor : Monitor
  pub sent : List Call
  pub result : Result ActionError ActionResult

abbrev pub refuse : Monitor → ActionError → Outcome
refuse m e = record { monitor = m; sent = []; result = err e }

-- `lookupPending`
pub lookup_pending : Monitor → String → String → String → String → Result ActionError PendingControl
lookup_pending m request_id thread_id turn_id request_type =
    elim (lookup request_id m.pending_requests) [
      | none ↦ err request_not_found
      | some pending ↦
          if not (pending.request.thread_id =?= thread_id)
            || not (pending.request.turn_id =?= turn_id)
            || not (pending.request.request_type =?= request_type)
          then err request_conflict
          else if not pending.request.controllable
          then err not_controllable
          else ok pending
    ]

abbrev pub is_same_pending : Option PendingControl → PendingControl → Bool
is_same_pending none expected = false
is_same_pending (some pending) expected = pending.address == expected.address

-- `finishPending`: the request is deleted if it is still the one that was answered.
unfoldable pub finish_pending : Env → Time → String → PendingControl → Monitor → Monitor
finish_pending env now request_id expected m = rebuild env now (
    if is_same_pending (lookup request_id m.pending_requests) expected
    then record m { pending_requests = delete request_id m.pending_requests }
    else m)

-- `contains`
abbrev pub contains : List String → String → Bool
contains values target = any (λ value. value =?= target) values

abbrev pub done : String → String → String → String → ActionResult
done action request_id thread_id turn_id = record {
  ok_flag = true;
  action = action;
  request_id = request_id;
  thread_id = thread_id;
  turn_id = turn_id;
}

-- What a client answers to a call: `none` if it took it, or its error.
abbrev pub Reply : Type 0
Reply = Option String

-- The tail that `resolveApproval` and `SubmitInput` share: answer, and delete the request. The lock
-- is free while the answer is written: `meanwhile` is what other goroutines do to the state.
pub answer :
    Env
    → Time
    → Reply
    → (Monitor → Monitor)
    → PendingControl
    → Json
    → ActionResult
    → Monitor
    → Outcome
answer env now reply meanwhile pending payload result m =
    let call = respond pending.client pending.app_server_id payload in
    elim reply [
      | some e ↦ record { monitor = meanwhile m; sent = call ∷ []; result = err (client_error e) }
      | none ↦ record {
        monitor = finish_pending env now result.request_id pending (meanwhile m);
        sent = call ∷ [];
        result = ok result;
      }
    ]

abbrev pub decision_payload : String → Json
decision_payload decision = object (member "decision" (text decision) stop)

-- `resolveApproval`
pub resolve_approval :
    Env
    → Time
    → Reply
    → (Monitor → Monitor)
    → String
    → String
    → String
    → String
    → String
    → Monitor
    → Outcome
resolve_approval env now reply meanwhile action request_id thread_id turn_id decision m =
    elim (lookup_pending m request_id thread_id turn_id "approval") [
      | err e ↦ refuse m e
      | ok pending ↦
          if ltb 0 (length pending.request.available_decisions)
            && not (contains pending.request.available_decisions decision)
          then refuse m request_conflict
          else answer env now reply meanwhile pending (decision_payload decision)
              (done action request_id thread_id turn_id) m
    ]

abbrev pub approve :
    Env → Time → Reply → (Monitor → Monitor) → String → String → String → Bool → Monitor → Outcome
approve env now reply meanwhile request_id thread_id turn_id for_session m =
    resolve_approval env now reply meanwhile "approve" request_id thread_id turn_id
      (if for_session then "acceptForSession" else "accept") m

abbrev pub reject :
    Env → Time → Reply → (Monitor → Monitor) → String → String → String → Bool → Monitor → Outcome
reject env now reply meanwhile request_id thread_id turn_id cancel_turn m =
    resolve_approval env now reply meanwhile "reject" request_id thread_id turn_id
      (if cancel_turn then "cancel" else "decline") m

-- The answers of `SubmitInput`: a question and what was answered.
abbrev pub Answers : Type 0
Answers = List (String × List String)

abbrev is_bad_answer : String × List String → Bool
is_bad_answer (key, values) = (key =?= "") || (length values == 0)

abbrev answer_members : Answers → Members
answer_members [] = stop
answer_members ((key, values) ∷ rest) =
    member key (object (member "answers" (array (from_list (map text values))) stop))
      (answer_members rest)

abbrev pub answers_payload : Answers → Json
answers_payload answers = object (member "answers" (object (answer_members answers)) stop)

-- `SubmitInput`
pub submit_input :
    Env
    → Time
    → Reply
    → (Monitor → Monitor)
    → String
    → String
    → String
    → Answers
    → Monitor
    → Outcome
submit_input env now reply meanwhile request_id thread_id turn_id answers m =
    elim (lookup_pending m request_id thread_id turn_id "input") [
      | err e ↦ refuse m e
      | ok pending ↦
          if length answers == 0 || any is_bad_answer answers
          then refuse m request_conflict
          else answer env now reply meanwhile pending (answers_payload answers)
              (done "submit_input" request_id thread_id turn_id) m
    ]

-- What an interrupt sets on the App Server's thread.
abbrev pub interrupt_thread : String → String → Time → Thread → Thread
interrupt_thread thread_id turn_id now t =
    if t.id =?= thread_id
    then record t {
      turn_id = turn_id;
      last_turn_status = "interrupted";
      state = idle;
      state_source = "app_server_control";
      state_confidence = "exact";
      updated_at = now;
    }
    else t

abbrev pub is_of_turn : String → String → PendingRequest → Bool
is_of_turn thread_id turn_id r = (r.thread_id =?= thread_id) && (r.turn_id =?= turn_id)

abbrev pub interrupt_payload : String → String → Json
interrupt_payload thread_id turn_id =
    object (member "threadId" (text thread_id) (member "turnId" (text turn_id) stop))

-- The state under the lock after the App Server took the interrupt, before the rebuild.
unfoldable pub settle_interrupt : String → String → Time → Monitor → Monitor
settle_interrupt thread_id turn_id now m = record m {
  app_threads = map (interrupt_thread thread_id turn_id now) m.app_threads;
  pending_requests =
      keep_if (λ e. not (is_of_turn thread_id turn_id e.1.request)) m.pending_requests;
}

-- `Interrupt` with the client that it has read.
pub send_interrupt :
    Env → Time → Reply → (Monitor → Monitor) → String → String → Option ℕ → Monitor → Outcome
send_interrupt env now reply meanwhile thread_id turn_id none m = refuse m no_app_server
send_interrupt env now reply meanwhile thread_id turn_id (some client) m =
    let call = request client "turn/interrupt" (interrupt_payload thread_id turn_id) in
    elim reply [
      | some e ↦ record { monitor = meanwhile m; sent = call ∷ []; result = err (client_error e) }
      | none ↦ record {
        monitor = rebuild env now (settle_interrupt thread_id turn_id now (meanwhile m));
        sent = call ∷ [];
        result = ok (done "interrupt" "" thread_id turn_id);
      }
    ]

-- `Interrupt`
pub interrupt : Env → Time → Reply → (Monitor → Monitor) → String → String → Monitor → Outcome
interrupt env now reply meanwhile thread_id turn_id m =
    if (thread_id =?= "") || (turn_id =?= "")
    then refuse m request_conflict
    else send_interrupt env now reply meanwhile thread_id turn_id m.client m
