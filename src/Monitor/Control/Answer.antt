-- ===== src/Monitor/Control/Answer.antt =====
-- `Approve`, `Reject` and `SubmitInput` of agent/internal/monitor/control.go: what is sent to an
-- App Server, and what becomes of the request.
use codex_ha_monitor.Prelude.{
  String, Bool, true, false, ◌&&◌, ◌||◌, not, some, none, Option-cases, Bool-cases, lookup, delete,
  lookup-delete, Result, ok, err, ◌≡◌, ◌≢◌, ◌⊎◌, arith, eq_iff, inl, inr, refl, subst, List, [],
  ◌∷◌, length, any, All, ltb, ◌==◌, if◌then◌else◌,
}
use codex_ha_monitor.Json.{Json}
use codex_ha_monitor.Model.Types.{Time, PendingRequest}
use codex_ha_monitor.Monitor.State.{Monitor, Env, PendingControl}
use codex_ha_monitor.Monitor.Rebuild.Keeps.{rebuild-SameSources}
use codex_ha_monitor.Monitor.Control.{
  ActionError, ActionResult, Outcome, Reply, respond, refuse, answer, Answers, answers_payload,
  decision_payload, done, contains, is_bad_answer, lookup_pending, finish_pending, is_same_pending,
  resolve_approval, submit_input, request_conflict, client_error,
}
use codex_ha_monitor.Monitor.Control.Lookup.{Finding, lookup_pending-Finding}

-- The pending requests after a request was finished: it is gone if it is still the one that was
-- answered, by its pointer, and no other request is touched.
pub record Finished (id : String) (p : PendingControl) (before after : Monitor) : Type 0 where
  pub own_gone :
      ((q : PendingControl) → lookup id before.pending_requests ≡ some q → q.address ≡ p.address)
      → lookup id after.pending_requests ≡ none
  pub others_kept :
      (k : String) → k ≢ id → lookup k after.pending_requests ≡ lookup k before.pending_requests
  pub newer_kept :
      (q : PendingControl)
      → lookup id before.pending_requests ≡ some q
      → q.address ≢ p.address
      → lookup id after.pending_requests ≡ some q

pub finish_pending-pending_requests :
    (env : Env) (now : Time) (id : String) (p : PendingControl) (m : Monitor)
    → (finish_pending env now id p m).pending_requests ≡ (
        if is_same_pending (lookup id m.pending_requests) p
        then delete id m.pending_requests
        else m.pending_requests)
unfolding finish_pending
finish_pending-pending_requests env now id p m =
    let removed : Monitor = record m { pending_requests = delete id m.pending_requests } in
    elim (Bool-cases (is_same_pending (lookup id m.pending_requests) p)) [
      | inl b ↦ rw (b, finish_pending) ((rebuild-SameSources env now removed).same_pending)
      | inr b ↦ rw (b, finish_pending) ((rebuild-SameSources env now m).same_pending)
    ]

finish_pending-Finished :
    (env : Env) (now : Time) (id : String) (p : PendingControl) (m : Monitor)
    → Finished id p m (finish_pending env now id p m)
finish_pending-Finished env now id p m =
    let after = finish_pending-pending_requests env now id p m in
    let left = lookup-delete id id m.pending_requests in
    record {
      own_gone = λ same. elim (Option-cases (lookup id m.pending_requests)) [
        | inl gone ↦ rw (after, gone) gone
        | inr (q, here) ↦ rw after (ground (arith, same q here, eq_iff id id))
      ];
      others_kept =
          λ k n. rw after (ground (arith, eq_iff id k, lookup-delete id k m.pending_requests));
      newer_kept = λ q here n. rw (after, here) (ground (arith));
    }

-- Whether a value is in a list, as a proposition.
abbrev pub IsIn : String → List String → Type 0
IsIn x [] = ⊥
IsIn x (y ∷ ys) = (y ≡ x) ⊎ IsIn x ys

contains-IsIn : (x : String) (ys : List String) → contains ys x ≡ true → IsIn x ys
contains-IsIn x [] h = cc
contains-IsIn x (y ∷ ys) h = ground (arith, eq_iff y x, contains-IsIn x ys)

pub IsIn-contains : (x : String) (ys : List String) → IsIn x ys → contains ys x ≡ true
IsIn-contains x [] h = absurd h
IsIn-contains x (y ∷ ys) (inl e) = ground (arith, eq_iff y x)
IsIn-contains x (y ∷ ys) (inr h) = ground (arith, IsIn-contains x ys h)

-- A decision that the App Server offers; where it lists none, any is.
abbrev pub IsOffered : String → PendingRequest → Type 0
IsOffered decision r = (length r.available_decisions ≡ 0) ⊎ IsIn decision r.available_decisions

-- The test of `resolveApproval` that refuses a decision.
abbrev is_not_offered : String → PendingRequest → Bool
is_not_offered decision r =
    ltb 0 (length r.available_decisions) && not (contains r.available_decisions decision)

is_not_offered-IsOffered :
    (decision : String) (r : PendingRequest)
    → is_not_offered decision r ≡ false
    → IsOffered decision r
is_not_offered-IsOffered decision r h = ground (arith, contains-IsIn decision r.available_decisions)

not-IsOffered :
    (decision : String) (r : PendingRequest)
    → is_not_offered decision r ≡ true
    → ¬ IsOffered decision r
not-IsOffered decision r h (inl e) = ground arith
not-IsOffered decision r h (inr e) = ground (arith, IsIn-contains decision r.available_decisions e)

-- Answers to at least one question, each with a question and a value.
abbrev pub IsComplete : Answers → Type 0
IsComplete answers = (length answers ≢ 0) × All (λ a. (a.0 ≢ "") × (length a.1 ≢ 0)) answers

not_bad-All :
    (answers : Answers)
    → any is_bad_answer answers ≡ false
    → All (λ a. (a.0 ≢ "") × (length a.1 ≢ 0)) answers
not_bad-All [] h = tt
not_bad-All ((key, values) ∷ rest) h = ground (arith, eq_iff key "", not_bad-All rest)

bad-All :
    (answers : Answers)
    → any is_bad_answer answers ≡ true
    → ¬ All (λ a. (a.0 ≢ "") × (length a.1 ≢ 0)) answers
bad-All [] h a = cc
bad-All ((key, values) ∷ rest) h a = ground (arith, eq_iff key "", bad-All rest)

-- The test of `SubmitInput` that refuses the answers.
abbrev is_incomplete : Answers → Bool
is_incomplete answers = length answers == 0 || any is_bad_answer answers

is_incomplete-IsComplete : (answers : Answers) → is_incomplete answers ≡ false → IsComplete answers
is_incomplete-IsComplete answers h = ground (arith, not_bad-All answers)

incomplete : (answers : Answers) → is_incomplete answers ≡ true → ¬ IsComplete answers
incomplete answers h (n, a) = elim (Bool-cases (any is_bad_answer answers)) [
  | inl b ↦ bad-All answers b a
  | inr b ↦ ground arith
]

module _ (meanwhile : Monitor → Monitor) (m : Monitor) where
  -- How an action on a pending request ends, by what the App Server's client replied. `Proper` is
  -- what the action asks of its own arguments.
  pub data Resolution (type : String) (Proper : PendingRequest → Type 0) (payload : Json)
      (wanted : ActionResult) : Reply → Outcome → Type 0 where
    refused :
        (reply : Reply) (e : ActionError)
        → Finding m wanted.request_id wanted.thread_id wanted.turn_id type (err e)
        → Resolution type Proper payload wanted reply (refuse m e)
    improper :
        (reply : Reply) (p : PendingControl)
        → Finding m wanted.request_id wanted.thread_id wanted.turn_id type (ok p)
        → ¬ Proper p.request
        → Resolution type Proper payload wanted reply (refuse m request_conflict)
    failed :
        (p : PendingControl) (e : String)
        → Finding m wanted.request_id wanted.thread_id wanted.turn_id type (ok p)
        → Proper p.request
        → Resolution type Proper payload wanted (some e) (record {
          monitor = meanwhile m;
          sent = respond p.client p.app_server_id payload ∷ [];
          result = err (client_error e);
        })
    answered :
        (p : PendingControl) (after : Monitor)
        → Finding m wanted.request_id wanted.thread_id wanted.turn_id type (ok p)
        → Proper p.request
        → Finished wanted.request_id p (meanwhile m) after
        → Resolution type Proper payload wanted none (record {
          monitor = after;
          sent = respond p.client p.app_server_id payload ∷ [];
          result = ok wanted;
        })

  answer-Resolution :
      (env : Env) (now : Time) (type : String) (Proper : PendingRequest → Type 0) (payload : Json)
      (wanted : ActionResult) (p : PendingControl)
      → Finding m wanted.request_id wanted.thread_id wanted.turn_id type (ok p)
      → Proper p.request
      → (reply : Reply)
      → Resolution type Proper payload wanted reply
          (answer env now reply meanwhile p payload wanted m)
  unfolding answer
  answer-Resolution env now type Proper payload wanted p found proper none =
      answered p (finish_pending env now wanted.request_id p (meanwhile m)) found proper
        (finish_pending-Finished env now wanted.request_id p (meanwhile m))
  answer-Resolution env now type Proper payload wanted p found proper (some e) =
      failed p e found proper

  -- `Approve` and `Reject` refuse, with nothing sent and the state as it was, a request that is not
  -- pending, not the caller's or not theirs to answer, and a decision that is not offered. Else
  -- exactly one response, with that decision, goes to the App Server that asked and under its own
  -- id; unless the client fails, the request is then deleted if it is still that one, and no other
  -- is touched, whatever happens meanwhile.
  pub resolve_approval-Resolution :
      (env : Env) (now : Time) (reply : Reply) (action id thread turn decision : String)
      → Resolution "approval"
          (IsOffered decision)
          (decision_payload decision)
          (done action id thread turn)
          reply
          (resolve_approval env now reply meanwhile action id thread turn decision m)
  unfolding resolve_approval
  resolve_approval-Resolution env now reply action id thread turn decision =
      go (lookup_pending m id thread turn "approval") refl
    where
      go :
          (r : Result ActionError PendingControl)
          → lookup_pending m id thread turn "approval" ≡ r
          → Resolution "approval"
              (IsOffered decision)
              (decision_payload decision)
              (done action id thread turn)
              reply
              (resolve_approval env now reply meanwhile action id thread turn decision m)
      go (err e) h =
          rw (h, resolve_approval)
            (refused reply e (
              subst (Finding m id thread turn "approval") h
                (lookup_pending-Finding m id thread turn "approval")))
      go (ok p) h =
          let found =
            subst (Finding m id thread turn "approval") h
              (lookup_pending-Finding m id thread turn "approval") in
          elim (Bool-cases (is_not_offered decision p.request)) [
            | inl b ↦
                rw (h, resolve_approval, b)
                  (improper reply p found (not-IsOffered decision p.request b))
            | inr b ↦
                rw (h, resolve_approval, b)
                  (answer-Resolution env now "approval" (IsOffered decision)
                    (decision_payload decision) (done action id thread turn) p found
                    (is_not_offered-IsOffered decision p.request b) reply)
          ]

  -- `SubmitInput` refuses, with nothing sent and the state as it was, a request that is not pending,
  -- not the caller's or not theirs to answer, and answers that lack a question or a value. Else
  -- exactly one response, with those answers, goes to the App Server that asked and under its own
  -- id; unless the client fails, the request is then deleted if it is still that one, and no other
  -- is touched, whatever happens meanwhile.
  pub submit_input-Resolution :
      (env : Env) (now : Time) (reply : Reply) (id thread turn : String) (answers : Answers)
      → Resolution "input"
          (λ r. IsComplete answers)
          (answers_payload answers)
          (done "submit_input" id thread turn)
          reply
          (submit_input env now reply meanwhile id thread turn answers m)
  unfolding submit_input
  submit_input-Resolution env now reply id thread turn answers =
      go (lookup_pending m id thread turn "input") refl
    where
      go :
          (r : Result ActionError PendingControl)
          → lookup_pending m id thread turn "input" ≡ r
          → Resolution "input"
              (λ r. IsComplete answers)
              (answers_payload answers)
              (done "submit_input" id thread turn)
              reply
              (submit_input env now reply meanwhile id thread turn answers m)
      go (err e) h =
          rw (h, submit_input)
            (refused reply e (
              subst (Finding m id thread turn "input") h
                (lookup_pending-Finding m id thread turn "input")))
      go (ok p) h =
          let found =
            subst (Finding m id thread turn "input") h
              (lookup_pending-Finding m id thread turn "input") in
          elim (Bool-cases (is_incomplete answers)) [
            | inl b ↦ rw (h, submit_input, b) (improper reply p found (incomplete answers b))
            | inr b ↦
                rw (h, submit_input, b)
                  (answer-Resolution env now "input" (λ r. IsComplete answers)
                    (answers_payload answers) (done "submit_input" id thread turn) p found
                    (is_incomplete-IsComplete answers b) reply)
          ]
