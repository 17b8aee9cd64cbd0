-- ===== src/Monitor/Control/Asked.antt =====
-- From `recordServerRequest` to the actions of agent/internal/monitor/control.go: which recorded
-- requests an action can answer.
use Prim.Native.String
use codex_ha_monitor.Prelude.{
  ℕ, ◌+◌, ◌/◌, ◌-◌, ◌%◌, ◌^◌, String, true, false, ◌&&◌, not, List, [], ◌∷◌, length, ltb, Option,
  none, some, lookup, lookup-delete, delete, ok, err, if◌then◌else◌, ◌≡◌, ◌≢◌, ◌⊎◌, ◌∙◌, ap, sym,
  refl, subst, arith, eq_iff, inl, inr,
}
use codex_ha_monitor.Text.{format_uint}
use codex_ha_monitor.Json.{Json}
use codex_ha_monitor.Model.Types.{Time}
use codex_ha_monitor.Monitor.State.{Monitor, Env, PendingControl}
use codex_ha_monitor.Monitor.Requests.{next_request_id}
use codex_ha_monitor.Monitor.Control.{
  text_decisions, RequestParams, RequestKind, request_kind, record_server_request, lookup_pending,
  contains, done, ActionResult, ActionError, client_error, Reply, Outcome, respond, answer,
  decision_payload, resolve_approval, is_same_pending,
}
use codex_ha_monitor.Monitor.Control.Recorded.{asked, record_server_request_lem}
use codex_ha_monitor.Monitor.Control.Answer.{IsIn, IsIn-contains, finish_pending-pending_requests}

-- The id that is given out: the milliseconds since 1970 and the number in the sequence.
abbrev pub id_text : ℕ → Time → String
id_text sequence now = String.◌++◌ "req-" (
    String.◌++◌ (format_uint (now / 1_000_000 - 62_135_596_800_000))
      (String.◌++◌ "-" (format_uint sequence)))

-- The number of the next request: the counter has 64 bits.
abbrev pub next_sequence : Monitor → ℕ
next_sequence m = (m.request_sequence + 1) % 2 ^ 64

module _ (env : Env) (now : Time) (client : ℕ) (app_server_id method : String) (p : RequestParams)
    (m : Monitor) where
  recorded_lookup :
      (kind : RequestKind)
      → app_server_id ≢ ""
      → p.thread_id ≢ ""
      → request_kind method p ≡ some kind
      → lookup
          (id_text (next_sequence m) now)
          (record_server_request env now client app_server_id method (some p) m).pending_requests
        ≡ some (asked client app_server_id method p kind now (next_sequence m))
  unfolding next_request_id
  recorded_lookup kind named threaded known =
      let id = id_text (next_sequence m) now in
      record_server_request_lem env now client app_server_id method p kind m id named threaded known
      ∙ ground (arith, eq_iff id id)

lookup_pending-asked :
    (m : Monitor) (id thread turn type : String) (a : PendingControl)
    → lookup id m.pending_requests ≡ some a
    → a.request.thread_id ≡ thread
    → a.request.turn_id ≡ turn
    → a.request.request_type ≡ type
    → a.request.controllable ≡ true
    → lookup_pending m id thread turn type ≡ ok a
unfolding lookup_pending
lookup_pending-asked m id thread turn type a here e f g h =
    rw (here, lookup_pending)
      (ground (
        arith,
        eq_iff a.request.thread_id thread,
        eq_iff a.request.turn_id turn,
        eq_iff a.request.request_type type,
      ))

-- What is left after an answer: the error of the client that failed, or no request under the id.
abbrev pub Ends : Reply → String → ActionResult → Monitor → Outcome → Type 0
Ends none id wanted before o =
    (o.result ≡ ok wanted) × (lookup id o.monitor.pending_requests ≡ none)
Ends (some e) id wanted before o = (o.result ≡ err (client_error e)) × (o.monitor ≡ before)

answer-Ends :
    (env : Env) (now : Time) (reply : Reply) (meanwhile : Monitor → Monitor) (a : PendingControl)
    (payload : Json) (wanted : ActionResult) (m : Monitor)
    → lookup wanted.request_id (meanwhile m).pending_requests ≡ some a
    → let o = answer env now reply meanwhile a payload wanted m in
      (o.sent ≡ respond a.client a.app_server_id payload ∷ [])
      × Ends reply wanted.request_id wanted (meanwhile m) o
unfolding answer
answer-Ends env now none meanwhile a payload wanted m kept =
    let id = wanted.request_id in
    let after = finish_pending-pending_requests env now id a (meanwhile m) in
    (refl, (refl, ap (lookup id) after ∙ gone id kept))
  where
    gone :
        (id : String)
        → lookup id (meanwhile m).pending_requests ≡ some a
        → lookup id (
            if is_same_pending (lookup id (meanwhile m).pending_requests) a
            then delete id (meanwhile m).pending_requests
            else (meanwhile m).pending_requests)
          ≡ none
    gone id here = ground (arith, eq_iff id id, lookup-delete id id (meanwhile m).pending_requests)
answer-Ends env now (some e) meanwhile a payload wanted m kept = (refl, (refl, refl))

-- The decisions that a request offers: the four of a file change, or those that the App Server lists
-- for a command; where it lists none, any will do.
abbrev pub listed : Option (List Json) → List String
listed none = []
listed (some js) = text_decisions js

abbrev pub Offers : String → String → RequestParams → Type 0
Offers method decision p =
    ((method ≡ "item/fileChange/requestApproval")
      × IsIn decision ("accept" ∷ "acceptForSession" ∷ "decline" ∷ "cancel" ∷ []))
    ⊎ ((method ≡ "item/commandExecution/requestApproval")
        × ((length (listed p.available) ≡ 0) ⊎ IsIn decision (listed p.available)))

-- The kind of such a request.
abbrev Approvable : String → String → RequestParams → RequestKind → Type 0
Approvable method decision p kind =
    (request_kind method p ≡ some kind)
    × (kind.request_type ≡ "approval")
    × (kind.controllable ≡ true)
    × ((length kind.decisions ≡ 0) ⊎ IsIn decision kind.decisions)

command_decisions :
    (p : RequestParams)
    → (kind : RequestKind) × (request_kind "item/commandExecution/requestApproval" p ≡ some kind)
      × (kind.request_type ≡ "approval")
      × (kind.controllable ≡ true)
      × (kind.decisions ≡ listed p.available)
unfolding request_kind
command_decisions p = by_list p.available refl
  where
    by_list :
        (available : Option (List Json))
        → p.available ≡ available
        → (kind : RequestKind) × (request_kind "item/commandExecution/requestApproval" p
            ≡ some kind)
          × (kind.request_type ≡ "approval")
          × (kind.controllable ≡ true)
          × (kind.decisions ≡ listed p.available)
    by_list none e = (_, refl, refl, refl, rw e)
    by_list (some js) e = (_, refl, refl, refl, rw e)

Offers-Approvable :
    (method decision : String) (p : RequestParams)
    → Offers method decision p
    → (kind : RequestKind) × Approvable method decision p kind
unfolding request_kind
Offers-Approvable method decision p (inl (e, offered)) =
    subst (λ k. (kind : RequestKind) × Approvable k decision p kind) (sym e)
      (_, (refl, refl, refl, inr offered))
Offers-Approvable method decision p (inr (e, offered)) =
    let (kind, known, type, able, same) = command_decisions p in
    let held = subst (λ ds. (length ds ≡ 0) ⊎ IsIn decision ds) (sym same) offered in
    subst (λ k. (kind : RequestKind) × Approvable k decision p kind) (sym e)
      (kind, (known, type, able, held))

resolve_approval-answer :
    (env : Env) (now : Time) (reply : Reply) (meanwhile : Monitor → Monitor)
    (action id thread turn decision : String) (m : Monitor) (a : PendingControl)
    → lookup_pending m id thread turn "approval" ≡ ok a
    → (length a.request.available_decisions ≡ 0) ⊎ IsIn decision a.request.available_decisions
    → resolve_approval env now reply meanwhile action id thread turn decision m
      ≡ answer env now reply meanwhile a (decision_payload decision) (done action id thread turn) m
unfolding resolve_approval
resolve_approval-answer env now reply meanwhile action id thread turn decision m a found (inl e) =
    let free : ltb 0 (length a.request.available_decisions) ≡ false = ground arith in
    rw (found, resolve_approval, free)
resolve_approval-answer env now reply meanwhile action id thread turn decision m a found (inr e) =
    let held = IsIn-contains decision a.request.available_decisions e in
    let offered : (ltb 0 (length a.request.available_decisions)
          && not (contains a.request.available_decisions decision))
        ≡ false =
      ground arith in
    rw (found, resolve_approval, offered)

module _ (env : Env) (now : Time) (client : ℕ) (app_server_id method : String) (p : RequestParams)
    (m : Monitor) where
  -- An approval that the App Server asks for a command or a file change can be given or refused under
  -- the id that the agent gives out, which has the time in milliseconds and the next number of the
  -- sequence: if the request names a thread and has an id, and nobody else has resolved it meanwhile,
  -- each decision that is offered is sent in exactly one response, to the App Server that asked and
  -- under its id, and the request is then gone, unless the client fails.
  pub record_server_request-resolve_approval :
      (env' : Env) (now' : Time) (reply : Reply) (meanwhile : Monitor → Monitor)
      (action decision : String)
      → app_server_id ≢ ""
      → p.thread_id ≢ ""
      → Offers method decision p
      → let m' = record_server_request env now client app_server_id method (some p) m in
        let id = id_text (next_sequence m) now in
        lookup id (meanwhile m').pending_requests ≡ lookup id m'.pending_requests
        → let o =
            resolve_approval env' now' reply meanwhile action id p.thread_id p.turn_id decision
              m' in
          (o.sent ≡ respond client app_server_id (decision_payload decision) ∷ [])
          × Ends reply id (done action id p.thread_id p.turn_id) (meanwhile m') o
  record_server_request-resolve_approval env' now' reply meanwhile action decision named threaded
        offers untouched =
      let (kind, (known, type, able, offered)) = Offers-Approvable method decision p offers in
      let m' = record_server_request env now client app_server_id method (some p) m in
      let id = id_text (next_sequence m) now in
      let a = asked client app_server_id method p kind now (next_sequence m) in
      let here =
        recorded_lookup env now client app_server_id method p m kind named threaded known in
      let found =
        lookup_pending-asked m' id p.thread_id p.turn_id "approval" a here refl refl type able in
      let wanted = done action id p.thread_id p.turn_id in
      subst
        (λ o.
          (o.sent ≡ respond client app_server_id (decision_payload decision) ∷ [])
          × Ends reply id wanted (meanwhile m') o)
        (sym (
          resolve_approval-answer env' now' reply meanwhile action id p.thread_id p.turn_id decision
            m' a found offered))
        (answer-Ends env' now' reply meanwhile a (decision_payload decision) wanted m'
          (untouched ∙ here))

-- A request that is only shown: permissions, and what an MCP server elicits.
abbrev pub IsOnlyShown : String → Type 0
IsOnlyShown method =
    (method ≡ "item/permissions/requestApproval") ⊎ (method ≡ "mcpServer/elicitation/request")

-- Nothing was sent and nothing has changed.
abbrev pub IsRefusal : Monitor → Outcome → Type 0
IsRefusal m o = (o.sent ≡ []) × (o.monitor ≡ m) × ((e : ActionError) × (o.result ≡ err e))
