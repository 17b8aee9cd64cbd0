-- ===== src/Monitor/Events/Kinds.antt =====
-- `transitionEventType` and the loop around it (agent/internal/monitor/events.go): which event a thread
-- gives rise to, read from the event.
use codex_ha_monitor.Prelude.{
  String, true, false, ◌&&◌, List, lookup, ◌=?=◌, Option, none, some, Bool-cases, inl, inr, ◌≡◌,
  ◌≢◌, ◌⊎◌, ◌↔◌, ◌∙◌, ap, refl, arith, eq_iff,
}
use mathlib.Core.Option
use codex_ha_monitor.Model.Types.{
  State, running, waiting_approval, waiting_input, idle, error, same_state, state_text, Thread,
  zero_thread, TaskEvent, Time, EventType, task_started, task_completed, approval_required,
  input_required, task_failed, task_interrupted, task_resumed, agent_recovered,
}
use codex_ha_monitor.Monitor.Events.{
  thread_event, transition_event_type, event_for, idle_event, transition_event,
}

-- The thread is new, or its state or its request is not what it was.
abbrev pub HasChanged : Option Thread → Thread → Type 0
HasChanged none t = Unit
HasChanged (some p) t = ¬ ((p.state ≡ t.state) × (p.request_id ≡ t.request_id))

-- A thread that was known, in one of the states.
abbrev pub WasWaiting : Option Thread → Type 0
WasWaiting none = ⊥
WasWaiting (some p) = (p.state ≡ waiting_approval) ⊎ (p.state ≡ waiting_input)

abbrev pub WasIn : State → Option Thread → Type 0
WasIn s none = ⊥
WasIn s (some p) = p.state ≡ s

abbrev pub WasKnown : Option Thread → Type 0
WasKnown none = ⊥
WasKnown (some p) = Unit

-- What an event says of a thread, and of what was known of it.
abbrev pub Means : EventType → Option Thread → Thread → Type 0
Means approval_required p t = t.state ≡ waiting_approval
Means input_required p t = t.state ≡ waiting_input
Means task_failed p t =
    (t.state ≡ error) ⊎ ((t.state ≡ idle) × WasKnown p × (t.last_turn_status ≡ "failed"))
Means task_interrupted p t = (t.state ≡ idle) × WasKnown p × (t.last_turn_status ≡ "interrupted")
Means task_resumed p t = (t.state ≡ running) × (WasWaiting p ⊎ WasIn idle p)
Means task_started p t = (t.state ≡ running) × (¬ (WasWaiting p ⊎ WasIn idle p))
Means task_completed p t =
    (t.state ≡ idle)
    × (WasWaiting p ⊎ WasIn running p)
    × (t.last_turn_status ≢ "interrupted")
    × (t.last_turn_status ≢ "failed")
Means agent_recovered p t = ⊥

new_kind :
    (s : State) (t : Thread) (k : EventType)
    → t.state ≡ s
    → (event_for s zero_thread t false ≡ some k) ↔ Means k none t
unfolding event_for
new_kind s t agent_recovered e = (λ h. ground arith, λ h. ground arith)
new_kind s t _ e = (λ h. ground arith, λ h. ground arith)

known_kind :
    (s : State) (p t : Thread) (k : EventType)
    → t.state ≡ s
    → (event_for s p t true ≡ some k) ↔ Means k (some p) t
unfolding event_for idle_event
known_kind s p t agent_recovered e = (λ h. ground arith, λ h. ground arith)
known_kind s p t _ e =
    let interrupted = eq_iff t.last_turn_status "interrupted" in
    let failed = eq_iff t.last_turn_status "failed" in
    let apart = eq_iff "interrupted" "failed" in
    (
      λ h. ground (arith, interrupted, failed, apart),
      λ h. ground (arith, interrupted, failed, apart),
    )

same_state_iff : (a b : State) → (same_state a b ≡ true) ↔ (a ≡ b)
same_state_iff a b = (λ h. ground arith, λ h. ground arith)

-- The state and the request of what was known of a thread; those of no thread are empty.
abbrev before : Option Thread → Thread
before none = zero_thread
before (some p) = p

-- The text of the state before; "" where the thread is new.
abbrev pub from_text : Option Thread → String
from_text none = ""
from_text (some p) = state_text p.state

some_inj {ℓ} : {A : Type ℓ} {a b : A} → some a ≡ some b → a ≡ b
some_inj h = ground arith

-- An event of a kind that tells of a thread: which it is, its turn and request, and from what state to
-- what state it came.
abbrev pub Tells : EventType → Option Thread → Thread → Time → TaskEvent → Type 0
Tells k p t now e =
    (e.event_type ≡ k)
    × (e.thread_id ≡ t.id)
    × (e.turn_id ≡ t.turn_id)
    × (e.request_id ≡ t.request_id)
    × (e.from_state ≡ from_text p)
    × (e.to_state ≡ state_text t.state)
    × (e.occurred_at ≡ now)

abbrev Event : EventType → Option Thread → Thread → Time → Option TaskEvent → Type 0
Event k p t now o = (e : TaskEvent) × (o ≡ some e) × Tells k p t now e

mapped_kind :
    (ty : Option EventType) (p : Option Thread) (t : Thread) (now : Time) (k : EventType)
    → Event k p t now (Option.map (λ y. transition_event (before p) t y now) ty) ↔ (ty ≡ some k)
unfolding transition_event state_text
mapped_kind none p t now k = (λ (e, h, _). absurd (ground arith), λ h. absurd (ground arith))
mapped_kind (some y) none t now k = (
  λ (e, h, told). ap some (ap (λ (x : TaskEvent). x.event_type) (some_inj h) ∙ told.0),
  λ h. (_, refl, (some_inj h, refl, refl, refl, refl, refl, refl)),
)
mapped_kind (some y) (some p) t now k = (
  λ (e, h, told). ap some (ap (λ (x : TaskEvent). x.event_type) (some_inj h) ∙ told.0),
  λ h. (_, refl, (some_inj h, refl, refl, refl, refl, refl, refl)),
)

by_known :
    (last : List (String × Thread)) (now : Time) (t : Thread) (k : EventType) (prev : Option Thread)
    → lookup t.id last ≡ prev
    → Event k prev t now (thread_event last now t) ↔ (HasChanged prev t × Means k prev t)
unfolding thread_event transition_event_type
by_known last now t k none here =
    let kind = new_kind t.state t k refl in
    let told = mapped_kind (event_for t.state zero_thread t false) none t now k in
    rw (here, thread_event) (λ h. (tt, kind.0 (told.0 h)), λ (_, h). told.1 (kind.1 h))
by_known last now t k (some p) here =
    elim (Bool-cases (same_state p.state t.state && (p.request_id =?= t.request_id))) [
      | inl b ↦
          let same : (p.state ≡ t.state) × (p.request_id ≡ t.request_id) =
            ground (arith, same_state_iff p.state t.state, eq_iff p.request_id t.request_id) in
          rw (here, thread_event, b)
            (λ (e, h, _). absurd (ground arith), λ (changed, _). absurd (changed same))
      | inr b ↦
          let changed : ¬ ((p.state ≡ t.state) × (p.request_id ≡ t.request_id)) = λ (e, f).
            ground (
              arith,
              (same_state_iff p.state t.state).1 e,
              (eq_iff p.request_id t.request_id).1 f,
            ) in
          let kind = known_kind t.state p t k refl in
          let told = mapped_kind (event_for t.state p t true) (some p) t now k in
          rw (here, thread_event, b)
            (λ h. (changed, kind.0 (told.0 h)), λ (_, h). told.1 (kind.1 h))
    ]

-- Which event a rebuild tells of a thread, for each kind: it tells one exactly if the thread is new or
-- its state or its request has changed, and the state says so. An approval or an input is asked for when
-- the thread waits for it. A task has failed when the state is an error, or idle after a turn that failed.
-- It has started when it runs and has resumed when it was waiting or idle before. It is interrupted when
-- it is idle after a turn that was, and completed when it is idle, was running or waiting and its turn
-- neither failed nor was interrupted. A thread that is new tells nothing by being idle, and none tells of
-- a recovery of the agent. The event has the thread's id, turn and request, the two states and the time.
pub thread_event-Means :
    (last : List (String × Thread)) (now : Time) (t : Thread) (k : EventType)
    → ((e : TaskEvent) × (thread_event last now t ≡ some e) × Tells k (lookup t.id last) t now e)
      ↔ (HasChanged (lookup t.id last) t × Means k (lookup t.id last) t)
thread_event-Means last now t k = by_known last now t k (lookup t.id last) refl
