-- ===== src/Monitor/Events/Steady.antt =====
-- `emitTransitionEventsLocked` of agent/internal/monitor/events.go, on threads that it has seen before.
use codex_ha_monitor.Prelude.{
  String, Bool, true, false, List, [], ◌∷◌, All, lookup, ◌=?=◌, if◌then◌else◌, none, some,
  Option-cases, inl, inr, ◌≡◌, ◌∙◌, sym, ap, refl, arith, eq_iff,
}
use codex_ha_monitor.Model.Types.{State, same_state, Thread, Time}
use codex_ha_monitor.Hierarchy.{index_by_id}
use codex_ha_monitor.Merge.Reads.{find_last, lookup-index_from, or_else-none}
use codex_ha_monitor.Monitor.State.{Monitor}
use codex_ha_monitor.Monitor.Stream.{emit_task_event}
use codex_ha_monitor.Monitor.Events.{thread_event, emit_each, emit_transition_events}

-- A thread that the earlier threads have with the same state and the same request.
abbrev pub IsSteady : List Thread → Thread → Type 0
IsSteady earlier t =
    (before : Thread) × (find_last t.id earlier ≡ some before)
    × (before.state ≡ t.state)
    × (before.request_id ≡ t.request_id)

same_state_refl : (s : State) → same_state s s ≡ true
same_state_refl s = ground arith

IsSteady-quiet :
    (earlier : List Thread) (now : Time) (t : Thread)
    → IsSteady earlier t
    → thread_event (index_by_id earlier) now t ≡ none
unfolding thread_event lookup
IsSteady-quiet earlier now t (before, seen, state, request) =
    let here : lookup t.id (index_by_id earlier) ≡ some before =
      lookup-index_from t.id [] earlier ∙ or_else-none (find_last t.id earlier) ∙ seen in
    let same : same_state before.state t.state ≡ true =
      ap (λ (s : State). same_state before.state s) (sym state) ∙ same_state_refl before.state in
    let asks : (before.request_id =?= t.request_id) ≡ true =
      (eq_iff before.request_id t.request_id).1 request in
    rw (here, thread_event, same, asks)

emit_each-quiet :
    (earlier : List Thread) (clock now : Time) (ts : List Thread) (m : Monitor)
    → All (IsSteady earlier) ts
    → emit_each (index_by_id earlier) clock now ts m ≡ m
unfolding emit_each
emit_each-quiet earlier clock now [] m steady = refl
emit_each-quiet earlier clock now (t ∷ ts) m (one, steady) =
    rw (IsSteady-quiet earlier now t one, emit_each) (emit_each-quiet earlier clock now ts m steady)

ready_emits :
    (ts : List Thread) (clock now : Time) (m : Monitor) (last : List (String × Thread))
    → m.events_ready ≡ true
    → m.last_threads ≡ last
    → emit_each last clock now ts m ≡ m
    → emit_transition_events ts clock now m ≡ record m { last_threads = index_by_id ts }
unfolding emit_transition_events
ready_emits ts clock now m last ready held quiet =
    ap
      (λ (b : Bool).
        if b
        then record (emit_each m.last_threads clock now ts m) { last_threads = index_by_id ts }
        else record m { last_threads = index_by_id ts; events_ready = true })
      ready
    ∙ (λ i. record (emit_each (held i) clock now ts m) { last_threads = index_by_id ts })
    ∙ ap (λ (k : Monitor). record k { last_threads = index_by_id ts }) quiet

-- `x` or `y`, whichever a test takes.
either_ready :
    (b : Bool) (x y : Monitor) (last : List (String × Thread))
    → (b ≡ true → (x.events_ready ≡ true) × (x.last_threads ≡ last))
    → (y.events_ready ≡ true) × (y.last_threads ≡ last)
    → ((if b then x else y).events_ready ≡ true) × ((if b then x else y).last_threads ≡ last)
either_ready true x y last h k = h refl
either_ready false x y last h k = k

emit_each-ready :
    (last : List (String × Thread)) (clock now : Time) (ts : List Thread) (m : Monitor)
    → (emit_each last clock now ts m).events_ready ≡ m.events_ready
unfolding emit_each emit_task_event
emit_each-ready last clock now [] m = refl
emit_each-ready last clock now (t ∷ ts) m = elim (Option-cases (thread_event last now t)) [
  | inl quiet ↦ rw (quiet, emit_each) (emit_each-ready last clock now ts m)
  | inr (e, loud) ↦
      rw (loud, emit_each) (emit_each-ready last clock now ts (emit_task_event clock e m))
]

emit_transition_events-ready :
    (ts : List Thread) (clock now : Time) (m : Monitor)
    → ((emit_transition_events ts clock now m).events_ready ≡ true)
      × ((emit_transition_events ts clock now m).last_threads ≡ index_by_id ts)
unfolding emit_transition_events
emit_transition_events-ready ts clock now m =
    either_ready m.events_ready _ _ (index_by_id ts)
      (λ ready. (emit_each-ready m.last_threads clock now ts m ∙ ready, refl)) (refl, refl)

-- A change of state is told once: after a rebuild has gone through its threads, one that finds each of
-- its threads among them, with the same state and the same request, numbers no event, remembers none
-- and sends none, whatever else of the threads has changed; it takes its threads for the next baseline.
-- This holds of the first rebuild's baseline too.
pub emit_transition_events-IsSteady :
    (earlier ts : List Thread) (clock now clock' now' : Time) (m : Monitor)
    → All (IsSteady earlier) ts
    → let m' = emit_transition_events earlier clock now m in
      emit_transition_events ts clock' now' m' ≡ record m' { last_threads = index_by_id ts }
emit_transition_events-IsSteady earlier ts clock now clock' now' m steady =
    let m' = emit_transition_events earlier clock now m in
    let (ready, held) = emit_transition_events-ready earlier clock now m in
    ready_emits ts clock' now' m' (index_by_id earlier) ready held
      (emit_each-quiet earlier clock' now' ts m' steady)
