-- ===== src/Monitor/Stream/History.antt =====
-- The history of task events (agent/internal/monitor/events.go): what `emitTaskEventLocked` and
-- `emitTransitionEventsLocked` append to it, and how it is numbered.
use codex_ha_monitor.Prelude.{
  ℕ, zero, suc, ◌+◌, ◌-◌, ◌%◌, ◌^◌, ◌≤◌, ◌<◌, String, true, List, [], ◌∷◌, ◌++◌, map, length,
  length-append, length-drop, length-keep_last-le, keep_last_of_length-le, drop, keep_last,
  keep_last-append, ltb, ◌==◌, if◌then◌else◌, Option, none, some, ◌≡◌, ◌∙◌, ap, sym, refl, arith,
  Bool-cases, Option-cases, inl, inr, subst,
}
use mathlib.Core.List.{append_assoc, append-nil}
use codex_ha_monitor.Text.{format_uint}
use codex_ha_monitor.Model.Types.{Time, Thread, TaskEvent}
use codex_ha_monitor.Hierarchy.{index_by_id}
use codex_ha_monitor.Monitor.State.{Monitor, Channel, StreamMessage, task_activity}
use codex_ha_monitor.Monitor.Stream.{event_history_limit, remember, emit_task_event, offer}
use codex_ha_monitor.Monitor.Events.{thread_event, emit_each, emit_transition_events}

-- The number that `emitTaskEventLocked` gives an event, and what it fills in beside.
abbrev pub number : ℕ → String → Time → TaskEvent → TaskEvent
number n installation clock e = record e {
  sequence = n;
  event_id = format_uint n;
  installation_id = installation;
  occurred_at = if e.occurred_at == 0 then clock else e.occurred_at;
}

-- Events numbered from `n + 1` on.
abbrev pub number_all : ℕ → String → Time → List TaskEvent → List TaskEvent
number_all n installation clock [] = []
number_all n installation clock (e ∷ es) =
    number (suc n) installation clock e ∷ number_all (suc n) installation clock es

abbrev optional {ℓ} : {A : Type ℓ} → Option A → List A → List A
optional none xs = xs
optional (some x) xs = x ∷ xs

-- The events that a rebuild's threads give rise to, against those of the last one.
abbrev pub transitions : List (String × Thread) → Time → List Thread → List TaskEvent
transitions last now [] = []
transitions last now (t ∷ ts) = optional (thread_event last now t) (transitions last now ts)

pub remember-keep_last :
    (h : List TaskEvent) (e : TaskEvent)
    → remember h e ≡ keep_last event_history_limit (h ++ e ∷ [])
unfolding remember
remember-keep_last h e = elim (Bool-cases (ltb event_history_limit (length (h ++ e ∷ [])))) [
  | inl more ↦ rw more
  | inr fits ↦
      let none_dropped : length (h ++ e ∷ []) - event_history_limit ≡ 0 = ground arith in
      rw (fits, none_dropped)
]

-- A channel that is offered one message after another.
abbrev pub offer_all : List StreamMessage → Channel → Channel
offer_all [] ch = ch
offer_all (message ∷ rest) ch = offer_all rest (offer message ch)

abbrev pub activity : TaskEvent → StreamMessage
activity e = task_activity e.sequence e

-- What a run of emissions does to the state, all at once.
abbrev pub emitted : Time → List TaskEvent → Monitor → Monitor
emitted clock es m =
    let numbered = number_all m.event_sequence m.cfg.installation_id clock es in
    record m {
      event_sequence = m.event_sequence + length es;
      event_history = keep_last event_history_limit (m.event_history ++ numbered);
      subs = map (offer_all (map activity numbered)) m.subs;
    }

emit_all : Time → List TaskEvent → Monitor → Monitor
emit_all clock [] m = m
emit_all clock (e ∷ es) m = emit_all clock es (emit_task_event clock e m)

emit_each-emit_all :
    (last : List (String × Thread)) (clock now : Time) (ts : List Thread) (m : Monitor)
    → emit_each last clock now ts m ≡ emit_all clock (transitions last now ts) m
unfolding emit_each emit_all
emit_each-emit_all last clock now [] m = refl
emit_each-emit_all last clock now (t ∷ ts) m = elim (Option-cases (thread_event last now t)) [
  | inl quiet ↦ rw quiet (emit_each-emit_all last clock now ts m)
  | inr (e, loud) ↦ rw loud (emit_each-emit_all last clock now ts (emit_task_event clock e m))
]

emit_task_event-emitted :
    (clock : Time) (e : TaskEvent) (m : Monitor)
    → m.event_sequence + 1 < 2 ^ 64
    → emit_task_event clock e m ≡ emitted clock (e ∷ []) m
unfolding emit_task_event
emit_task_event-emitted clock e m small =
    let sequence : (m.event_sequence + 1) % 2 ^ 64 ≡ suc m.event_sequence = omega arith in
    let total : m.event_sequence + 1 ≡ suc m.event_sequence = omega arith in
    rw (sequence, total, remember-keep_last)

map-map {ℓ} : {A : Type ℓ} (f g : A → A) (xs : List A) → map f (map g xs) ≡ map (λ x. f (g x)) xs
map-map f g [] = refl
map-map f g (x ∷ xs) = cc (map-map f g xs)

emitted-cons :
    (clock : Time) (e : TaskEvent) (es : List TaskEvent) (m : Monitor)
    → emitted clock es (emitted clock (e ∷ []) m) ≡ emitted clock (e ∷ es) m
emitted-cons clock e es m =
    let next : m.event_sequence + 1 ≡ suc m.event_sequence = omega arith in
    let installation = m.cfg.installation_id in
    let first = number (suc m.event_sequence) installation clock e in
    let sequence : m.event_sequence + 1 + length es ≡ m.event_sequence + suc (length es) =
      omega arith in
    let rest = ap (λ n. number_all n installation clock es) next in
    let history =
      ap
        (λ r.
          keep_last event_history_limit
            (keep_last event_history_limit (m.event_history ++ first ∷ []) ++ r))
        rest
      ∙ keep_last-append event_history_limit (m.event_history ++ first ∷ [])
          (number_all (suc m.event_sequence) installation clock es)
      ∙ ap (keep_last event_history_limit) (
          append_assoc m.event_history (first ∷ [])
            (number_all (suc m.event_sequence) installation clock es)) in
    let subs =
      map-map (offer_all (map activity (number_all (m.event_sequence + 1) installation clock es)))
        (offer (activity first)) m.subs
      ∙ ap (λ r. map (offer_all (map activity (first ∷ r))) m.subs) rest in
    λ i. record m { event_sequence = sequence i; event_history = history i; subs = subs i }

map_same : (chs : List Channel) → map (offer_all []) chs ≡ chs
map_same [] = refl
map_same (ch ∷ chs) = ap (◌∷◌ ch) (map_same chs)

emit_all-emitted :
    (clock : Time) (es : List TaskEvent) (m : Monitor)
    → length m.event_history ≤ event_history_limit
    → m.event_sequence + length es < 2 ^ 64
    → emit_all clock es m ≡ emitted clock es m
unfolding emit_all
emit_all-emitted clock [] m short small =
    let history : keep_last event_history_limit (m.event_history ++ []) ≡ m.event_history =
      ap (keep_last event_history_limit) (append-nil m.event_history)
      ∙ keep_last_of_length-le event_history_limit m.event_history short in
    let sequence : m.event_sequence + 0 ≡ m.event_sequence = omega arith in
    λ i. record m {
      event_sequence = sym sequence i;
      event_history = sym history i;
      subs = sym (map_same m.subs) i;
    }
emit_all-emitted clock (e ∷ es) m short small =
    let one = emit_task_event-emitted clock e m (omega arith) in
    rw one (
      emit_all-emitted clock es (emitted clock (e ∷ []) m)
        (length-keep_last-le event_history_limit
          (m.event_history ++ number (suc m.event_sequence) m.cfg.installation_id clock e ∷ []))
        (omega arith)
      ∙ emitted-cons clock e es m)

-- Once there is a baseline, a rebuild emits the transitions of its threads, in their order: the
-- numbers go on from the last one without a gap, the history is the old one with the new events
-- after it, cut to the last 256, each subscriber is offered each event in order, and the threads are
-- the next baseline. Nothing else of the state changes. The 64-bit counter must not run over.
pub emit_transition_events-emitted :
    (ts : List Thread) (clock now : Time) (m : Monitor)
    → m.events_ready ≡ true
    → length m.event_history ≤ event_history_limit
    → m.event_sequence + length (transitions m.last_threads now ts) < 2 ^ 64
    → emit_transition_events ts clock now m
      ≡ record (emitted clock (transitions m.last_threads now ts) m) {
        last_threads = index_by_id ts;
      }
unfolding emit_transition_events
emit_transition_events-emitted ts clock now m ready short small =
    let baseline = index_by_id ts in
    let first : Monitor = record m { last_threads = baseline; events_ready = true } in
    let later : Monitor = record (emit_each m.last_threads clock now ts m) {
      last_threads = baseline;
    } in
    ap (λ ready. if ready then later else first) ready
    ∙ (ap (λ (k : Monitor). record k { last_threads = baseline })
        (emit_each-emit_all m.last_threads clock now ts m
          ∙ emit_all-emitted clock (transitions m.last_threads now ts) m short small))

-- Events with consecutive numbers, the first of them after `n`.
abbrev pub Consecutive : ℕ → List TaskEvent → Type 0
Consecutive n [] = Unit
Consecutive n (e ∷ es) = (e.sequence ≡ suc n) × Consecutive (suc n) es

-- The history holds the last events that were emitted, at most 256 of them, without a gap.
pub record HistoryIsValid (m : Monitor) : Type 0 where
  pub bounded : length m.event_history ≤ event_history_limit
  pub counted : length m.event_history ≤ m.event_sequence
  pub consecutive : Consecutive (m.event_sequence - length m.event_history) m.event_history

Consecutive-number_all :
    (n : ℕ) (installation : String) (clock : Time) (es : List TaskEvent)
    → Consecutive n (number_all n installation clock es)
Consecutive-number_all n installation clock [] = tt
Consecutive-number_all n installation clock (e ∷ es) =
    (refl, Consecutive-number_all (suc n) installation clock es)

Consecutive-append :
    (n : ℕ) (xs ys : List TaskEvent)
    → Consecutive n xs
    → Consecutive (n + length xs) ys
    → Consecutive n (xs ++ ys)
Consecutive-append n [] ys a b = subst (λ k. Consecutive k ys) (omega arith) b
Consecutive-append n (x ∷ xs) ys (e, a) b =
    (e, Consecutive-append (suc n) xs ys a (subst (λ k. Consecutive k ys) (omega arith) b))

Consecutive-drop :
    (n k : ℕ) (xs : List TaskEvent)
    → k ≤ length xs
    → Consecutive n xs
    → Consecutive (n + k) (drop k xs)
Consecutive-drop n zero xs h a = subst (λ j. Consecutive j xs) (omega arith) a
Consecutive-drop n (suc k) [] h a = tt
Consecutive-drop n (suc k) (x ∷ xs) h (e, a) =
    subst (λ j. Consecutive j (drop k xs)) (omega arith)
      (Consecutive-drop (suc n) k xs (omega arith) a)

length-number_all :
    (n : ℕ) (installation : String) (clock : Time) (es : List TaskEvent)
    → length (number_all n installation clock es) ≡ length es
length-number_all n installation clock [] = refl
length-number_all n installation clock (e ∷ es) =
    ap suc (length-number_all (suc n) installation clock es)

pub emitted-HistoryIsValid :
    (clock : Time) (es : List TaskEvent) (m : Monitor)
    → HistoryIsValid m
    → HistoryIsValid (emitted clock es m)
emitted-HistoryIsValid clock es m v =
    let numbered = number_all m.event_sequence m.cfg.installation_id clock es in
    let all = m.event_history ++ numbered in
    let total : length all ≡ length m.event_history + length es =
      length-append m.event_history numbered
      ∙ ap (λ n. length m.event_history + n)
          (length-number_all m.event_sequence m.cfg.installation_id clock es) in
    let dropped = length all - event_history_limit in
    let kept = length-drop dropped all in
    let start = m.event_sequence - length m.event_history in
    record {
      bounded = length-keep_last-le event_history_limit all;
      counted = omega (arith, kept, total, v.counted);
      consecutive =
          subst (λ n. Consecutive n (drop dropped all)) (omega (arith, kept, total, v.counted))
            (Consecutive-drop start dropped all (omega arith) (
              Consecutive-append start m.event_history numbered v.consecutive (
                subst (λ n. Consecutive n numbered) (omega (arith, v.counted))
                  (Consecutive-number_all m.event_sequence m.cfg.installation_id clock es))));
    }
