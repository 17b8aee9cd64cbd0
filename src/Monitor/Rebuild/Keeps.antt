-- ===== src/Monitor/Rebuild/Keeps.antt =====
-- What `rebuildLocked` of agent/internal/monitor/monitor.go leaves alone, and that it keeps the
-- history valid.
use codex_ha_monitor.Prelude.{
  ◌+◌, ◌^◌, ◌≤◌, ◌<◌, String, Bool, true, false, List, [], ◌∷◌, length, ◌≡◌, ◌∙◌, sym, refl, subst,
  arith, if◌then◌else◌, Bool-cases, Option-cases, inl, inr, ◌&&◌, ◌==◌,
}
use codex_ha_monitor.Model.Types.{Time, Thread, TaskEvent}
use codex_ha_monitor.Hierarchy.{index_by_id}
use codex_ha_monitor.Monitor.State.{Monitor, Env}
use codex_ha_monitor.Monitor.Hooks.{apply_hooks}
use codex_ha_monitor.Monitor.Stream.{emit_task_event, broadcast_snapshot, signature_of}
use codex_ha_monitor.Monitor.Stream.History.{
  HistoryIsValid, transitions, emitted, emitted-HistoryIsValid, emit_transition_events-emitted,
}
use codex_ha_monitor.Monitor.Events.{thread_event, emit_each, emit_transition_events}
use codex_ha_monitor.Monitor.Rebuild.{refresh_snapshot, rebuild_threads, rebuild}

-- The fields that only the sources and the actions set.
pub record SameSources (m n : Monitor) : Type 0 where
  pub same_cfg : m.cfg ≡ n.cfg
  pub same_app_threads : m.app_threads ≡ n.app_threads
  pub same_fs_threads : m.fs_threads ≡ n.fs_threads
  pub same_usage : m.usage ≡ n.usage
  pub same_rate_limits : m.rate_limits ≡ n.rate_limits
  pub same_pending : m.pending_requests ≡ n.pending_requests
  pub same_request_sequence : m.request_sequence ≡ n.request_sequence
  pub same_client : m.client ≡ n.client

SameSources_trans : {l m n : Monitor} → SameSources l m → SameSources m n → SameSources l n
SameSources_trans a b = record {
  same_cfg = a.same_cfg ∙ b.same_cfg;
  same_app_threads = a.same_app_threads ∙ b.same_app_threads;
  same_fs_threads = a.same_fs_threads ∙ b.same_fs_threads;
  same_usage = a.same_usage ∙ b.same_usage;
  same_rate_limits = a.same_rate_limits ∙ b.same_rate_limits;
  same_pending = a.same_pending ∙ b.same_pending;
  same_request_sequence = a.same_request_sequence ∙ b.same_request_sequence;
  same_client = a.same_client ∙ b.same_client;
}

abbrev SameSources_refl : (m : Monitor) → SameSources m m
SameSources_refl m = record {
  same_cfg = refl;
  same_app_threads = refl;
  same_fs_threads = refl;
  same_usage = refl;
  same_rate_limits = refl;
  same_pending = refl;
  same_request_sequence = refl;
  same_client = refl;
}

emit_task_event-SameSources :
    (clock : Time) (e : TaskEvent) (m : Monitor) → SameSources (emit_task_event clock e m) m
unfolding emit_task_event
emit_task_event-SameSources clock e m = record {
  same_cfg = refl;
  same_app_threads = refl;
  same_fs_threads = refl;
  same_usage = refl;
  same_rate_limits = refl;
  same_pending = refl;
  same_request_sequence = refl;
  same_client = refl;
}

first_history :
    (ts : List Thread) (clock now : Time) (m : Monitor)
    → m.events_ready ≡ false
    → ((emit_transition_events ts clock now m).event_history ≡ m.event_history)
      × ((emit_transition_events ts clock now m).event_sequence ≡ m.event_sequence)
unfolding emit_transition_events
first_history ts clock now m first = ground arith

emit_each-SameSources :
    (last : List (String × Thread)) (clock now : Time) (ts : List Thread) (m : Monitor)
    → SameSources (emit_each last clock now ts m) m
unfolding emit_each
emit_each-SameSources last clock now [] m = SameSources_refl m
emit_each-SameSources last clock now (t ∷ ts) m = elim (Option-cases (thread_event last now t)) [
  | inl quiet ↦ rw (quiet) (emit_each-SameSources last clock now ts m)
  | inr (e, loud) ↦ rw (loud) (
      SameSources_trans (emit_each-SameSources last clock now ts (emit_task_event clock e m))
        (emit_task_event-SameSources clock e m))
]

-- `x` or `y`, whichever a test takes.
either_SameSources :
    (b : Bool) (x y m : Monitor)
    → SameSources x m
    → SameSources y m
    → SameSources (if b then x else y) m
either_SameSources true x y m h k = h
either_SameSources false x y m h k = k

emit_transition_events-SameSources :
    (ts : List Thread) (clock now : Time) (m : Monitor)
    → SameSources (emit_transition_events ts clock now m) m
unfolding emit_transition_events
emit_transition_events-SameSources ts clock now m =
    let s = emit_each-SameSources m.last_threads clock now ts m in
    either_SameSources m.events_ready _ _ m
      (record {
        same_cfg = s.same_cfg;
        same_app_threads = s.same_app_threads;
        same_fs_threads = s.same_fs_threads;
        same_usage = s.same_usage;
        same_rate_limits = s.same_rate_limits;
        same_pending = s.same_pending;
        same_request_sequence = s.same_request_sequence;
        same_client = s.same_client;
      })
      (same_but_events m)
  where
    same_but_events :
        (k : Monitor)
        → SameSources (record k { last_threads = index_by_id ts; events_ready = true }) k
    same_but_events k = record {
      same_cfg = refl;
      same_app_threads = refl;
      same_fs_threads = refl;
      same_usage = refl;
      same_rate_limits = refl;
      same_pending = refl;
      same_request_sequence = refl;
      same_client = refl;
    }

broadcast_snapshot-SameSources :
    (env : Env) (m : Monitor) → SameSources (broadcast_snapshot env m) m
unfolding broadcast_snapshot
broadcast_snapshot-SameSources env m =
    either_SameSources (m.stream_ready && (signature_of env m.snapshot == m.stream_signature)) m _ m
      (SameSources_refl m)
      (record {
        same_cfg = refl;
        same_app_threads = refl;
        same_fs_threads = refl;
        same_usage = refl;
        same_rate_limits = refl;
        same_pending = refl;
        same_request_sequence = refl;
        same_client = refl;
      })

refresh_snapshot-SameSources :
    (env : Env) (now : Time) (ts : List Thread) (m : Monitor)
    → SameSources
        (refresh_snapshot env now (rebuild_threads env now m).0 (rebuild_threads env now m).1)
        m
unfolding refresh_snapshot rebuild_threads apply_hooks
refresh_snapshot-SameSources env now ts m = record {
  same_cfg = refl;
  same_app_threads = refl;
  same_fs_threads = refl;
  same_usage = refl;
  same_rate_limits = refl;
  same_pending = refl;
  same_request_sequence = refl;
  same_client = refl;
}

-- A rebuild changes none of what it is built from, but the observations that have expired.
pub rebuild-SameSources : (env : Env) (now : Time) (m : Monitor) → SameSources (rebuild env now m) m
unfolding rebuild
rebuild-SameSources env now m =
    let merged = (rebuild_threads env now m).0 in
    let fresh = refresh_snapshot env now merged (rebuild_threads env now m).1 in
    SameSources_trans
      (broadcast_snapshot-SameSources env (emit_transition_events merged env.clock now fresh))
      (SameSources_trans (emit_transition_events-SameSources merged env.clock now fresh)
        (refresh_snapshot-SameSources env now merged m))

-- The history's validity reads two fields.
HistoryIsValid-of :
    (m n : Monitor)
    → m.event_history ≡ n.event_history
    → m.event_sequence ≡ n.event_sequence
    → HistoryIsValid n
    → HistoryIsValid m
HistoryIsValid-of m n h s v = record {
  bounded = rw h v.bounded;
  counted = rw (h, s) v.counted;
  consecutive = rw (h, s) v.consecutive;
}

length-transitions-le :
    (last : List (String × Thread)) (now : Time) (ts : List Thread)
    → length (transitions last now ts) ≤ length ts
length-transitions-le last now [] = omega arith
length-transitions-le last now (t ∷ ts) = elim (Option-cases (thread_event last now t)) [
  | inl quiet ↦ rw (quiet, transitions) (omega (arith, length-transitions-le last now ts))
  | inr (e, loud) ↦ rw (loud, transitions) (omega (arith, length-transitions-le last now ts))
]

emit_transition_events-HistoryIsValid :
    (ts : List Thread) (clock now : Time) (m : Monitor)
    → m.event_sequence + length ts < 2 ^ 64
    → HistoryIsValid m
    → HistoryIsValid (emit_transition_events ts clock now m)
emit_transition_events-HistoryIsValid ts clock now m small v = elim (Bool-cases m.events_ready) [
  | inl ready ↦
      let es = transitions m.last_threads now ts in
      subst HistoryIsValid
        (sym (
          emit_transition_events-emitted ts clock now m ready v.bounded
            (omega (arith, length-transitions-le m.last_threads now ts))))
        (HistoryIsValid-of _ (emitted clock es m) refl refl (emitted-HistoryIsValid clock es m v))
  | inr first ↦
      HistoryIsValid-of _ m (first_history ts clock now m first).0
        (first_history ts clock now m first).1 v
]

length-rebuild_history :
    (env : Env) (n : Monitor)
    → ((broadcast_snapshot env n).event_history ≡ n.event_history)
      × ((broadcast_snapshot env n).event_sequence ≡ n.event_sequence)
unfolding broadcast_snapshot
length-rebuild_history env n = ground arith

-- What a rebuild starts its events from has the old history.
refresh_snapshot-HistoryIsValid :
    (env : Env) (now : Time) (m : Monitor)
    → HistoryIsValid m
    → HistoryIsValid
        (refresh_snapshot env now (rebuild_threads env now m).0 (rebuild_threads env now m).1)
unfolding refresh_snapshot rebuild_threads apply_hooks
refresh_snapshot-HistoryIsValid env now m v = HistoryIsValid-of _ m refl refl v

refresh_snapshot-event_sequence :
    (env : Env) (now : Time) (m : Monitor)
    → (refresh_snapshot env now
        (rebuild_threads env now m).0
        (rebuild_threads env now m).1).event_sequence
      ≡ m.event_sequence
unfolding refresh_snapshot rebuild_threads apply_hooks
refresh_snapshot-event_sequence env now m = refl

-- A rebuild keeps the history valid, if the 64-bit counter has room for one event a thread: at most
-- 256 events, numbered without a gap up to the last number that was given.
pub rebuild-HistoryIsValid :
    (env : Env) (now : Time) (m : Monitor)
    → m.event_sequence + length (rebuild_threads env now m).0 < 2 ^ 64
    → HistoryIsValid m
    → HistoryIsValid (rebuild env now m)
unfolding rebuild
rebuild-HistoryIsValid env now m small v =
    let merged = (rebuild_threads env now m).0 in
    let fresh = refresh_snapshot env now merged (rebuild_threads env now m).1 in
    let after = emit_transition_events merged env.clock now fresh in
    let same = length-rebuild_history env after in
    HistoryIsValid-of _ after same.0 same.1 (
      emit_transition_events-HistoryIsValid merged env.clock now fresh
        (rw (refresh_snapshot-event_sequence env now m) small)
        (refresh_snapshot-HistoryIsValid env now m v))
