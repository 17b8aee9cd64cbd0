-- ===== src/Monitor/Connect/Recovery.antt =====
-- The recovery event of `runAppServer` (agent/internal/monitor/monitor.go).
use codex_ha_monitor.Prelude.{
  ℕ, String, Bool, true, false, List, [], ◌∷◌, ◌&&◌, ◌==◌, ◌≡◌, ◌∙◌, ap, refl, if◌then◌else◌,
  Option-cases, inl, inr,
}
use codex_ha_monitor.Model.Types.{Time, Thread, AppServerInfo}
use codex_ha_monitor.Monitor.State.{Monitor, Env}
use codex_ha_monitor.Monitor.Hooks.{apply_hooks}
use codex_ha_monitor.Monitor.Stream.{emit_task_event, broadcast_snapshot, signature_of}
use codex_ha_monitor.Monitor.Events.{thread_event, emit_each, emit_transition_events}
use codex_ha_monitor.Monitor.Account.{set_connection}
use codex_ha_monitor.Monitor.Rebuild.{refresh_snapshot, rebuild_threads, rebuild}
use codex_ha_monitor.Monitor.Connect.{
  is_lost, store_client, attach_client, connect, recovered_event,
}

abbrev pub connection : Monitor → String
connection m = m.snapshot.codex.connection_state

emit_each-snapshot :
    (last : List (String × Thread)) (clock now : Time) (ts : List Thread) (m : Monitor)
    → (emit_each last clock now ts m).snapshot ≡ m.snapshot
unfolding emit_each emit_task_event
emit_each-snapshot last clock now [] m = refl
emit_each-snapshot last clock now (t ∷ ts) m = elim (Option-cases (thread_event last now t)) [
  | inl quiet ↦ rw (quiet, emit_each) (emit_each-snapshot last clock now ts m)
  | inr (e, loud) ↦
      rw (loud, emit_each) (emit_each-snapshot last clock now ts (emit_task_event clock e m))
]

-- `x` or `y`, whichever a test takes.
either_snapshot :
    (b : Bool) (x y m : Monitor)
    → x.snapshot ≡ m.snapshot
    → y.snapshot ≡ m.snapshot
    → (if b then x else y).snapshot ≡ m.snapshot
either_snapshot true x y m h k = h
either_snapshot false x y m h k = k

pub emit_transition_events-snapshot :
    (ts : List Thread) (clock now : Time) (m : Monitor)
    → (emit_transition_events ts clock now m).snapshot ≡ m.snapshot
unfolding emit_transition_events
emit_transition_events-snapshot ts clock now m =
    either_snapshot m.events_ready _ _ m (emit_each-snapshot m.last_threads clock now ts m) refl

pub broadcast_snapshot-snapshot :
    (env : Env) (m : Monitor) → (broadcast_snapshot env m).snapshot ≡ m.snapshot
unfolding broadcast_snapshot
broadcast_snapshot-snapshot env m =
    either_snapshot (m.stream_ready && (signature_of env m.snapshot == m.stream_signature)) m _ m
      refl refl

refresh_snapshot-connection :
    (env : Env) (now : Time) (m : Monitor)
    → connection
        (refresh_snapshot env now (rebuild_threads env now m).0 (rebuild_threads env now m).1)
      ≡ connection m
unfolding refresh_snapshot rebuild_threads apply_hooks
refresh_snapshot-connection env now m = refl

rebuild-connection :
    (env : Env) (now : Time) (m : Monitor) → connection (rebuild env now m) ≡ connection m
unfolding rebuild
rebuild-connection env now m =
    let merged = (rebuild_threads env now m).0 in
    let fresh = refresh_snapshot env now merged (rebuild_threads env now m).1 in
    ap (λ s. s.codex.connection_state)
      (broadcast_snapshot-snapshot env (emit_transition_events merged env.clock now fresh)
        ∙ emit_transition_events-snapshot merged env.clock now fresh)
    ∙ refresh_snapshot-connection env now m

attach_client-quiet :
    (env : Env) (now : Time) (client : ℕ) (info : AppServerInfo) (k : Monitor)
    → connection k ≡ "connecting"
    → attach_client env now client info k ≡ rebuild env now (store_client client info k)
unfolding attach_client
attach_client-quiet env now client info k h =
    ap
      (λ c. rebuild env now (
        if is_lost c
        then emit_task_event env.clock (recovered_event now) (store_client client info k)
        else store_client client info k))
      h

set_connection-connection :
    (env : Env) (now : Time) (state last_error : String) (m : Monitor)
    → connection (set_connection env now state last_error m) ≡ state
unfolding set_connection
set_connection-connection env now state last_error m = rebuild-connection env now _

-- The agent never tells of a recovery: a round sets "connecting" before it starts the App Server,
-- and unless another goroutine sets the connection meanwhile, the state that it then compares is
-- that one, whatever it was before the round. So connecting emits no `agent_recovered`.
pub connect_lem :
    (env env' : Env) (before now : Time) (meanwhile : Monitor → Monitor) (client : ℕ)
    (info : AppServerInfo) (m : Monitor)
    → ((k : Monitor) → connection (meanwhile k) ≡ connection k)
    → connect env env' before now meanwhile client info m
      ≡ rebuild env' now
          (store_client client info (meanwhile (set_connection env before "connecting" "" m)))
unfolding connect
connect_lem env env' before now meanwhile client info m untouched =
    let start = set_connection env before "connecting" "" m in
    attach_client-quiet env' now client info (meanwhile start)
      (untouched start ∙ set_connection-connection env before "connecting" "" m)
