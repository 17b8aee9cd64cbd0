-- ===== src/Monitor/Rebuild/Reported.antt =====
-- What `rebuildLocked` of agent/internal/monitor/monitor.go makes the snapshot report.
use mathlib.Core.Option
use codex_ha_monitor.Prelude.{
  String, true, false, List, [], ◌∷◌, map, some, ◌=?=◌, ◌≡◌, ◌≢◌, ◌⊎◌, ◌∙◌, ap, sym, refl, arith,
  eq_iff, inl, inr, Bool-cases, Option-cases, String-cases,
}
use codex_ha_monitor.Model.Types.{
  Time, Thread, PendingRequest, Snapshot, waiting_approval, waiting_input,
}
use codex_ha_monitor.Hierarchy.{index_by_id, assign_one, assign_thread_hierarchy}
use codex_ha_monitor.Merge.{merge_threads}
use codex_ha_monitor.Merge.Reads.{find_last}
use codex_ha_monitor.Monitor.State.{Monitor, Env}
use codex_ha_monitor.Monitor.Hooks.{apply_hooks}
use codex_ha_monitor.Monitor.Upsert.Laws.{current}
use codex_ha_monitor.Monitor.Requests.{decorate, decorate_pending_requests, request_thread}
use codex_ha_monitor.Monitor.Requests.Decorated.{
  AllAttention, last_request, shown, decorate_pending_requests_lem,
}
use codex_ha_monitor.Monitor.Events.{emit_transition_events}
use codex_ha_monitor.Monitor.Connect.Recovery.{
  broadcast_snapshot-snapshot, emit_transition_events-snapshot,
}
use codex_ha_monitor.Monitor.Rebuild.{refresh_snapshot, rebuild_threads, rebuild}

find_last-map :
    (f : Thread → Thread) (k : String) (ts : List Thread)
    → ((t : Thread) → (f t).id ≡ t.id)
    → find_last k (map f ts) ≡ Option.map f (find_last k ts)
unfolding find_last
find_last-map f k [] same = refl
find_last-map f k (t ∷ ts) same = elim (Option-cases (find_last k ts)) [
  | inl gone ↦
      let test = ap (λ id. id =?= k) (same t) in
      elim (Bool-cases (t.id =?= k)) [
        | inl b ↦ let b' = test ∙ b in rw (find_last-map f k ts same, gone, b', b) refl
        | inr b ↦ let b' = test ∙ b in rw (find_last-map f k ts same, gone, b', b) refl
      ]
  | inr (u, here) ↦ rw (find_last-map f k ts same, here) refl
]

assign_one-keeps : (m : List (String × Thread)) (t : Thread) → (assign_one m t).id ≡ t.id
unfolding assign_one
assign_one-keeps m t = ground arith

reported_threads :
    (env : Env) (now : Time) (m : Monitor)
    → (rebuild env now m).snapshot.threads ≡ (rebuild_threads env now m).0
unfolding rebuild refresh_snapshot
reported_threads env now m =
    let merged = (rebuild_threads env now m).0 in
    let fresh = refresh_snapshot env now merged (rebuild_threads env now m).1 in
    ap (λ (s : Snapshot). s.threads)
      (broadcast_snapshot-snapshot env (emit_transition_events merged env.clock now fresh)
        ∙ emit_transition_events-snapshot merged env.clock now fresh)

-- A thread that shows a request.
pub record Shows (r : PendingRequest) (t : Thread) : Type 0 where
  pub same_request : t.request_id ≡ r.id
  pub same_turn : t.turn_id ≡ r.turn_id
  pub same_control : t.controllable ≡ r.controllable
  pub waits :
      (r.request_type ≡ "approval" → t.state ≡ waiting_approval)
      × (r.request_type ≡ "input" → t.state ≡ waiting_input)

decorate-Shows :
    (m : List (String × Thread)) (r : PendingRequest) (t : Thread)
    → Shows r (assign_one m (decorate r t))
unfolding decorate assign_one
decorate-Shows m r t = record {
  same_request = ground arith;
  same_turn = ground arith;
  same_control = ground arith;
  waits = (
    λ e. ground (arith, eq_iff r.request_type "approval"),
    λ e. input_waits e (String-cases r.request_type "approval"),
  );
}
  where
    input_waits :
        r.request_type ≡ "input"
        → (((r.request_type =?= "approval") ≡ true) × (r.request_type ≡ "approval"))
          ⊎ (((r.request_type =?= "approval") ≡ false) × (r.request_type ≢ "approval"))
        → (assign_one m (decorate r t)).state ≡ waiting_input
    input_waits e (inl (b, f)) = absurd (different (sym f ∙ e))
      where
        different : ◌≢◌ {A = String} "approval" "input"
        different h = ground (arith, eq_iff "approval" "input")
    input_waits e (inr (b, n)) = ground (arith, eq_iff r.request_type "input")

-- After every rebuild, the thread of a pending request stands in the snapshot and shows a request of
-- its own: the one that Go's range visits last. It waits for what that request asks, with the
-- request's id, its turn and whether it can be answered, whatever the sources and hooks say.
pub rebuild-Shows :
    (env : Env) (now : Time) (m : Monitor) (k : String) (r : PendingRequest)
    → AllAttention (env.order_pending m.pending_requests)
    → last_request k (env.order_pending m.pending_requests) ≡ some r
    → (t : Thread) × (find_last k (rebuild env now m).snapshot.threads ≡ some t) × Shows r t
unfolding rebuild_threads assign_thread_hierarchy apply_hooks
rebuild-Shows env now m k r attention last =
    let (hooked, m') =
      apply_hooks env (merge_threads env.order_threads m.app_threads m.fs_threads) now m in
    let placed = assign_thread_hierarchy hooked in
    let decorated = decorate_pending_requests env placed m' in
    let d = decorate r (current (request_thread r) (find_last k placed)) in
    let here : find_last k decorated ≡ some d =
      decorate_pending_requests_lem env m' placed attention k
      ∙ ap (λ q. shown q (find_last k placed)) last in
    let top = index_by_id decorated in
    (
      assign_one top d,
      ap (find_last k) (reported_threads env now m)
          ∙ find_last-map (assign_one top) k decorated (assign_one-keeps top)
          ∙ ap (Option.map (assign_one top)) here,
      decorate-Shows top r (current (request_thread r) (find_last k placed)),
    )
