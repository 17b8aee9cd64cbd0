-- ===== src/Monitor/Control/Lookup.antt =====
-- `lookupPending` of agent/internal/monitor/control.go: which requests an action may answer.
use codex_ha_monitor.Prelude.{
  String, Bool, true, false, not, some, none, Option-cases, String-cases, Bool-cases, lookup,
  Result, ok, err, ◌≡◌, inl, inr, subst, sym, if◌then◌else◌,
}
use codex_ha_monitor.Model.Types.{PendingRequest}
use codex_ha_monitor.Monitor.State.{Monitor, PendingControl}
use codex_ha_monitor.Monitor.Control.{
  ActionError, lookup_pending, request_not_found, request_conflict, not_controllable,
}

-- The request that a caller names.
pub record Matches (r : PendingRequest) (thread_id turn_id request_type : String) : Type 0 where
  pub same_thread : r.thread_id ≡ thread_id
  pub same_turn : r.turn_id ≡ turn_id
  pub same_type : r.request_type ≡ request_type

-- The answer of `lookupPending`, told without its tests.
pub data Finding (m : Monitor) (id thread turn type : String)
    : Result ActionError PendingControl → Type 0 where
  missing :
      lookup id m.pending_requests ≡ none → Finding m id thread turn type (err request_not_found)
  mismatched :
      (p : PendingControl)
      → lookup id m.pending_requests ≡ some p
      → ¬ Matches p.request thread turn type
      → Finding m id thread turn type (err request_conflict)
  observed :
      (p : PendingControl)
      → lookup id m.pending_requests ≡ some p
      → Matches p.request thread turn type
      → p.request.controllable ≡ false
      → Finding m id thread turn type (err not_controllable)
  allowed :
      (p : PendingControl)
      → lookup id m.pending_requests ≡ some p
      → Matches p.request thread turn type
      → p.request.controllable ≡ true
      → Finding m id thread turn type (ok p)

-- The lookup tells a request that is not pending, then one that is not the caller's, then one that
-- cannot be answered from here; it yields the pending request exactly where none of these holds.
pub lookup_pending-Finding :
    (m : Monitor) (id thread turn type : String)
    → Finding m id thread turn type (lookup_pending m id thread turn type)
unfolding lookup_pending
lookup_pending-Finding m id thread turn type = elim (Option-cases (lookup id m.pending_requests)) [
  | inl gone ↦ rw (gone, lookup_pending) (missing gone)
  | inr (p, here) ↦
      let r = p.request in
      elim (String-cases r.thread_id thread) [
        | inr (b, n) ↦ rw (here, lookup_pending, b) (mismatched p here (λ k. n k.same_thread))
        | inl (b, e) ↦ elim (String-cases r.turn_id turn) [
          | inr (c, n) ↦ rw (here, lookup_pending, b, c) (mismatched p here (λ k. n k.same_turn))
          | inl (c, f) ↦ elim (String-cases r.request_type type) [
            | inr (d, n) ↦
                rw (here, lookup_pending, b, c, d) (mismatched p here (λ k. n k.same_type))
            | inl (d, g) ↦
                let k : Matches r thread turn type = record {
                  same_thread = e;
                  same_turn = f;
                  same_type = g;
                } in
                let ending : Bool → Type 0 = λ b.
                  Finding m id thread turn type (if not b then err not_controllable else ok p) in
                elim (Bool-cases r.controllable) [
                  | inl e ↦
                      rw (here, lookup_pending, b, c, d) (subst ending (sym e) (allowed p here k e))
                  | inr e ↦
                      rw (here, lookup_pending, b, c, d)
                        (subst ending (sym e) (observed p here k e))
                ]
          ]
        ]
      ]
]
