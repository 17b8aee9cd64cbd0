-- ===== src/Monitor/Refresh/Outcomes.antt =====
-- How `refreshAppServer` of agent/internal/monitor/monitor.go ends, and when failing account
-- readings restart the App Server (`recordAccountResult`).
use codex_ha_monitor.Prelude.{
  ℕ, zero, suc, ◌+◌, ◌-◌, ◌^◌, ◌≤◌, ◌<◌, String, Bool, true, false, List, ◌∷◌, length, map, ltb,
  ◌==◌, ltb_int64, inc_int64, if◌then◌else◌, none, some, pos, Result, ok, err, ◌≡◌, ◌≢◌, ◌⊎◌, ◌↔◌,
  ◌∙◌, ap, inl, inr, refl, sym, arith, Bool-cases, Option-cases,
}
use codex_ha_monitor.Json.{JsonMap}
use codex_ha_monitor.Model.Types.{Time, Thread}
use codex_ha_monitor.Monitor.State.{Monitor, Env}
use codex_ha_monitor.Monitor.Account.{failure_threshold, record_account_result}
use codex_ha_monitor.Monitor.Rebuild.{rebuild}
use codex_ha_monitor.Monitor.Refresh.{
  Replies, failures_of, store_refresh, item_thread, panicked, ThreadItem, account_reading, finished,
  refresh_with, refresh_app_server,
}

-- `n` readings that fail, one after another.
abbrev pub failing : Time → String → List String → ℕ → Monitor → Monitor
failing now f fs zero m = m
failing now f fs (suc n) m = (record_account_result now (f ∷ fs) (failing now f fs n m)).0

count_failure-count :
    (now : Time) (f : String) (fs : List String) (m : Monitor)
    → ((record_account_result now (f ∷ fs) m).0.snapshot.codex.consecutive_failures
        ≡ inc_int64 m.snapshot.codex.consecutive_failures)
      × ((record_account_result now (f ∷ fs) m).0.cfg ≡ m.cfg)
      × ((record_account_result now (f ∷ fs) m).1 ≡ (
          if ltb_int64 (inc_int64 m.snapshot.codex.consecutive_failures) (failure_threshold m.cfg)
          then false
          else true))
unfolding record_account_result
count_failure-count now f fs m =
    elim (Bool-cases
      (ltb_int64 (inc_int64 m.snapshot.codex.consecutive_failures) (failure_threshold m.cfg))) [
        | inl b ↦ rw (b) (refl, refl, refl)
        | inr b ↦ rw (b) (refl, refl, refl)
      ]

inc_int64-pos : (n : ℕ) → suc n < 2 ^ 63 → inc_int64 (pos n) ≡ pos (suc n)
unfolding inc_int64
inc_int64-pos n small =
    let below : (n == 2 ^ 63 - 1) ≡ false = ground arith in
    let next : n + 1 ≡ suc n = omega arith in rw (below) (ap pos next)

failing-count :
    (now : Time) (f : String) (fs : List String) (n : ℕ) (m : Monitor)
    → m.snapshot.codex.consecutive_failures ≡ pos 0
    → n < 2 ^ 63
    → ((failing now f fs n m).snapshot.codex.consecutive_failures ≡ pos n)
      × ((failing now f fs n m).cfg ≡ m.cfg)
failing-count now f fs zero m start small = (start, refl)
failing-count now f fs (suc n) m start small =
    let before = failing-count now f fs n m start (omega arith) in
    let step = count_failure-count now f fs (failing now f fs n m) in
    (step.0 ∙ ap inc_int64 before.0 ∙ inc_int64-pos n small, step.1 ∙ before.1)

-- After `n` readings in a row that failed, the next that fails asks for a restart of the App Server
-- exactly if the threshold is at most `n + 1`; the 64-bit count must not run over.
pub record_account_result-threshold :
    (now : Time) (f : String) (fs : List String) (n t : ℕ) (m : Monitor)
    → m.snapshot.codex.consecutive_failures ≡ pos 0
    → failure_threshold m.cfg ≡ pos t
    → suc n < 2 ^ 63
    → ((record_account_result now (f ∷ fs) (failing now f fs n m)).1 ≡ true) ↔ (t ≤ suc n)
record_account_result-threshold now f fs n t m start limit small =
    let before = failing-count now f fs n m start (omega arith) in
    let step = count_failure-count now f fs (failing now f fs n m) in
    let count = ap inc_int64 before.0 ∙ inc_int64-pos n small in
    let bound = ap failure_threshold before.1 ∙ limit in
    let decided : (record_account_result now (f ∷ fs) (failing now f fs n m)).1
        ≡ (if ltb (suc n) t then false else true) =
      step.2 ∙ (λ i. if ltb_int64 (count i) (bound i) then false else true) ∙ reread (suc n) t in
    (λ h. ground (arith, sym decided ∙ h), λ h. decided ∙ ground arith)
  where
    reread :
        (a b : ℕ)
        → (if ltb_int64 (pos a) (pos b) then false else true) ≡ (if ltb a b then false else true)
    reread a b = ground arith

account_reading-none : (r : Result String JsonMap) → account_reading r ≡ none → r ≡ ok none
unfolding account_reading
account_reading-none (err e) h = ground arith
account_reading-none (ok none) h = refl
account_reading-none (ok (some answer)) h = ground arith

finished_returns :
    (restart : Bool) (failures : List String) (m : Monitor) → finished restart failures m ≢ panicked
finished_returns true failures m h = cc
finished_returns false failures m h = cc

-- Whether a reply of the account makes `refreshAppServer` store into a nil map.
abbrev pub HasNullAccount : Replies → Type 0
HasNullAccount r = (r.usage ≡ ok none) ⊎ (r.rate_limits ≡ ok none)

refresh_with-panicked :
    (env : Env) (now : Time) (meanwhile : Monitor → Monitor) (threads : List Thread) (r : Replies)
    (m : Monitor)
    → (refresh_with env now meanwhile threads r m ≡ panicked) ↔ HasNullAccount r
unfolding refresh_with account_reading
refresh_with-panicked env now meanwhile threads r m = (
  λ h. elim (Option-cases (account_reading r.usage)) [
    | inl gone ↦ inl (account_reading-none r.usage gone)
    | inr (usage, u) ↦ elim (Option-cases (account_reading r.rate_limits)) [
      | inl gone ↦ inr (account_reading-none r.rate_limits gone)
      | inr (limits, l) ↦
          let h' = rw (u, l, refresh_with) at h in
          let counted = record_account_result now (failures_of r) m in
          absurd (
            finished_returns counted.1 (failures_of r)
              (rebuild env now (
                store_refresh now threads usage limits (length (failures_of r) == 0)
                  (meanwhile counted.0)))
              h')
    ]
  ],
  λ null. elim (Option-cases (account_reading r.usage)) [
    | inl gone ↦ rw (gone, refresh_with) refl
    | inr (usage, u) ↦ elim null [
      | inl e ↦ let gone : account_reading r.usage ≡ none = ap account_reading e in ground arith
      | inr e ↦
          let gone : account_reading r.rate_limits ≡ none = ap account_reading e in
          rw (u, gone, refresh_with) refl
    ]
  ],
)

abbrev pub IsListed : Result String (List ThreadItem) → Type 0
IsListed (ok items) = Unit
IsListed (err e) = ⊥

-- A refresh panics exactly if the threads were listed and one of the account's two replies is
-- `null`; else it returns, with or without an error.
pub refresh_app_server-panicked :
    (env : Env) (now : Time) (meanwhile : Monitor → Monitor) (r : Replies) (m : Monitor)
    → (refresh_app_server env now meanwhile r m ≡ panicked)
      ↔ (IsListed r.threads × HasNullAccount r)
unfolding refresh_app_server
refresh_app_server-panicked env now meanwhile r m = by_threads r.threads
  where
    by_threads :
        (ts : Result String (List ThreadItem))
        → (refresh_app_server env now meanwhile (record r { threads = ts }) m ≡ panicked)
          ↔ (IsListed ts × HasNullAccount r)
    by_threads (err e) = (λ h. cc, λ h. absurd h.0)
    by_threads (ok items) =
        let inner =
          refresh_with-panicked env now meanwhile (map (item_thread r.loaded) items)
            (record r { threads = ok items }) m in
        (λ h. (tt, inner.0 h), λ h. inner.1 h.1)
