-- ===== src/Model/Severity.antt =====
-- Which thread's state `Summarize` of agent/internal/model/model.go reports.
use codex_ha_monitor.Prelude.{
  ℕ, ◌≤◌, ◌<◌, Bool, true, false, List, [], ◌∷◌, ◌++◌, All, ltb, arith, ◌≡◌, ◌≢◌, refl, ap,
  Bool-cases, inl, inr, All-append, subst, ◌∙◌, ◌⊎◌,
}
use mathlib.Core.List.{append_assoc, append-nil}
use codex_ha_monitor.Model.Types.{State, error, unknown, Thread, Summary, StateCounts}
use codex_ha_monitor.Model.Counts.{in_state, active_count, tally_all-counts, tally_all-active}
use codex_ha_monitor.Model.Summarize.{
  Tally, rank, tally, tally_counts, tally_best, tally_all, no_tally, close_summary, summarize,
  is_hidden,
}

-- The first of the threads with the highest rank.
pub record IsFirstTop (t : Thread) (ts : List Thread) : Type 0 where
  pub before : List Thread
  pub after : List Thread
  pub split : ts ≡ before ++ t ∷ after
  pub lower : All (λ u. rank u.state < rank t.state) before
  pub no_higher : All (λ u. rank u.state ≤ rank t.state) after

-- The three fields that report a thread.
abbrev pub Reports : Summary → Thread → Type 0
Reports s t =
    (s.workload_state ≡ t.state)
    × (s.state_source ≡ t.state_source)
    × (s.state_confidence ≡ t.state_confidence)

-- The tally after `ts`: it reports the first top thread, if there was one.
abbrev Follows : Tally → List Thread → Type 0
Follows x ts = (t : Thread) × IsFirstTop t ts × Reports x.s t × (x.best_rank ≡ rank t.state)

tally_best_lem :
    (x : Tally) (t : Thread)
    → (ltb x.best_rank (rank t.state) ≡ true
        → Reports (tally x t).s t × ((tally x t).best_rank ≡ rank t.state))
      × (ltb x.best_rank (rank t.state) ≡ false
          → (u : Thread) → Reports x.s u
          → Reports (tally x t).s u × ((tally x t).best_rank ≡ x.best_rank))
unfolding tally tally_best tally_counts
tally_best_lem x t = (λ h. ground arith, λ h u r. ground arith)

All-lower :
    (m n : ℕ) (ts : List Thread)
    → m < n
    → All (λ u. rank u.state ≤ m) ts
    → All (λ u. rank u.state < n) ts
All-lower m n [] h a = tt
All-lower m n (t ∷ ts) h a = (omega arith, All-lower m n ts h a.1)

All-weaken :
    (m n : ℕ) (ts : List Thread)
    → m ≤ n
    → All (λ u. rank u.state < m) ts
    → All (λ u. rank u.state < n) ts
All-weaken m n [] h a = tt
All-weaken m n (t ∷ ts) h a = (omega arith, All-weaken m n ts h a.1)

tally-Follows :
    (x : Tally) (done : List Thread) (t : Thread)
    → Follows x done
    → Follows (tally x t) (done ++ t ∷ [])
tally-Follows x done t (u, top, reports, best) =
    elim (Bool-cases (ltb x.best_rank (rank t.state))) [
      | inl e ↦
          let fresh = (tally_best_lem x t).0 e in
          let above : rank u.state < rank t.state = ground arith in
          (
            t,
            record {
              before = done;
              after = [];
              split = refl;
              lower = rw top.split (
                  All-append _ top.before (u ∷ top.after)
                    (All-weaken _ _ top.before (omega arith) top.lower)
                    (above, All-lower _ _ top.after above top.no_higher));
              no_higher = tt;
            },
            fresh.0,
            fresh.1,
          )
      | inr e ↦
          let kept = (tally_best_lem x t).1 e u reports in
          (
            u,
            record {
              before = top.before;
              after = top.after ++ t ∷ [];
              split = rw top.split (append_assoc top.before (u ∷ top.after) (t ∷ []));
              lower = top.lower;
              no_higher = All-append _ top.after (t ∷ []) top.no_higher (ground arith, tt);
            },
            kept.0,
            kept.1 ∙ best,
          )
    ]

tally_all-Follows :
    (x : Tally) (done ts : List Thread) → Follows x done → Follows (tally_all x ts) (done ++ ts)
unfolding tally_all
tally_all-Follows x done [] f = rw append-nil f
tally_all-Follows x done (t ∷ ts) f =
    subst (Follows (tally_all (tally x t) ts)) (append_assoc done (t ∷ []) ts)
      (tally_all-Follows (tally x t) (done ++ t ∷ []) ts (tally-Follows x done t f))

rank_pos : (s : State) → 0 < rank s
rank_pos s = ground arith

no_tally-Follows :
    (n : List Thread) (t : Thread) (ts : List Thread)
    → Follows (tally_all (no_tally n) (t ∷ ts)) (t ∷ ts)
unfolding tally_all
no_tally-Follows n t ts =
    let fresh = (tally_best_lem (no_tally n) t).0 (ground (arith, rank_pos t.state)) in
    tally_all-Follows (tally (no_tally n) t) (t ∷ []) ts (
      t,
      record { before = []; after = []; split = refl; lower = tt; no_higher = tt },
      fresh.0,
      fresh.1,
    )

-- What the agent sees may not be all there is: no thread, or only its own view with neither an
-- active thread nor an error.
abbrev pub IsBlind : List Thread → Bool → Type 0
IsBlind ts shared = (ts ≡ []) ⊎ ((shared ≡ false) × (active_count ts ≡ 0) × (in_state error ts ≡ 0))

abbrev loop_end : List Thread → Tally
loop_end ts = tally_all (no_tally ts) ts

loop_end-Follows : (ts : List Thread) → ts ≢ [] → Follows (loop_end ts) ts
loop_end-Follows [] n = absurd (n refl)
loop_end-Follows (t ∷ ts) n = no_tally-Follows (t ∷ ts) t ts

hidden_iff :
    (ts : List Thread) (shared : Bool) (s : Summary)
    → s.active_threads ≡ active_count ts
    → s.states.error_count ≡ in_state error ts
    → (IsBlind ts shared → is_hidden ts shared s ≡ true)
      × (is_hidden ts shared s ≡ true → IsBlind ts shared)
hidden_iff [] shared s a f = (λ _. refl, λ _. inl refl)
hidden_iff (t ∷ ts) shared s a f = (λ b. ground arith, λ h. inr (ground arith))

-- `Summarize` reports nothing (unknown, from no source) exactly where it cannot know, and else the
-- state, source and confidence of the first thread of the highest rank.
pub summarize-Reports :
    (ts : List Thread) (shared : Bool)
    → (IsBlind ts shared
        → ((summarize ts shared).workload_state ≡ unknown)
          × ((summarize ts shared).state_source ≡ "none")
          × ((summarize ts shared).state_confidence ≡ "unknown"))
      × (¬ IsBlind ts shared → (t : Thread) × IsFirstTop t ts × Reports (summarize ts shared) t)
unfolding summarize close_summary
summarize-Reports ts shared =
    let counted = ap (λ (s : StateCounts). s.error_count) (tally_all-counts (no_tally ts) ts) in
    let active = (tally_all-active (no_tally ts) ts).0 in
    let (hides, hidden) =
      hidden_iff ts shared (loop_end ts).s (omega (arith, active)) (counted ∙ omega arith) in
    (
      λ b. rw (hides b) (refl, refl, refl),
      λ n. elim (Bool-cases (is_hidden ts shared (loop_end ts).s)) [
        | inl e ↦ absurd (n (hidden e))
        | inr e ↦
            rw e
              (let (t, top, reports, _) = loop_end-Follows ts (λ p. n (inl p)) in (t, top, reports))
      ],
    )
