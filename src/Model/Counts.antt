-- ===== src/Model/Counts.antt =====
-- What `Summarize` of agent/internal/model/model.go counts.
use codex_ha_monitor.Prelude.{
  ℕ, suc, ◌+◌, Bool, List, [], ◌∷◌, length, count_if, arith, Bool-cases, inl, inr, refl, sym,
  if◌then◌else◌, ◌≡◌, ◌∙◌, ap,
}
use codex_ha_monitor.Model.Types.{
  State, unset, running, waiting_approval, waiting_input, idle, error, unknown, Thread, StateCounts,
  same_state,
}
use codex_ha_monitor.Model.Summarize.{
  Tally, is_active, count_state, tally, tally_counts, tally_best, tally_all, no_tally,
  close_summary, summarize, no_counts, is_hidden,
}

-- How many of the threads are in a state.
abbrev pub in_state : State → List Thread → ℕ
in_state st = count_if (λ t. same_state st t.state)

-- How many of the threads run or wait.
abbrev pub active_count : List Thread → ℕ
active_count = count_if (λ t. is_active t.state)

-- The six counters, each by a count of its own.
abbrev pub counts_of : List Thread → StateCounts
counts_of ts = record {
  running_count = in_state running ts;
  waiting_approval_count = in_state waiting_approval ts;
  waiting_input_count = in_state waiting_input ts;
  idle_count = in_state idle ts;
  error_count = in_state error ts;
  unknown_count = in_state unknown ts + in_state unset ts;
}

abbrev pub add_counts : StateCounts → StateCounts → StateCounts
add_counts a b = record {
  running_count = a.running_count + b.running_count;
  waiting_approval_count = a.waiting_approval_count + b.waiting_approval_count;
  waiting_input_count = a.waiting_input_count + b.waiting_input_count;
  idle_count = a.idle_count + b.idle_count;
  error_count = a.error_count + b.error_count;
  unknown_count = a.unknown_count + b.unknown_count;
}

count_state-counts :
    (t : Thread) (c : StateCounts) (ts : List Thread)
    → add_counts (count_state t.state c) (counts_of ts) ≡ add_counts c (counts_of (t ∷ ts))
count_state-counts t c ts = ground arith

tally_states : (x : Tally) (t : Thread) → (tally x t).s.states ≡ count_state t.state x.s.states
unfolding tally tally_best tally_counts
tally_states x t = ground arith

pub tally_all-counts :
    (x : Tally) (ts : List Thread)
    → (tally_all x ts).s.states ≡ add_counts x.s.states (counts_of ts)
unfolding tally_all
tally_all-counts x [] = ground arith
tally_all-counts x (t ∷ ts) =
    tally_all-counts (tally x t) ts
    ∙ ap (λ c. add_counts c (counts_of ts)) (tally_states x t)
    ∙ count_state-counts t x.s.states ts

tally_active :
    (x : Tally) (t : Thread)
    → ((tally x t).s.active_threads
        ≡ (if is_active t.state then suc x.s.active_threads else x.s.active_threads))
      × ((tally x t).s.known_threads ≡ x.s.known_threads)
unfolding tally tally_best tally_counts
tally_active x t = ground arith

pub tally_all-active :
    (x : Tally) (ts : List Thread)
    → ((tally_all x ts).s.active_threads ≡ x.s.active_threads + active_count ts)
      × ((tally_all x ts).s.known_threads ≡ x.s.known_threads)
unfolding tally_all
tally_all-active x [] = ground arith
tally_all-active x (t ∷ ts) = ground (arith, tally_all-active (tally x t) ts, tally_active x t)

active-counts :
    (ts : List Thread)
    → active_count ts
      ≡ in_state running ts + in_state waiting_approval ts + in_state waiting_input ts
active-counts [] = omega arith
active-counts (t ∷ ts) = ground (arith, active-counts ts)

counts_total :
    (ts : List Thread)
    → in_state running ts
        + in_state waiting_approval ts
        + in_state waiting_input ts
        + in_state idle ts
        + in_state error ts
        + (in_state unknown ts + in_state unset ts)
      ≡ length ts
counts_total [] = omega arith
counts_total (t ∷ ts) = ground (arith, counts_total ts)

add_no_counts : (c : StateCounts) → add_counts no_counts c ≡ c
add_no_counts c = ground arith

-- The end of `Summarize` leaves the counters as they are.
pub close_summary-counters :
    (ts : List Thread) (shared : Bool) (x : Tally)
    → ((close_summary ts shared x).states ≡ x.s.states)
      × ((close_summary ts shared x).active_threads ≡ x.s.active_threads)
      × ((close_summary ts shared x).known_threads ≡ x.s.known_threads)
      × ((close_summary ts shared x).active_workers ≡ x.s.active_threads)
      × ((close_summary ts shared x).active_workflows ≡ length x.workflows)
unfolding close_summary
close_summary-counters ts shared x = elim (Bool-cases (is_hidden ts shared x.s)) [
  | inl e ↦ rw e (refl, refl, refl, refl, refl)
  | inr e ↦ rw e (refl, refl, refl, refl, refl)
]

module _ (ts : List Thread) (shared : Bool) where
  -- The six counters of `Summarize` are the numbers of threads in each state (a thread with no
  -- state counts as unknown), whatever is visible.
  pub summarize-counts_of : (summarize ts shared).states ≡ counts_of ts
  unfolding summarize
  summarize-counts_of =
      (close_summary-counters ts shared (tally_all (no_tally ts) ts)).0
      ∙ tally_all-counts (no_tally ts) ts
      ∙ add_no_counts (counts_of ts)

  -- Every thread is counted exactly once; the active ones are those that run or wait, and the
  -- workers are the active threads.
  pub summarize_totals :
      ((summarize ts shared).known_threads ≡ length ts)
      × ((summarize ts shared).states.running_count
            + (summarize ts shared).states.waiting_approval_count
            + (summarize ts shared).states.waiting_input_count
            + (summarize ts shared).states.idle_count
            + (summarize ts shared).states.error_count
            + (summarize ts shared).states.unknown_count
          ≡ length ts)
      × ((summarize ts shared).active_threads
          ≡ (summarize ts shared).states.running_count
            + (summarize ts shared).states.waiting_approval_count
            + (summarize ts shared).states.waiting_input_count)
      × ((summarize ts shared).active_workers ≡ (summarize ts shared).active_threads)
  unfolding summarize
  summarize_totals =
      let counters = close_summary-counters ts shared (tally_all (no_tally ts) ts) in
      let active = tally_all-active (no_tally ts) ts in
      (
        counters.2 ∙ active.1,
        rw summarize-counts_of (omega (arith, counts_total ts)),
        rw summarize-counts_of (omega (arith, counters.1, active.0, active-counts ts)),
        counters.3 ∙ sym counters.1,
      )
