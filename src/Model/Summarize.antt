-- ===== src/Model/Summarize.antt =====
-- `Summarize` of agent/internal/model/model.go: the loop over the threads, and what follows it.
use codex_ha_monitor.Prelude.{
  String, ℕ, suc, Bool, true, false, ◌&&◌, ◌||◌, not, List, [], ◌∷◌, length, insert, ltb, ◌==◌,
  ◌=?=◌, if◌then◌else◌,
}
use codex_ha_monitor.Model.Types.{
  State, unset, running, waiting_approval, waiting_input, idle, error, unknown, Thread, StateCounts,
  Summary,
}

-- The rank that the `switch` assigns.
abbrev pub rank : State → ℕ
rank waiting_approval = 6
rank waiting_input = 5
rank error = 4
rank running = 3
rank idle = 2
rank unknown = 1
rank unset = 1

-- The states that the `switch` counts as active, and that the `if` below it tests for.
abbrev pub is_active : State → Bool
is_active waiting_approval = true
is_active waiting_input = true
is_active running = true
is_active error = false
is_active idle = false
is_active unknown = false
is_active unset = false

-- The counter that the `switch` raises.
abbrev pub count_state : State → StateCounts → StateCounts
count_state waiting_approval c = record c { waiting_approval_count = suc c.waiting_approval_count }
count_state waiting_input c = record c { waiting_input_count = suc c.waiting_input_count }
count_state error c = record c { error_count = suc c.error_count }
count_state running c = record c { running_count = suc c.running_count }
count_state idle c = record c { idle_count = suc c.idle_count }
count_state unknown c = record c { unknown_count = suc c.unknown_count }
count_state unset c = record c { unknown_count = suc c.unknown_count }

-- `rootID`: the thread's root, or the thread itself.
abbrev pub workflow_root : Thread → String
workflow_root t = if t.root_thread_id =?= "" then t.id else t.root_thread_id

-- The local variables of `Summarize`. The set of workflows is a map to the unit.
pub record Tally : Type 0 where
  pub s : Summary
  pub best_rank : ℕ
  pub workflows : List (String × Unit {0})

-- One round of the loop, in three parts: the counters, the set of workflows, the best state.
unfoldable pub tally_counts : Thread → Summary → Summary
tally_counts t s = record s {
  states = count_state t.state s.states;
  active_threads = if is_active t.state then suc s.active_threads else s.active_threads;
}

unfoldable pub tally_workflows : Thread → List (String × Unit {0}) → List (String × Unit {0})
tally_workflows t ws = if is_active t.state then insert (workflow_root t) tt ws else ws

unfoldable pub tally_best : Thread → ℕ → Summary → Summary
tally_best t best s =
    if ltb best (rank t.state)
    then record s {
      workload_state = t.state;
      state_source = t.state_source;
      state_confidence = t.state_confidence;
    }
    else s

unfoldable pub tally : Tally → Thread → Tally
tally x t = record {
  s = tally_best t x.best_rank (tally_counts t x.s);
  best_rank = if ltb x.best_rank (rank t.state) then rank t.state else x.best_rank;
  workflows = tally_workflows t x.workflows;
}

unfoldable pub tally_all : Tally → List Thread → Tally
tally_all x [] = x
tally_all x (t ∷ ts) = tally_all (tally x t) ts

abbrev pub no_counts : StateCounts
no_counts = record {
  running_count = 0;
  waiting_approval_count = 0;
  waiting_input_count = 0;
  idle_count = 0;
  error_count = 0;
  unknown_count = 0;
}

abbrev pub no_tally : List Thread → Tally
no_tally threads = record {
  s = record {
    workload_state = unknown;
    state_source = "none";
    state_confidence = "unknown";
    known_threads = length threads;
    active_threads = 0;
    active_workflows = 0;
    active_workers = 0;
    states = no_counts;
  };
  best_rank = 0;
  workflows = [];
}

-- The `if` at the end: nothing is known, or what is known may hide another process's work.
abbrev pub is_hidden : List Thread → Bool → Summary → Bool
is_hidden threads shared s =
    length threads == 0 || (not shared && s.active_threads == 0 && s.states.error_count == 0)

unfoldable pub close_summary : List Thread → Bool → Tally → Summary
close_summary threads shared x =
    let s : Summary = record x.s {
      active_workers = x.s.active_threads;
      active_workflows = length x.workflows;
    } in
    if is_hidden threads shared s
    then record s { workload_state = unknown; state_source = "none"; state_confidence = "unknown" }
    else s

unfoldable pub summarize : List Thread → Bool → Summary
summarize threads shared = close_summary threads shared (tally_all (no_tally threads) threads)
