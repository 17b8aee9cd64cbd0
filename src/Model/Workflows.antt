-- ===== src/Model/Workflows.antt =====
-- The workflows that `Summarize` of agent/internal/model/model.go counts: one for each root.
use codex_ha_monitor.Prelude.{
  ◌+◌, ◌≤◌, ◌<◌, Bool, not, ◌&&◌, String, List, [], ◌∷◌, length, any, insert, lookup, lookup-insert,
  has_key, ◌||◌, IsMap, insert-IsMap, arith, ◌≡◌, refl, ap, inl, ◌∙◌, ◌⊎◌, ◌=?=◌,
}
use codex_ha_monitor.Model.Types.{
  State, unset, running, waiting_approval, waiting_input, idle, error, unknown, same_state, Thread,
}
use codex_ha_monitor.Model.Summarize.{
  Tally, is_active, workflow_root, tally, tally_workflows, tally_counts, tally_best, tally_all,
  no_tally, summarize,
}
use codex_ha_monitor.Model.Counts.{close_summary-counters}

-- The states of a thread that runs or waits for an approval or for input.
abbrev pub is_at_work : State → Bool
is_at_work s = same_state s running || same_state s waiting_approval || same_state s waiting_input

-- `k` is the root of a thread: the one that it names or, where it names none, its own id.
abbrev pub is_root_of : String → Thread → Bool
is_root_of k t =
    (not (t.root_thread_id =?= "") && (t.root_thread_id =?= k))
    || ((t.root_thread_id =?= "") && (t.id =?= k))

-- Some thread that runs or waits belongs to the workflow of root `k`.
abbrev pub has_workflow : String → List Thread → Bool
has_workflow k = any (λ t. is_at_work t.state && is_root_of k t)

is_active-at_work : (t : Thread) → is_active t.state ≡ is_at_work t.state
is_active-at_work t = by_state t.state
  where
    by_state : (s : State) → is_active s ≡ is_at_work s
    by_state unset = refl
    by_state running = refl
    by_state waiting_approval = refl
    by_state waiting_input = refl
    by_state idle = refl
    by_state error = refl
    by_state unknown = refl

workflow_root-is_root_of : (k : String) (t : Thread) → (workflow_root t =?= k) ≡ is_root_of k t
workflow_root-is_root_of k t = ground arith

tally-workflows :
    (k : String) (x : Tally) (t : Thread)
    → has_key k (tally x t).workflows
      ≡ has_key k x.workflows || (is_at_work t.state && is_root_of k t)
unfolding tally tally_workflows
tally-workflows k x t = ground (
  arith,
  lookup-insert (workflow_root t) k tt x.workflows,
  workflow_root-is_root_of k t,
  is_active-at_work t,
)

or_assoc : (a b c : Bool) → ((a || b) || c) ≡ a || (b || c)
or_assoc a b c = ground arith

tally_all-workflows :
    (k : String) (x : Tally) (ts : List Thread)
    → has_key k (tally_all x ts).workflows ≡ has_key k x.workflows || has_workflow k ts
unfolding tally_all
tally_all-workflows k x [] = ground arith
tally_all-workflows k x (t ∷ ts) =
    tally_all-workflows k (tally x t) ts
    ∙ ap (λ b. b || has_workflow k ts) (tally-workflows k x t)
    ∙ or_assoc (has_key k x.workflows) (is_at_work t.state && is_root_of k t) (has_workflow k ts)

tally_workflows-IsMap :
    (t : Thread) (ws : List (String × Unit {0})) → IsMap ws → IsMap (tally_workflows t ws)
unfolding tally_workflows
tally_workflows-IsMap t ws h = ground (arith, insert-IsMap (workflow_root t) tt ws h)

tally_all-IsMap :
    (x : Tally) (ts : List Thread) → IsMap x.workflows → IsMap (tally_all x ts).workflows
unfolding tally_all tally
tally_all-IsMap x [] h = h
tally_all-IsMap x (t ∷ ts) h =
    tally_all-IsMap (tally x t) ts (tally_workflows-IsMap t x.workflows h)

-- `active_workflows` is the number of distinct roots of the threads that run or wait for approval or
-- input, where a thread that names no root is its own: it is the length of a list of keys, none of
-- them twice, that holds exactly these roots.
pub active_workflows-IsMap :
    (ts : List Thread) (shared : Bool)
    → (roots : List (String × Unit {0})) × IsMap roots
      × ((k : String) → has_key k roots ≡ has_workflow k ts)
      × ((summarize ts shared).active_workflows ≡ length roots)
unfolding summarize lookup
active_workflows-IsMap ts shared =
    let x = tally_all (no_tally ts) ts in
    (
      x.workflows,
      tally_all-IsMap (no_tally ts) ts tt,
      λ k. tally_all-workflows k (no_tally ts) ts,
      (close_summary-counters ts shared x).4,
    )

length-insert :
    (k : String) (m : List (String × Unit {0}))
    → (length m ≤ length (insert k tt m))
      × (length (insert k tt m) ≤ length m + 1)
      × (0 < length (insert k tt m))
unfolding insert
length-insert k [] = omega arith
length-insert k ((i, w) ∷ m) = ground (arith, length-insert k m)

tally-length :
    (x : Tally) (t : Thread)
    → let n = length (tally x t).workflows in
      let a = (tally x t).s.active_threads in
      (n + x.s.active_threads ≤ length x.workflows + a)
      × (length x.workflows ≤ n)
      × ((a ≡ x.s.active_threads) ⊎ (0 < n))
unfolding tally tally_workflows tally_best tally_counts
tally-length x t = ground (arith, length-insert (workflow_root t) x.workflows)

tally_all-length :
    (x : Tally) (ts : List Thread)
    → let n = length (tally_all x ts).workflows in
      let a = (tally_all x ts).s.active_threads in
      (n + x.s.active_threads ≤ length x.workflows + a)
      × (length x.workflows ≤ n)
      × ((a ≡ x.s.active_threads) ⊎ (0 < n))
unfolding tally_all
tally_all-length x [] = (omega arith, omega arith, inl refl)
tally_all-length x (t ∷ ts) = ground (arith, tally_all-length (tally x t) ts, tally-length x t)

-- There are at most as many workflows as active threads, and none only if no thread is active.
pub active_workflows-le-active_threads :
    (ts : List Thread) (shared : Bool)
    → ((summarize ts shared).active_workflows ≤ (summarize ts shared).active_threads)
      × ((summarize ts shared).active_workflows ≡ 0 → (summarize ts shared).active_threads ≡ 0)
unfolding summarize
active_workflows-le-active_threads ts shared =
    let x = tally_all (no_tally ts) ts in
    ground (arith, close_summary-counters ts shared x, tally_all-length (no_tally ts) ts)
