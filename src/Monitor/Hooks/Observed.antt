-- ===== src/Monitor/Hooks/Observed.antt =====
-- `applyHooksLocked` of agent/internal/monitor/hooks.go: which observations count, and what they
-- make of the threads.
use codex_ha_monitor.Prelude.{
  ℕ, suc, ◌+◌, ◌-◌, ◌*◌, ◌<◌, Bool, leb, ltb, String, true, false, not, List, [], ◌∷◌, lookup,
  lookup-delete, delete, lookup_fresh, IsMap, KeyIsFresh, Option, some, none, ◌=?=◌, if◌then◌else◌,
  ◌≡◌, inl, inr, ◌∙◌, ap, refl, arith, String-cases, Bool-cases, Perm, stable_sort-perm,
  IsNewestFirst, newest_first-IsNewestFirst, count_if, subst, ◌&&◌,
}
use codex_ha_monitor.Model.Types.{
  State, unset, running, waiting_approval, waiting_input, idle, error, unknown, Thread, zero_thread,
  Time,
}
use codex_ha_monitor.Merge.Reads.{find_last}
use codex_ha_monitor.Monitor.State.{Config, HookObservation, Monitor, Env, second, positive_or}
use codex_ha_monitor.Monitor.Upsert.{index_threads, upsert}
use codex_ha_monitor.Monitor.Upsert.Laws.{
  IsSynced, index_threads-IsSynced, find_last-upsert, upsert-IsSynced, current,
}
use codex_ha_monitor.Monitor.Hooks.{
  hook_ttl, has_expired, observe, hook_thread, HookPass, hook_round, hook_rounds, apply_hooks,
}

-- What the test leaves of a session's observation.
abbrev live_by_test : Config → Time → Option HookObservation → Option HookObservation
live_by_test cfg now none = none
live_by_test cfg now (some o) = if has_expired cfg now o then none else some o

-- A thread with what `observe` makes of it.
abbrev observed_by_test : String → Option HookObservation → Option Thread → Option Thread
observed_by_test k none t = t
observed_by_test k (some o) t = some (observe o (current (hook_thread k o) t))

observe_keeps : (o : HookObservation) (t : Thread) → (observe o t).id ≡ t.id
unfolding observe
observe_keeps o t = refl

-- Ranging over a Go map visits every entry once, in some order.
abbrev pub Ranges {ℓ} : {V : Type ℓ} → List (String × V) → List (String × V) → Type ℓ
Ranges visited m = IsMap visited × ((k : String) → lookup k visited ≡ lookup k m)

module _ (cfg : Config) (now : Time) (p : HookPass) (sid : String) (o : HookObservation) where
  round_expired :
      has_expired cfg now o ≡ true
      → hook_round cfg now p sid o ≡ record p { sessions = delete sid p.sessions }
  unfolding hook_round
  round_expired e = rw (e, hook_round)

  round_live :
      has_expired cfg now o ≡ false
      → hook_round cfg now p sid o ≡ record p {
        active = suc p.active;
        index = upsert sid (hook_thread sid o) (observe o) p.index;
      }
  unfolding hook_round
  round_live e = rw (e, hook_round)

  round-IsSynced : IsSynced p.index → IsSynced (hook_round cfg now p sid o).index
  round-IsSynced synced = elim (Bool-cases (has_expired cfg now o)) [
    | inl e ↦ rw (round_expired e) synced
    | inr e ↦
        rw (round_live e) (
          upsert-IsSynced sid (hook_thread sid o) (observe o) p.index synced refl (observe_keeps o))
  ]

  -- One round is seen under its own session's id only.
  round-find_last :
      (k : String)
      → IsSynced p.index
      → find_last k (hook_round cfg now p sid o).index.threads
        ≡ observed_by_test k
            (if sid =?= k then live_by_test cfg now (some o) else none)
            (find_last k p.index.threads)
  round-find_last k synced = elim (Bool-cases (has_expired cfg now o)) [
    | inl e ↦ rw (round_expired e, e) (ground arith)
    | inr e ↦
        let here =
          find_last-upsert sid (hook_thread sid o) (observe o) p.index synced refl (observe_keeps o)
            k in
        elim (String-cases sid k) [
          | inl (b, same) ↦
              rw (round_live e, e, here, b)
                (ap
                  (λ j. some (observe o (current (hook_thread j o) (find_last j p.index.threads))))
                  same)
          | inr (b, other) ↦ rw (round_live e, here, b)
        ]
  ]

  round-sessions :
      (k : String)
      → lookup k (hook_round cfg now p sid o).sessions
        ≡ (if (sid =?= k) && has_expired cfg now o then none else lookup k p.sessions)
  round-sessions k = elim (Bool-cases (has_expired cfg now o)) [
    | inl e ↦ rw (round_expired e, e, lookup-delete) (ground arith)
    | inr e ↦ rw (round_live e, e) (ground arith)
  ]

  round-active :
      (hook_round cfg now p sid o).active
      ≡ (if has_expired cfg now o then p.active else suc p.active)
  round-active = elim (Bool-cases (has_expired cfg now o)) [
    | inl e ↦ rw (round_expired e, e)
    | inr e ↦ rw (round_live e, e)
  ]

hook_rounds-find_last :
    (cfg : Config) (now : Time) (k : String) (p : HookPass) (rest : List (String × HookObservation))
    → IsSynced p.index
    → IsMap rest
    → find_last k (hook_rounds cfg now p rest).index.threads
      ≡ observed_by_test k (live_by_test cfg now (lookup k rest)) (find_last k p.index.threads)
unfolding hook_rounds lookup
hook_rounds-find_last cfg now k p [] synced m = refl
hook_rounds-find_last cfg now k p ((sid, o) ∷ rest) synced (fresh, m) =
    let here = round-find_last cfg now p sid o k synced in
    let there =
      hook_rounds-find_last cfg now k (hook_round cfg now p sid o) rest
        (round-IsSynced cfg now p sid o synced) m in
    elim (String-cases sid k) [
      | inl (b, same) ↦
          let gone : lookup k rest ≡ none =
            lookup_fresh k rest (subst (λ j. KeyIsFresh j rest) same fresh) in
          rw (there, gone, here, b)
      | inr (b, other) ↦ rw (there, here, b)
    ]

-- What a pass leaves of a session.
abbrev kept :
    Config → Time → Option HookObservation → Option HookObservation → Option HookObservation
kept cfg now none before = before
kept cfg now (some o) before = if has_expired cfg now o then none else before

hook_rounds-sessions :
    (cfg : Config) (now : Time) (k : String) (p : HookPass) (rest : List (String × HookObservation))
    → IsMap rest
    → lookup k (hook_rounds cfg now p rest).sessions
      ≡ kept cfg now (lookup k rest) (lookup k p.sessions)
unfolding hook_rounds lookup
hook_rounds-sessions cfg now k p [] m = refl
hook_rounds-sessions cfg now k p ((sid, o) ∷ rest) (fresh, m) =
    let here = round-sessions cfg now p sid o k in
    let there = hook_rounds-sessions cfg now k (hook_round cfg now p sid o) rest m in
    elim (String-cases sid k) [
      | inl (b, same) ↦
          let gone : lookup k rest ≡ none =
            lookup_fresh k rest (subst (λ j. KeyIsFresh j rest) same fresh) in
          rw (there, gone, here, b)
      | inr (b, other) ↦ rw (there, here, b)
    ]

-- How many observations the test leaves.
abbrev count_by_test : Config → Time → List (String × HookObservation) → ℕ
count_by_test cfg now = count_if (λ e. not (has_expired cfg now e.1))

hook_rounds-active :
    (cfg : Config) (now : Time) (p : HookPass) (rest : List (String × HookObservation))
    → (hook_rounds cfg now p rest).active ≡ p.active + count_by_test cfg now rest
unfolding hook_rounds
hook_rounds-active cfg now p [] = omega arith
hook_rounds-active cfg now p ((sid, o) ∷ rest) = ground (
  arith,
  hook_rounds-active cfg now (hook_round cfg now p sid o) rest,
  round-active cfg now p sid o,
)

kept-live :
    (cfg : Config) (now : Time) (o : Option HookObservation)
    → kept cfg now o o ≡ live_by_test cfg now o
kept-live cfg now o = ground arith

-- How long a hook's state counts: 60 seconds if it is idle, 300 if it waits and else 600, unless the
-- configuration has a positive duration for it.
abbrev pub lifetime : Config → State → ℕ
lifetime cfg idle = positive_or cfg.hook_idle_ttl (60 * second)
lifetime cfg waiting_approval = positive_or cfg.hook_attention_ttl (300 * second)
lifetime cfg waiting_input = positive_or cfg.hook_attention_ttl (300 * second)
lifetime cfg _ = positive_or cfg.hook_running_ttl (600 * second)

-- An observation has outlived its time from the moment at which its lifetime is over.
abbrev pub has_outlived : Config → Time → HookObservation → Bool
has_outlived cfg now o = leb (o.received_at + lifetime cfg o.state) now

lifetime-pos : (cfg : Config) (s : State) → (hook_ttl cfg s ≡ lifetime cfg s) × (0 < hook_ttl cfg s)
unfolding hook_ttl
lifetime-pos cfg idle = ground arith
lifetime-pos cfg waiting_approval = ground arith
lifetime-pos cfg waiting_input = ground arith
lifetime-pos cfg unset = ground arith
lifetime-pos cfg running = ground arith
lifetime-pos cfg error = ground arith
lifetime-pos cfg unknown = ground arith

has_expired-has_outlived :
    (cfg : Config) (now : Time) (o : HookObservation)
    → has_expired cfg now o ≡ has_outlived cfg now o
unfolding has_expired
has_expired-has_outlived cfg now o =
    let (same, above) = lifetime-pos cfg o.state in
    compared (hook_ttl cfg o.state) (lifetime cfg o.state) same above
  where
    compared : (a b : ℕ) → a ≡ b → 0 < a → leb a (now - o.received_at) ≡ leb (o.received_at + b) now
    compared a b same above = ground arith

-- What is left of a session's observation at a time.
abbrev pub live : Config → Time → Option HookObservation → Option HookObservation
live cfg now none = none
live cfg now (some o) = if has_outlived cfg now o then none else some o

live_by_test-live :
    (cfg : Config) (now : Time) (o : Option HookObservation)
    → live_by_test cfg now o ≡ live cfg now o
live_by_test-live cfg now none = refl
live_by_test-live cfg now (some o) =
    ap (λ (b : Bool). if b then none else some o) (has_expired-has_outlived cfg now o)

-- How many observations still count.
abbrev pub live_count : Config → Time → List (String × HookObservation) → ℕ
live_count cfg now = count_if (λ e. not (has_outlived cfg now e.1))

count_by_test-live_count :
    (cfg : Config) (now : Time) (entries : List (String × HookObservation))
    → count_by_test cfg now entries ≡ live_count cfg now entries
count_by_test-live_count cfg now entries =
    λ i. count_if (λ e. not (has_expired-has_outlived cfg now e.1 i)) entries

-- A thread under an observation: its state and its turn, by an event, with the event's name; a
-- directory where it had none; and the later of the two times.
abbrev pub under : HookObservation → Thread → Thread
under o t = record t {
  state = o.state;
  state_source = "codex_hook";
  state_confidence = "event_derived";
  turn_id = o.event.turn_id;
  last_hook_event = o.event.event_name;
  cwd = if t.cwd =?= "" then o.event.cwd else t.cwd;
  updated_at = t.updated_at + (o.received_at - t.updated_at);
}

observe-under : (o : HookObservation) (t : Thread) → observe o t ≡ under o t
unfolding observe
observe-under o t =
    let later : (if ltb t.updated_at o.received_at then o.received_at else t.updated_at)
        ≡ t.updated_at + (o.received_at - t.updated_at) =
      ground arith in
    ap (λ (at : ℕ). record (under o t) { updated_at = at }) later

-- A thread of a session; one that was not there is new, with the event's directory.
abbrev pub observed : String → Option HookObservation → Option Thread → Option Thread
observed k none t = t
observed k (some o) none =
    some (under o (record zero_thread { id = k; cwd = o.event.cwd; source = "codex_hook" }))
observed k (some o) (some t) = some (under o t)

observed_by_test-observed :
    (k : String) (o : Option HookObservation) (t : Option Thread)
    → observed_by_test k o t ≡ observed k o t
observed_by_test-observed k none t = refl
observed_by_test-observed k (some o) none = ap some (observe-under o (hook_thread k o))
observed_by_test-observed k (some o) (some t) = ap some (observe-under o t)

module _ (env : Env) (ts : List Thread) (now : Time) (m : Monitor) where
  -- Where Go's range visits each observation once, in any order: an observation that has outlived
  -- its time is forgotten and any other kept, and the kept ones are counted. Before they are sorted
  -- newest first, the threads, looked up by id (the last of those with one id), are the given ones,
  -- except that the thread of a kept observation's session has its state, its turn and its event's
  -- name, its directory where it had none, and the later of the two times; a session that had no
  -- thread has a new one. Nothing else of the state changes.
  pub apply_hooks_lem :
      Ranges (env.order_hooks m.hook_sessions) m.hook_sessions
      → let (sorted, m') = apply_hooks env ts now m in
        (before_sort : List Thread) × Perm sorted before_sort
        × IsNewestFirst (λ t. t.updated_at) sorted
        × ((k : String)
            → find_last k before_sort
              ≡ observed k (live m.cfg now (lookup k m.hook_sessions)) (find_last k ts))
        × ((k : String) → lookup k m'.hook_sessions ≡ live m.cfg now (lookup k m.hook_sessions))
        × (m' ≡ record m {
          hook_sessions = m'.hook_sessions;
          snapshot = record m.snapshot {
            hooks = record m.snapshot.hooks {
              active_sessions = live_count m.cfg now (env.order_hooks m.hook_sessions);
            };
          };
        })
  unfolding apply_hooks index_threads
  apply_hooks_lem (is_map, same) =
      let visited = env.order_hooks m.hook_sessions in
      let start : HookPass = record {
        index = index_threads ts;
        sessions = m.hook_sessions;
        active = 0;
      } in
      let p = hook_rounds m.cfg now start visited in
      let counted : p.active ≡ live_count m.cfg now visited =
        hook_rounds-active m.cfg now start visited
        ∙ omega (arith, count_by_test-live_count m.cfg now visited) in
      (
        p.index.threads,
        stable_sort-perm _ p.index.threads,
        newest_first-IsNewestFirst (λ t. t.updated_at) p.index.threads,
        λ k. rw (← same k) (
            hook_rounds-find_last m.cfg now k start visited (index_threads-IsSynced ts) is_map
            ∙ observed_by_test-observed k _ (find_last k ts)
            ∙ ap (λ o. observed k o (find_last k ts))
                (live_by_test-live m.cfg now (lookup k visited))),
        λ k.
            hook_rounds-sessions m.cfg now k start visited is_map
            ∙ rw (same k) (
                kept-live m.cfg now (lookup k m.hook_sessions)
                ∙ live_by_test-live m.cfg now (lookup k m.hook_sessions)),
        ap
            (λ (n : ℕ). record m {
              hook_sessions = p.sessions;
              snapshot = record m.snapshot {
                hooks = record m.snapshot.hooks { active_sessions = n };
              };
            })
            counted,
      )
