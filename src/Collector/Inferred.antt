-- ===== src/Collector/Inferred.antt =====
-- `scanTail` of agent/internal/collector/filesystem.go: the state that the records' times say.
use codex_ha_monitor.Prelude.{
  ℕ, ◌*◌, ◌≤◌, ◌<◌, Bool, true, false, ◌&&◌, not, List, [], ◌∷◌, ltb, leb, ◌==◌, if◌then◌else◌, ◌≡◌,
  ◌≢◌, refl, arith, All, inl, inr, Bool-cases, ◌⊎◌, Mem, sym, subst,
}
use mathlib.Core.List.{mem-cons_self, mem-cons_of_mem}
use codex_ha_monitor.Model.Types.{Time, Thread, State, running, idle, unknown}
use codex_ha_monitor.Monitor.State.{positive_or, second}
use codex_ha_monitor.Collector.Session.{
  FilesystemCollector, SessionRecord, time_of, is_complete, scan_times, infer_state, scan_tail,
  since,
}

-- The greatest time of the records that a test takes, or the one from before.
pub record IsLatest (takes : SessionRecord → Bool) (before : Time) (rs : List SessionRecord)
    (at : Time) : Type 0 where
  pub no_less : before ≤ at
  pub bound : All (λ r. takes r ≡ true → time_of r ≤ at) rs
  pub reached :
      (at ≡ before) ⊎ ((r : SessionRecord) × Mem r rs × (takes r ≡ true) × (time_of r ≡ at))

latest : (SessionRecord → Bool) → Time → List SessionRecord → Time
latest takes before [] = before
latest takes before (r ∷ rs) =
    latest takes (if takes r && ltb before (time_of r) then time_of r else before) rs

latest-IsLatest :
    (takes : SessionRecord → Bool) (before : Time) (rs : List SessionRecord)
    → IsLatest takes before rs (latest takes before rs)
unfolding latest
latest-IsLatest takes before [] = record { no_less = omega arith; bound = tt; reached = inl refl }
latest-IsLatest takes before (r ∷ rs) = elim (Bool-cases (takes r && ltb before (time_of r))) [
  | inl b ↦
      let rest = latest-IsLatest takes (time_of r) rs in
      let chosen : takes r ≡ true = ground arith in
      let less : before < time_of r = ground arith in
      rw b (record {
        no_less = omega (arith, rest.no_less);
        bound = (λ _. rest.no_less, rest.bound);
        reached = elim rest.reached [
          | inl e ↦ inr (r, mem-cons_self, chosen, sym e)
          | inr (q, m, t, e) ↦ inr (q, mem-cons_of_mem r m, t, e)
        ];
      })
  | inr b ↦
      let rest = latest-IsLatest takes before rs in
      rw b (record {
        no_less = rest.no_less;
        bound = (λ t. let same : takes r ≡ true = t in ground (arith, rest.no_less), rest.bound);
        reached = elim rest.reached [
          | inl e ↦ inl e
          | inr (q, m, t, e) ↦ inr (q, mem-cons_of_mem r m, t, e)
        ];
      })
]

abbrev pub every : SessionRecord → Bool
every _ = true

scan_times-latest :
    (last_at completed_at : Time) (rs : List SessionRecord)
    → scan_times (last_at, completed_at) rs
      ≡ (latest every last_at rs, latest is_complete completed_at rs)
unfolding scan_times latest every
scan_times-latest last_at completed_at [] = refl
scan_times-latest last_at completed_at (r ∷ rs) =
    scan_times-latest (if ltb last_at (time_of r) then time_of r else last_at)
      (if is_complete r && ltb completed_at (time_of r) then time_of r else completed_at) rs

latest-le :
    (completed_at last_at : Time) (rs : List SessionRecord)
    → completed_at ≤ last_at
    → latest is_complete completed_at rs ≤ latest every last_at rs
unfolding latest every
latest-le completed_at last_at [] h = h
latest-le completed_at last_at (r ∷ rs) h =
    latest-le (if is_complete r && ltb completed_at (time_of r) then time_of r else completed_at)
      (if ltb last_at (time_of r) then time_of r else last_at) rs (ground arith)

leb-le : (a b : ℕ) → leb a b ≡ true → a ≤ b
leb-le a b h = ground arith

leb-gt : (a b : ℕ) → leb a b ≡ false → b < a
leb-gt a b h = ground arith

and_false : (b : Bool) → (b && false) ≡ false
and_false true = refl
and_false false = refl

abbrev window : FilesystemCollector → ℕ
window c = positive_or c.active_window (60 * second)

-- What a session's state says of the times of its records: `last` is the latest of them.
pub data Inference (c : FilesystemCollector) (now : Time) (rs : List SessionRecord) (last : Time)
    : State → Type 0 where
  silent : IsLatest every 0 rs last → last ≡ 0 → Inference c now rs last unknown
  ended :
      IsLatest every 0 rs last
      → IsLatest is_complete 0 rs last
      → last ≢ 0
      → Inference c now rs last idle
  working :
      (completed_at : Time)
      → IsLatest every 0 rs last
      → IsLatest is_complete 0 rs completed_at
      → completed_at < last
      → since now last ≤ window c
      → Inference c now rs last running
  quiet :
      (completed_at : Time)
      → IsLatest every 0 rs last
      → IsLatest is_complete 0 rs completed_at
      → completed_at < last
      → window c < since now last
      → Inference c now rs last unknown

infer_state-Inference :
    (c : FilesystemCollector) (now : Time) (rs : List SessionRecord) (last completed_at : Time)
    → IsLatest every 0 rs last
    → IsLatest is_complete 0 rs completed_at
    → completed_at ≤ last
    → Inference c now rs last (infer_state c now last completed_at)
unfolding infer_state
infer_state-Inference c now rs last completed_at l d h = elim (Bool-cases (ltb completed_at last)) [
  | inl b ↦
      let some_time : (last == 0) ≡ false = ground arith in
      let before : completed_at < last = ground arith in
      elim (Bool-cases (leb (since now last) (window c))) [
        | inl e ↦
            rw (some_time, b, e)
              (working completed_at l d before (leb-le (since now last) (window c) e))
        | inr e ↦
            rw (some_time, b, e, and_false (not (completed_at == 0)))
              (quiet completed_at l d before (leb-gt (since now last) (window c) e))
      ]
  | inr b ↦
      let same : completed_at ≡ last = ground arith in
      let every_one : IsLatest is_complete 0 rs last = subst (IsLatest is_complete 0 rs) same d in
      elim (Bool-cases (last == 0)) [
        | inl e ↦ rw (b, same, e) (silent l (ground arith))
        | inr e ↦ rw (b, same, e) (ended l every_one (ground arith))
      ]
]

-- A session is idle exactly when its latest record includes the end of a task, running when a record
-- came after the last such end and within the active window, which is a minute where none is set, and
-- else unknown. The thread's time is that of the latest record, of whatever type.
pub scan_tail-Inference :
    (c : FilesystemCollector) (now : Time) (rs : List SessionRecord) (t : Thread)
    → Inference c now rs (scan_tail c now rs t).updated_at (scan_tail c now rs t).state
unfolding scan_tail
scan_tail-Inference c now rs t = rw (scan_times-latest 0 0 rs) (
    infer_state-Inference c now rs (latest every 0 rs) (latest is_complete 0 rs)
      (latest-IsLatest every 0 rs) (latest-IsLatest is_complete 0 rs)
      (latest-le 0 0 rs (omega arith)))
