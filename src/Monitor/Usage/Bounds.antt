-- ===== src/Monitor/Usage/Bounds.antt =====
-- How much of the account's usage `Usage` of agent/internal/monitor/monitor.go hands out.
use codex_ha_monitor.Prelude.{
  ℕ, ◌-◌, ◌≤◌, String, List, [], ◌∷◌, length, keep_last, keep_last_of_length-le,
  length-keep_last-le, ltb, leb, lookup, insert, lookup-insert, Option, none, some, ℤ, pos, negsuc,
  ◌≡◌, ◌≢◌, ◌∙◌, ap, refl, sym, inl, inr, arith, eq_iff, Bool-cases, Option-cases,
}
use codex_ha_monitor.Json.{Json, array, to_list, from_list, to_list-from_list, Items, end, JsonMap}
use codex_ha_monitor.Monitor.State.{Config, Monitor}
use codex_ha_monitor.Monitor.Usage.{
  as_array, buckets_key, last_buckets, trim_usage_history, shorter_limit, usage, usage_history_days,
}

-- A field of a usage payload.
abbrev pub field : String → JsonMap → Option Json
field k none = none
field k (some u) = lookup k u

-- The daily history of a usage payload, if it has one.
abbrev pub history : JsonMap → Option (List Json)
history u = as_array (field buckets_key u)

abbrev pub keep_days : ℕ → Option (List Json) → Option (List Json)
keep_days n none = none
keep_days n (some days) = some (keep_last n days)

last_buckets-keep_last : (n : ℕ) (js : List Json) → last_buckets n js ≡ keep_last n js
unfolding last_buckets
last_buckets-keep_last n js = elim (Bool-cases (ltb n (length js))) [
  | inl b ↦ rw b refl
  | inr b ↦ rw b (sym (keep_last_of_length-le n js (ground arith)))
]

stored_history :
    (items : Items) (u : List (String × Json))
    → history (some (insert buckets_key (array items) u)) ≡ some (to_list items)
unfolding as_array
stored_history items u =
    let here : lookup buckets_key (insert buckets_key (array items) u) ≡ some (array items) =
      lookup-insert buckets_key buckets_key (array items) u
      ∙ ground (arith, eq_iff buckets_key buckets_key) in
    ap as_array here

empty_of_length : (js : List Json) → length js ≤ 0 → [] ≡ js
empty_of_length [] h = refl
empty_of_length (j ∷ js) h = absurd (omega arith)

trim_usage_history-history :
    (u : JsonMap) (n : ℕ) → history (trim_usage_history u n) ≡ keep_days n (history u)
unfolding trim_usage_history to_list
trim_usage_history-history none n = refl
trim_usage_history-history (some u) n = elim (Option-cases (as_array (lookup buckets_key u))) [
  | inl gone ↦ rw (gone, trim_usage_history) gone
  | inr (days, here) ↦ elim (Bool-cases (leb n 0)) [
    | inl b ↦
        let zero_days : n ≡ 0 = ground arith in
        rw (here, b, trim_usage_history)
          (stored_history end u
            ∙ ap some (
                empty_of_length (keep_last n days)
                  (omega (arith, zero_days, length-keep_last-le n days))))
    | inr b ↦
        rw (here, b, trim_usage_history)
          (stored_history (from_list (last_buckets n days)) u
            ∙ ap some (to_list-from_list (last_buckets n days) ∙ last_buckets-keep_last n days))
  ]
]

trim_usage_history-field :
    (u : JsonMap) (n : ℕ) (k : String)
    → k ≢ buckets_key
    → field k (trim_usage_history u n) ≡ field k u
unfolding trim_usage_history
trim_usage_history-field none n k other = refl
trim_usage_history-field (some u) n k other =
    elim (Option-cases (as_array (lookup buckets_key u))) [
      | inl gone ↦ rw (gone, trim_usage_history) refl
      | inr (days, here) ↦ elim (Bool-cases (leb n 0)) [
        | inl b ↦ rw (here, b, trim_usage_history) (unchanged (array end))
        | inr b ↦
            rw (here, b, trim_usage_history) (unchanged (array (from_list (last_buckets n days))))
      ]
    ]
  where
    unchanged : (v : Json) → lookup k (insert buckets_key v u) ≡ lookup k u
    unchanged v = lookup-insert buckets_key k v u ∙ ground (arith, eq_iff buckets_key k)

-- The lesser of the days that are asked for and those that the agent keeps; a negative number asks
-- for all of these.
abbrev pub days_shown : ℤ → ℕ → ℕ
days_shown (pos asked) kept = asked - (asked - kept)
days_shown (negsuc _) kept = kept

shorter_limit-days_shown : (days : ℤ) (kept : ℕ) → shorter_limit days kept ≡ days_shown days kept
shorter_limit-days_shown (pos d) kept = ground arith
shorter_limit-days_shown (negsuc d) kept = refl

-- The days that the agent is told to keep, or 90 where that is negative.
abbrev pub days_kept : ℤ → ℕ
days_kept (pos n) = n
days_kept (negsuc _) = 90

usage_history_days-days_kept :
    (cfg : Config) → usage_history_days cfg ≡ days_kept cfg.usage_history_days
unfolding usage_history_days
usage_history_days-days_kept cfg = ground arith

-- A reader of the usage gets the last days of the history: as many as were asked for or as the agent
-- keeps, whichever is less, and as many as it keeps for a negative number; it keeps what it is
-- configured to, or 90 where that is negative. Every other field is as it is stored.
pub usage_lem :
    (m : Monitor) (days : ℤ)
    → (history (usage m days)
        ≡ keep_days (days_shown days (days_kept m.cfg.usage_history_days)) (history m.usage))
      × ((k : String) → k ≢ buckets_key → field k (usage m days) ≡ field k m.usage)
unfolding usage
usage_lem m days =
    let n = shorter_limit days (usage_history_days m.cfg) in
    let shown : n ≡ days_shown days (days_kept m.cfg.usage_history_days) =
      shorter_limit-days_shown days (usage_history_days m.cfg)
      ∙ ap (days_shown days) (usage_history_days-days_kept m.cfg) in
    (
      trim_usage_history-history m.usage n ∙ ap (λ k. keep_days k (history m.usage)) shown,
      λ k other. trim_usage_history-field m.usage n k other,
    )
