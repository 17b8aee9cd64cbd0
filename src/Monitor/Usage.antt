-- ===== src/Monitor/Usage.antt =====
-- agent/internal/monitor/monitor.go: the bounded usage history.
pub mod Bounds
use codex_ha_monitor.Prelude.{
  ℕ, ◌-◌, String, Bool, ◌&&◌, not, List, [], ◌∷◌, length, drop, lookup, insert, ltb, ltb_int64, leb,
  if◌then◌else◌, Option, none, some, ℤ, pos, negsuc, pos_part,
}
use codex_ha_monitor.Json.{
  Json, null, bool, number, text, array, object, Items, JsonMap, to_list, from_list, end,
}
use codex_ha_monitor.Monitor.State.{Config, Monitor}

-- `v.([]any)`
pub as_array : Option Json → Option (List Json)
as_array (some (array js)) = some (to_list js)
as_array _ = none

abbrev pub buckets_key : String
buckets_key = "dailyUsageBuckets"

-- The last `days` elements, where there are more.
pub last_buckets : ℕ → List Json → List Json
last_buckets days buckets =
    if ltb days (length buckets) then drop (length buckets - days) buckets else buckets

-- `usageHistoryDays`
unfoldable pub usage_history_days : Config → ℕ
usage_history_days cfg = elim cfg.usage_history_days [ pos n ↦ n | negsuc n ↦ 90 ]

-- `trimUsageHistory`, for a limit that is not negative.
pub trim_usage_history : JsonMap → ℕ → JsonMap
unfolding last_buckets as_array
trim_usage_history none days = none
trim_usage_history (some usage) days = elim (as_array (lookup buckets_key usage)) [
  | none ↦ some usage
  | some buckets ↦
      if leb days 0
      then some (insert buckets_key (array end) usage)
      else some (insert buckets_key (array (from_list (last_buckets days buckets))) usage)
]

abbrev pub shorter_limit : ℤ → ℕ → ℕ
shorter_limit (pos days) limit = if ltb days limit then days else limit
shorter_limit (negsuc _) limit = limit

-- `Usage`
unfoldable pub usage : Monitor → ℤ → JsonMap
usage m days = trim_usage_history m.usage (shorter_limit days (usage_history_days m.cfg))
