-- ===== src/Merge.antt =====
-- `mergeThreads` and `sortThreads` of agent/internal/monitor/monitor.go: the threads of the App
-- Server over those of the session files.
pub mod Reads
pub mod Members
use codex_ha_monitor.Prelude.{
  ℕ, String, Bool, not, ◌&&◌, List, [], ◌∷◌, map, lookup, insert, Option, some, none, ◌=?=◌,
  if◌then◌else◌, newest_first,
}
use codex_ha_monitor.Model.Types.{Thread, unknown, same_state}
use codex_ha_monitor.Hierarchy.{index_by_id}

-- `if thread.F == "" { thread.F = current.F }`
abbrev pub fill : String → String → String
fill a b = if a =?= "" then b else a

-- The fields that an App Server thread leaves open, from the session file's thread.
unfoldable pub fill_fields : Thread → Thread → Thread
fill_fields thread current = record thread {
  session_id = fill thread.session_id current.session_id;
  parent_thread_id = fill thread.parent_thread_id current.parent_thread_id;
  agent_nickname = fill thread.agent_nickname current.agent_nickname;
  agent_role = fill thread.agent_role current.agent_role;
  name = fill thread.name current.name;
  cwd = fill thread.cwd current.cwd;
  source = fill thread.source current.source;
  cli_version = fill thread.cli_version current.cli_version;
}

-- An unknown state gives way to the one that the session file shows.
unfoldable pub fill_state : Thread → Thread → Thread
fill_state thread current =
    if same_state thread.state unknown && not (same_state current.state unknown)
    then record thread {
      state = current.state;
      state_source = current.state_source;
      state_confidence = current.state_confidence;
      updated_at = current.updated_at;
    }
    else thread

unfoldable pub merge_one : Thread → Option Thread → Thread
merge_one thread none = thread
merge_one thread (some current) = fill_state (fill_fields thread current) current

-- The second loop: each App Server thread over what the map holds under its id.
unfoldable pub merge_app : List (String × Thread) → List Thread → List (String × Thread)
merge_app m [] = m
merge_app m (t ∷ ts) = merge_app (insert t.id (merge_one t (lookup t.id m)) m) ts

unfoldable pub merged_map : List Thread → List Thread → List (String × Thread)
merged_map app fs = merge_app (index_by_id fs) app

abbrev pub values {ℓ} : {V : Type ℓ} → List (String × V) → List V
values = map (λ e. e.1)

-- `sortThreads`: newest first, and stable.
abbrev pub sort_threads : List Thread → List Thread
sort_threads = newest_first (λ t. t.updated_at)

-- `order` is the order in which Go ranges over the map.
unfoldable pub merge_threads : (List Thread → List Thread) → List Thread → List Thread → List Thread
merge_threads order app fs = sort_threads (order (values (merged_map app fs)))
