-- ===== src/Hierarchy.antt =====
-- `assignThreadHierarchy` of agent/internal/monitor/events.go: each thread's role and the root of
-- its workflow, by the parent links.
pub mod Climb
use codex_ha_monitor.Prelude.{
  ℕ, zero, suc, ◌+◌, ◌<◌, Bool, true, false, ◌||◌, not, String, List, [], ◌∷◌, map, length,
  count_if, lookup, insert, Option, some, none, ◌=?=◌, if◌then◌else◌, ◌≡◌, arith, refl,
}
use mathlib.Core.Option
use codex_ha_monitor.Model.Types.{Thread}

-- `byID[thread.ID] = thread` for each thread in turn: of two with one id the later stays.
unfoldable pub index_from : List (String × Thread) → List Thread → List (String × Thread)
index_from m [] = m
index_from m (t ∷ ts) = index_from (insert t.id t m) ts

abbrev pub index_by_id : List Thread → List (String × Thread)
index_by_id = index_from []

-- `_, duplicate := seen[id]`
pub member : String → List String → Bool
member k [] = false
member k (x ∷ xs) = (x =?= k) || member k xs

-- The loop `for rootID != ""`, over its variables `seen` and `rootID`. `none` means that the fuel
-- ran out.
pub root_from : ℕ → List (String × Thread) → List String → String → Option String
root_from zero m seen root = none
root_from (suc fuel) m seen root =
    let climb : Option String = elim (lookup root m) [
      | none ↦ some root
      | some parent ↦
          let rest = root_from fuel m (root ∷ seen) parent.parent_thread_id in
          if parent.parent_thread_id =?= "" then some root else rest
    ] in
    if root =?= "" then some root else if member root seen then some root else climb

-- The root of a thread that has a parent. The loop leaves `seen` larger by a key of the map in each
-- round that goes on, so this fuel never runs out.
pub root_of : List (String × Thread) → Thread → Option String
root_of m t = root_from (suc (length m)) m (t.id ∷ []) t.parent_thread_id

unfoldable pub assign_one : List (String × Thread) → Thread → Thread
assign_one m t =
    if t.parent_thread_id =?= ""
    then record t { thread_role = "root"; root_thread_id = t.id }
    else record t {
      thread_role = "subagent";
      root_thread_id = Option.get_or (root_of m t) t.parent_thread_id;
    }

unfoldable pub assign_thread_hierarchy : List Thread → List Thread
assign_thread_hierarchy ts = map (assign_one (index_by_id ts)) ts
