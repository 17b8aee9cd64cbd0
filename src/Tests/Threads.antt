-- ===== src/Tests/Threads.antt =====
-- The theorems on threads and their summary, at concrete threads.
use codex_ha_monitor.Prelude.{
  String, true, false, List, [], ◌∷◌, length, map, get_elem?, lookup, insert, has_key, IsMap,
  IsNewestFirst, Mem, some, ◌≡◌, ◌↔◌, refl, inr, arith, eq_iff,
}
use mathlib.Core.List.{Nodup}
use mathlib.Core.List.Perm
use codex_ha_monitor.Model.Types.{Thread, unknown}
use codex_ha_monitor.Model.Summarize.{summarize}
use codex_ha_monitor.Model.Counts.{summarize-counts_of, counts_of}
use codex_ha_monitor.Model.Severity.{summarize-Reports, IsBlind, IsFirstTop, Reports}
use codex_ha_monitor.Model.Workflows.{active_workflows-IsMap, has_workflow}
use codex_ha_monitor.Hierarchy.{index_from, index_by_id, root_of, assign_thread_hierarchy}
use codex_ha_monitor.Hierarchy.Climb.{root_of_total, assign_thread_hierarchy-Climbs, stay, up}
use codex_ha_monitor.Merge.{merge_threads}
use codex_ha_monitor.Merge.Reads.{find_last, over}
use codex_ha_monitor.Merge.Members.{merge_threads_lem}
use codex_ha_monitor.Tests.{parent, child, file_child, threads}

summarize-counts_of_example : (summarize threads true).states ≡ counts_of threads
summarize-counts_of_example = summarize-counts_of threads true

summarize-Reports_example :
    (IsBlind threads false
      → ((summarize threads false).workload_state ≡ unknown)
        × ((summarize threads false).state_source ≡ "none")
        × ((summarize threads false).state_confidence ≡ "unknown"))
    × (¬ IsBlind threads false
        → (t : Thread) × IsFirstTop t threads × Reports (summarize threads false) t)
summarize-Reports_example = summarize-Reports threads false

active_workflows-IsMap_example :
    (roots : List (String × Unit {0})) × IsMap roots
    × ((k : String) → has_key k roots ≡ has_workflow k threads)
    × ((summarize threads true).active_workflows ≡ length roots)
active_workflows-IsMap_example = active_workflows-IsMap threads true

root_of_total_example : (r : String) × (root_of (index_by_id threads) child ≡ some r)
root_of_total_example = root_of_total (index_by_id threads) child

assign_thread_hierarchy-Climbs_example :
    get_elem? (assign_thread_hierarchy threads) 1
    ≡ some (record child { thread_role = "subagent"; root_thread_id = "a" })
unfolding index_by_id lookup index_from insert
assign_thread_hierarchy-Climbs_example =
    assign_thread_hierarchy-Climbs threads 1 child 1 "a" refl refl
      (up child refl (λ e. ground (arith, eq_iff "a" "")) (stay "a")) (inr (parent, refl, refl))

merge_threads_lem_example :
    IsNewestFirst (λ t. t.updated_at) (merge_threads (λ ts. ts) threads (file_child ∷ []))
    × Nodup (map (λ t. t.id) (merge_threads (λ ts. ts) threads (file_child ∷ [])))
    × ((t : Thread)
        → Mem t (merge_threads (λ ts. ts) threads (file_child ∷ []))
          ↔ (over (find_last t.id threads) (find_last t.id (file_child ∷ [])) ≡ some t))
merge_threads_lem_example =
    merge_threads_lem (λ ts. ts) threads (file_child ∷ []) (λ ts. Perm.refl ts)
      (((λ e. ground (arith, eq_iff "b" "a")), tt), (tt, tt))
