-- ===== src/Merge/Members.antt =====
-- The list that `mergeThreads` of agent/internal/monitor/monitor.go returns, in whatever order Go
-- ranges over its map.
use mathlib.Core.Logic.Or
use mathlib.Core.List.{
  mem-cons, not-mem-nil, mem-cons_self, mem-cons_of_mem, mem-map_of_mem, Nodup, Nodup-cons,
  Nodup-nil,
}
use mathlib.Core.List.Perm
use native.Mathlib.Decide.{ℕ_discrete}
use mathlib.Core.HLevel.{hedberg, ⊥_prop}
use codex_ha_monitor.Prelude.{
  String, List, [], ◌∷◌, map, lookup, insert, insert-IsMap, IsMap, KeyIsFresh, Option, some, All,
  ◌≡◌, ◌↔◌, ◌∙◌, sym, arith, refl, eq_iff, inl, inr, String-cases, Mem, Perm, stable_sort-perm,
  IsNewestFirst, newest_first-IsNewestFirst, subst,
}
use codex_ha_monitor.Model.Types.{Thread}
use codex_ha_monitor.Hierarchy.{index_from, index_by_id}
use codex_ha_monitor.Merge.{merge_one, merge_app, merged_map, merge_threads, values}
use codex_ha_monitor.Merge.Reads.{Distinct, find_last, over, merge_one-keeps, merged_map_lem}

String-discrete : Discrete String
String-discrete s t = elim (String-cases s t) [ inl (_, e) ↦ yes e | inr (_, n) ↦ no n ]

Thread-discrete : Discrete Thread
Thread-discrete = hlevel (ℕ_discrete, String-discrete)

Option_Thread-set : IsSet (Option Thread)
Option_Thread-set = hedberg (hlevel (Thread-discrete))

-- A map of threads by their ids.
abbrev IsById : List (String × Thread) → Type 0
IsById m = IsMap m × All (λ e. e.1.id ≡ e.0) m

insert-ids :
    (k : String) (t : Thread) (m : List (String × Thread))
    → t.id ≡ k
    → All (λ e. e.1.id ≡ e.0) m
    → All (λ e. e.1.id ≡ e.0) (insert k t m)
unfolding insert
insert-ids k t [] h a = (h, tt)
insert-ids k t ((j, u) ∷ m) h a = ground (arith, insert-ids k t m h a.1)

insert-IsById :
    (t u : Thread) (m : List (String × Thread)) → u.id ≡ t.id → IsById m → IsById (insert t.id u m)
insert-IsById t u m e (map_ok, ids) = (insert-IsMap t.id u m map_ok, insert-ids t.id u m e ids)

index_from-IsById :
    (m : List (String × Thread)) (ts : List Thread) → IsById m → IsById (index_from m ts)
unfolding index_from
index_from-IsById m [] h = h
index_from-IsById m (t ∷ ts) h = index_from-IsById (insert t.id t m) ts (insert-IsById t t m refl h)

merge_app-IsById :
    (m : List (String × Thread)) (ts : List Thread) → IsById m → IsById (merge_app m ts)
unfolding merge_app
merge_app-IsById m [] h = h
merge_app-IsById m (t ∷ ts) h =
    let u = merge_one t (lookup t.id m) in
    merge_app-IsById (insert t.id u m) ts
      (insert-IsById t u m (merge_one-keeps t (lookup t.id m)) h)

abbrev ids_of : List Thread → List String
ids_of = map (λ t. t.id)

not-mem-ids_of :
    (k : String) (m : List (String × Thread))
    → KeyIsFresh k m
    → All (λ e. e.1.id ≡ e.0) m
    → ¬ Mem k (ids_of (values m))
not-mem-ids_of k [] f a mem = not-mem-nil mem
not-mem-ids_of k ((j, u) ∷ m) f a mem =
    Or.elim ⊥_prop (mem-cons.0 mem) (λ same. f.0 (sym (same ∙ a.0))) (not-mem-ids_of k m f.1 a.1)

ids_of-Nodup : (m : List (String × Thread)) → IsById m → Nodup (ids_of (values m))
ids_of-Nodup [] h = Nodup-nil
ids_of-Nodup ((j, u) ∷ m) ((f, map_ok), (e, ids)) = Nodup-cons.1 (
  subst (λ k. ¬ Mem k (ids_of (values m))) (sym e) (not-mem-ids_of j m f ids),
  ids_of-Nodup m (map_ok, ids),
)

mem-values_of_lookup :
    (t : Thread) (m : List (String × Thread)) → lookup t.id m ≡ some t → Mem t (values m)
unfolding lookup
mem-values_of_lookup t [] h = cc
mem-values_of_lookup t ((j, u) ∷ m) h = elim (String-cases j t.id) [
  | inl (b, e) ↦ subst (λ v. Mem t (v ∷ values m)) (ground arith) mem-cons_self
  | inr (b, e) ↦ mem-cons_of_mem u (mem-values_of_lookup t m (ground arith))
]

lookup_of_mem-values :
    (t : Thread) (m : List (String × Thread)) → IsById m → Mem t (values m) → lookup t.id m ≡ some t
unfolding lookup
lookup_of_mem-values t [] h mem = absurd (not-mem-nil mem)
lookup_of_mem-values t ((j, u) ∷ m) ((f, map_ok), (e, ids)) mem =
    Or.elim (Option_Thread-set _ _) (mem-cons.0 mem) here
      (there (lookup_of_mem-values t m (map_ok, ids)))
  where
    here : t ≡ u → lookup t.id ((j, u) ∷ m) ≡ some t
    here same = ground (arith, eq_iff j t.id)

    there :
        (Mem t (values m) → lookup t.id m ≡ some t)
        → Mem t (values m)
        → lookup t.id ((j, u) ∷ m) ≡ some t
    there inner later = elim (String-cases j t.id) [
      | inl (b, same) ↦ absurd (
          not-mem-ids_of j m f ids (
            subst (λ k. Mem k (ids_of (values m))) (sym same)
              (mem-map_of_mem (λ (v : Thread). v.id) later)))
      | inr (b, other) ↦ rw b (inner later)
    ]

merged_map-IsById : (app fs : List Thread) → IsById (merged_map app fs)
unfolding merged_map
merged_map-IsById app fs = merge_app-IsById (index_by_id fs) app (index_from-IsById [] fs (tt, tt))

merge_threads-perm :
    (order : List Thread → List Thread) (app fs : List Thread)
    → ((ts : List Thread) → Perm (order ts) ts)
    → Perm (merge_threads order app fs) (values (merged_map app fs))
unfolding merge_threads
merge_threads-perm order app fs any_order =
    Perm.trans (stable_sort-perm _ (order (values (merged_map app fs))))
      (any_order (values (merged_map app fs)))

-- The merged list, whatever order Go ranges over the map in: it is sorted newest first, holds no id
-- twice, and holds a thread exactly if the thread is what the two sources say of its id, where the
-- App Server lists no id twice.
pub merge_threads_lem :
    (order : List Thread → List Thread) (app fs : List Thread)
    → ((ts : List Thread) → Perm (order ts) ts)
    → Distinct app
    → IsNewestFirst (λ t. t.updated_at) (merge_threads order app fs)
      × Nodup (map (λ t. t.id) (merge_threads order app fs))
      × ((t : Thread)
          → Mem t (merge_threads order app fs)
            ↔ (over (find_last t.id app) (find_last t.id fs) ≡ some t))
unfolding merge_threads
merge_threads_lem order app fs any_order distinct =
    let m = merged_map app fs in
    let same = merge_threads-perm order app fs any_order in
    (
      newest_first-IsNewestFirst (λ t. t.updated_at) (order (values m)),
      Perm.nodup (Perm.symm (Perm.map (λ (t : Thread). t.id) same))
          (ids_of-Nodup m (merged_map-IsById app fs)),
      λ t. (
        λ mem.
            sym (merged_map_lem app fs t.id distinct)
            ∙ lookup_of_mem-values t m (merged_map-IsById app fs) ((Perm.mem_iff same).0 mem),
        λ e.
            (Perm.mem_iff same).1
              (mem-values_of_lookup t m (merged_map_lem app fs t.id distinct ∙ e)),
      ),
    )
