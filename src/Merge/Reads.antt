-- ===== src/Merge/Reads.antt =====
-- What `mergeThreads` of agent/internal/monitor/monitor.go knows of an id.
use codex_ha_monitor.Prelude.{
  String, List, [], ◌∷◌, lookup, insert, lookup-insert, Option, some, none, ◌=?=◌, if◌then◌else◌,
  All, ◌≡◌, ◌≢◌, ◌∙◌, ap, arith, refl, eq_iff, inl, inr, String-cases, Option-cases,
}
use codex_ha_monitor.Model.Types.{Thread}
use codex_ha_monitor.Hierarchy.{index_from, index_by_id}
use codex_ha_monitor.Merge.{merge_one, fill_state, fill_fields, merge_app, merged_map}

-- The last thread with an id.
unfoldable pub find_last : String → List Thread → Option Thread
find_last k [] = none
find_last k (t ∷ ts) = elim (find_last k ts) [
  | some u ↦ some u
  | none ↦ if t.id =?= k then some t else none
]

-- No id twice.
abbrev pub Distinct : List Thread → Type 0
Distinct [] = Unit
Distinct (t ∷ ts) = All (λ u. u.id ≢ t.id) ts × Distinct ts

abbrev or_else {ℓ} : {A : Type ℓ} → Option A → Option A → Option A
or_else (some a) o = some a
or_else none o = o

find_last_fresh : (k : String) (ts : List Thread) → All (λ u. u.id ≢ k) ts → find_last k ts ≡ none
unfolding find_last
find_last_fresh k [] h = refl
find_last_fresh k (t ∷ ts) h = ground (arith, find_last_fresh k ts h.1, eq_iff t.id k)

pub lookup-index_from :
    (k : String) (m : List (String × Thread)) (ts : List Thread)
    → lookup k (index_from m ts) ≡ or_else (find_last k ts) (lookup k m)
unfolding index_from find_last
lookup-index_from k m [] = refl
lookup-index_from k m (t ∷ ts) =
    ground (arith, lookup-index_from k (insert t.id t m) ts, lookup-insert t.id k t m)

pub merge_one-keeps : (t : Thread) (o : Option Thread) → (merge_one t o).id ≡ t.id
unfolding merge_one fill_state fill_fields
merge_one-keeps t o = ground arith

pub or_else-none : (o : Option Thread) → or_else o none ≡ o
or_else-none o = ground arith

-- What the second loop makes of an id: the map's entry, under the App Server's thread.
abbrev pub over : Option Thread → Option Thread → Option Thread
over none current = current
over (some t) current = some (merge_one t current)

lookup-merge_app :
    (k : String) (m : List (String × Thread)) (ts : List Thread)
    → Distinct ts
    → lookup k (merge_app m ts) ≡ over (find_last k ts) (lookup k m)
unfolding merge_app find_last
lookup-merge_app k m [] d = refl
lookup-merge_app k m (t ∷ ts) d =
    let n = insert t.id (merge_one t (lookup t.id m)) m in
    let rest = lookup-merge_app k n ts d.1 in
    let here = lookup-insert t.id k (merge_one t (lookup t.id m)) m in
    elim (String-cases t.id k) [
      | inl (b, e) ↦
          let gone : find_last k ts ≡ none = rw (← e) (find_last_fresh t.id ts d.0) in
          rw (rest, gone, here, b) (ap (λ j. some (merge_one t (lookup j m))) e)
      | inr (b, e) ↦ elim (Option-cases (find_last k ts)) [
        | inl miss ↦ rw (rest, miss, here, b)
        | inr (u, hit) ↦ rw (rest, hit, here, b)
      ]
    ]

-- `mergeThreads` knows an id exactly as the two sources do: the App Server's thread, with what it
-- leaves open taken from the session file's, or the one of the two that there is. Of two session
-- files with one id the later counts; the App Server lists no id twice.
pub merged_map_lem :
    (app fs : List Thread) (k : String)
    → Distinct app
    → lookup k (merged_map app fs) ≡ over (find_last k app) (find_last k fs)
unfolding merged_map lookup
merged_map_lem app fs k d =
    lookup-merge_app k (index_by_id fs) app d
    ∙ ap (over (find_last k app)) (lookup-index_from k [] fs ∙ or_else-none (find_last k fs))
