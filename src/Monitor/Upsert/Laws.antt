-- ===== src/Monitor/Upsert/Laws.antt =====
-- What a change by id does to the slice that Monitor/Upsert models: it is the change of the last
-- thread with the id, and no other id sees it.
use codex_ha_monitor.Prelude.{
  ℕ, zero, suc, ◌+◌, String, List, [], ◌∷◌, ◌++◌, length, modify, lookup, insert, lookup-insert,
  Option, some, none, ◌=?=◌, if◌then◌else◌, ◌≡◌, ◌∙◌, sym, refl, arith, eq_iff, Option-cases, inl,
  inr,
}
use codex_ha_monitor.Model.Types.{Thread}
use codex_ha_monitor.Merge.Reads.{find_last}
use codex_ha_monitor.Monitor.Upsert.{Index, places, index_threads, upsert}

-- The place of the last thread with an id.
pub last_place : String → List Thread → Option ℕ
last_place k [] = none
last_place k (t ∷ ts) = elim (last_place k ts) [
  | some i ↦ some (suc i)
  | none ↦ if t.id =?= k then some 0 else none
]

-- The map agrees with the slice.
abbrev pub IsSynced : Index → Type 0
IsSynced x = (k : String) → lookup k x.by_id ≡ last_place k x.threads

abbrev shift : ℕ → Option ℕ → Option ℕ → Option ℕ
shift i (some j) o = some (i + j)
shift i none o = o

lookup-places :
    (i : ℕ) (m : List (String × ℕ)) (ts : List Thread) (k : String)
    → lookup k (places i m ts) ≡ shift i (last_place k ts) (lookup k m)
unfolding places last_place
lookup-places i m [] k = refl
lookup-places i m (t ∷ ts) k =
    ground (arith, lookup-places (suc i) (insert t.id i m) ts k, lookup-insert t.id k i m)

pub index_threads-IsSynced : (ts : List Thread) → IsSynced (index_threads ts)
unfolding index_threads lookup
index_threads-IsSynced ts k = ground (arith, lookup-places 0 [] ts k)

last_place-append :
    (k : String) (ts : List Thread) (t : Thread)
    → last_place k (ts ++ t ∷ []) ≡ (if t.id =?= k then some (length ts) else last_place k ts)
unfolding last_place
last_place-append k [] t = ground arith
last_place-append k (u ∷ ts) t = ground (arith, last_place-append k ts t)

find_last-append :
    (k : String) (ts : List Thread) (t : Thread)
    → find_last k (ts ++ t ∷ []) ≡ (if t.id =?= k then some t else find_last k ts)
unfolding find_last
find_last-append k [] t = ground arith
find_last-append k (u ∷ ts) t = ground (arith, find_last-append k ts t)

last_place-modify :
    (k : String) (f : Thread → Thread) (i : ℕ) (ts : List Thread)
    → ((t : Thread) → (f t).id ≡ t.id)
    → last_place k (modify f i ts) ≡ last_place k ts
unfolding last_place
last_place-modify k f i [] same = refl
last_place-modify k f zero (t ∷ ts) same = ground (arith, same t)
last_place-modify k f (suc i) (t ∷ ts) same = rw (last_place-modify k f i ts same)

no_place : (k : String) (ts : List Thread) → last_place k ts ≡ none → find_last k ts ≡ none
unfolding last_place find_last
no_place k [] h = refl
no_place k (t ∷ ts) h = ground (arith, no_place k ts)

find_last-modify :
    (k : String) (f : Thread → Thread) (i : ℕ) (ts : List Thread)
    → ((t : Thread) → (f t).id ≡ t.id)
    → last_place k ts ≡ some i
    → (t : Thread) × (find_last k ts ≡ some t)
      × ((j : String)
          → find_last j (modify f i ts) ≡ (if k =?= j then some (f t) else find_last j ts))
unfolding last_place find_last
find_last-modify k f i [] same h = cc
find_last-modify k f zero (t ∷ ts) same h = elim (Option-cases (last_place k ts)) [
  | inl gone ↦ (
    t,
    ground (arith, no_place k ts gone),
    λ j. ground (
      arith,
      same t,
      no_place k ts gone,
      eq_iff k j,
      eq_iff t.id k,
      eq_iff t.id j,
      eq_iff (f t).id j,
    ),
  )
  | inr (i, e) ↦ absurd (ground arith)
]
find_last-modify k f (suc i) (t ∷ ts) same h =
    let (u, found, changed) = find_last-modify k f i ts same (ground arith) in
    (u, ground (arith, found), λ j. ground (arith, found, changed j, eq_iff k j))

-- The thread with an id, or the fresh one.
abbrev pub current {ℓ} : {A : Type ℓ} → A → Option A → A
current fresh none = fresh
current fresh (some t) = t

module _ (id : String) (fresh : Thread) (change : Thread → Thread) (x : Index) where
  -- A change by id is the change of the last thread with that id, or of the fresh one where there
  -- is none, and is seen under no other id.
  pub find_last-upsert :
      IsSynced x
      → fresh.id ≡ id
      → ((t : Thread) → (change t).id ≡ t.id)
      → (j : String)
      → find_last j (upsert id fresh change x).threads ≡ (
          if id =?= j
          then some (change (current fresh (find_last id x.threads)))
          else find_last j x.threads)
  unfolding upsert
  find_last-upsert synced own same j = elim (Option-cases (lookup id x.by_id)) [
    | inl miss ↦
        rw (miss, upsert)
          (find_last-append j x.threads (change fresh)
            ∙ ground (arith, same fresh, no_place id x.threads (sym (synced id) ∙ miss)))
    | inr (i, hit) ↦
        let (t, found, changed) =
          find_last-modify id change i x.threads same (sym (synced id) ∙ hit) in
        rw (hit, upsert, found) (changed j)
  ]

  pub upsert-IsSynced :
      IsSynced x
      → fresh.id ≡ id
      → ((t : Thread) → (change t).id ≡ t.id)
      → IsSynced (upsert id fresh change x)
  unfolding upsert
  upsert-IsSynced synced own same k = elim (Option-cases (lookup id x.by_id)) [
    | inl miss ↦
        rw (miss, upsert)
          (lookup-insert id k (length x.threads) x.by_id
            ∙ ground (arith, synced k, same fresh, last_place-append k x.threads (change fresh)))
    | inr (i, hit) ↦ rw (hit, upsert) (synced k ∙ sym (last_place-modify k change i x.threads same))
  ]
