-- ===== src/Monitor/Upsert.antt =====
-- A slice of threads with the map from their ids to their places, as `applyHooksLocked` (hooks.go)
-- and `decoratePendingRequestsLocked` (events.go) of agent/internal/monitor keep them.
pub mod Laws
use codex_ha_monitor.Prelude.{
  ℕ, zero, suc, ◌+◌, String, List, [], ◌∷◌, ◌++◌, length, modify, lookup, insert, Option, some,
  none,
}
use codex_ha_monitor.Model.Types.{Thread}

pub record Index : Type 0 where
  pub threads : List Thread
  pub by_id : List (String × ℕ)

-- `for i := range threads { byID[threads[i].ID] = i }`, from place `i` on.
pub places : ℕ → List (String × ℕ) → List Thread → List (String × ℕ)
places i m [] = m
places i m (t ∷ ts) = places (suc i) (insert t.id i m) ts

unfoldable pub index_threads : List Thread → Index
unfolding places
index_threads ts = record { threads = ts; by_id = places 0 [] ts }

-- Changes the thread with an id; a thread that is not there is first appended as `fresh`.
unfoldable pub upsert : String → Thread → (Thread → Thread) → Index → Index
upsert id fresh change x = elim (lookup id x.by_id) [
  | none ↦ record {
    threads = x.threads ++ change fresh ∷ [];
    by_id = insert id (length x.threads) x.by_id;
  }
  | some i ↦ record x { threads = modify change i x.threads }
]
