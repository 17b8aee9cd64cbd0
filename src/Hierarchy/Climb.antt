-- ===== src/Hierarchy/Climb.antt =====
-- The loop of `assignThreadHierarchy` ends, and finds the top of the chain of parents.
use codex_ha_monitor.Prelude.{
  ℕ, zero, suc, ◌<◌, ◌≤◌, false, not, String, List, [], ◌∷◌, length, count_if, lookup, some, none,
  ◌=?=◌, if◌then◌else◌, ◌≡◌, ◌≢◌, ◌⊎◌, inl, inr, ◌∙◌, sym, ap, arith, refl, All, String-cases,
  Option-cases, Bool-cases, eq_iff, get_elem?, get_elem?-map, subst,
}
use codex_ha_monitor.Model.Types.{Thread}
use codex_ha_monitor.Hierarchy.{
  index_by_id, member, root_from, root_of, assign_one, assign_thread_hierarchy,
}

-- The keys of the map that the loop has not met.
abbrev unseen : List (String × Thread) → List String → ℕ
unseen m seen = count_if (λ e. not (member e.0 seen)) m

unseen_le :
    (m : List (String × Thread)) (seen : List String) (k : String)
    → unseen m (k ∷ seen) ≤ unseen m seen
unfolding member
unseen_le [] seen k = omega arith
unseen_le (e ∷ m) seen k = ground (arith, unseen_le m seen k)

unseen_lt :
    (m : List (String × Thread)) (seen : List String) (k : String) (t : Thread)
    → lookup k m ≡ some t
    → member k seen ≡ false
    → unseen m (k ∷ seen) < unseen m seen
unfolding member lookup
unseen_lt [] seen k t h n = cc
unseen_lt ((j, u) ∷ m) seen k t h n = elim (String-cases j k) [
  | inl (b, e) ↦ ground (arith, unseen_le m seen k, eq_iff k j, eq_iff j k)
  | inr (b, e) ↦ ground (arith, unseen_lt m seen k t, eq_iff k j)
]

unseen-le-length : (m : List (String × Thread)) (seen : List String) → unseen m seen ≤ length m
unseen-le-length [] seen = omega arith
unseen-le-length (e ∷ m) seen = ground (arith, unseen-le-length m seen)

root_from_total :
    (fuel : ℕ) (m : List (String × Thread)) (seen : List String) (root : String)
    → unseen m seen < fuel
    → (r : String) × (root_from fuel m seen root ≡ some r)
unfolding root_from
root_from_total zero m seen root h = absurd (omega arith)
root_from_total (suc fuel) m seen root h = elim (Bool-cases (root =?= "")) [
  | inl e ↦ (root, rw e)
  | inr e ↦ elim (Bool-cases (member root seen)) [
    | inl d ↦ (root, rw (e, d))
    | inr d ↦ elim (Option-cases (lookup root m)) [
      | inl miss ↦ (root, rw (e, d, miss))
      | inr (t, hit) ↦
          let less = unseen_lt m seen root t hit d in
          let (r, rest) = root_from_total fuel m (root ∷ seen) t.parent_thread_id (omega (arith)) in
          elim (Bool-cases (t.parent_thread_id =?= "")) [
            | inl top ↦ (root, rw (e, d, hit, top))
            | inr more ↦ (r, rw (e, d, hit, more) rest)
          ]
    ]
  ]
]

-- The loop that looks for a thread's root ends within its fuel, whatever the parent links are:
-- missing parents, cycles and repeated ids included.
pub root_of_total :
    (m : List (String × Thread)) (t : Thread) → (r : String) × (root_of m t ≡ some r)
unfolding root_of
root_of_total m t =
    root_from_total (suc (length m)) m (t.id ∷ []) t.parent_thread_id
      (omega (arith, unseen-le-length m (t.id ∷ [])))

-- `r` is reached from `p` by following parents `n` times.
pub data Climbs (m : List (String × Thread)) : ℕ → String → String → Type 0 where
  stay : (p : String) → Climbs m 0 p p
  up :
      {n : ℕ} {p r : String} (t : Thread)
      → lookup p m ≡ some t
      → t.parent_thread_id ≢ ""
      → Climbs m n t.parent_thread_id r
      → Climbs m (suc n) p r

-- The chain of parents ends at `r`: it is unknown, or has no parent.
abbrev pub IsTop : List (String × Thread) → String → Type 0
IsTop m r = (lookup r m ≡ none) ⊎ ((t : Thread) × (lookup r m ≡ some t) × (t.parent_thread_id ≡ ""))

top_unique :
    (m : List (String × Thread)) {n k : ℕ} {p r s : String}
    → Climbs m n p r
    → Climbs m k p s
    → IsTop m r
    → IsTop m s
    → (n ≡ k) × (r ≡ s)
top_unique m (stay p) (stay q) h g = (refl, refl)
top_unique m (stay p) (up t hit more c) h g = ground arith
top_unique m (up t hit more c) (stay q) h g = ground arith
top_unique m (up t hit more c) (up {n = k} {r = s} u hit' more' c') h g =
    let e : u ≡ t = cc in
    let (same, top) =
      top_unique m c (subst (λ (v : Thread). Climbs m k v.parent_thread_id s) e c') h g in
    (ap suc same, top)

-- Every id met is above `p` by more steps than the top is: so it is not `p`.
abbrev AllAbove : List (String × Thread) → ℕ → String → List String → Type 0
AllAbove m n r seen = All (λ s. (k : ℕ) × Climbs m k s r × (n < k)) seen

AllAbove-below :
    (m : List (String × Thread)) (n : ℕ) (r : String) (seen : List String)
    → AllAbove m (suc n) r seen
    → AllAbove m n r seen
AllAbove-below m n r [] a = tt
AllAbove-below m n r (s ∷ seen) ((k, c, lt), a) = ((k, c, omega arith), AllAbove-below m n r seen a)

not_seen :
    (m : List (String × Thread)) (n : ℕ) (p r : String) (seen : List String)
    → Climbs m n p r
    → IsTop m r
    → AllAbove m n r seen
    → member p seen ≡ false
unfolding member
not_seen m n p r [] c top a = refl
not_seen m n p r (s ∷ seen) c top ((k, above, lt), a) = elim (String-cases s p) [
  | inl (_, e) ↦
      let (same, _) = top_unique m c (subst (λ q. Climbs m k q r) e above) top top in
      absurd (omega arith)
  | inr (b, _) ↦ rw b (not_seen m n p r seen c top a)
]

root_from_top :
    (fuel : ℕ) (m : List (String × Thread)) (seen : List String) (n : ℕ) (p r found : String)
    → Climbs m n p r
    → IsTop m r
    → p ≢ ""
    → AllAbove m n r seen
    → root_from fuel m seen p ≡ some found
    → found ≡ r
unfolding root_from
root_from_top zero m seen n p r found c top ne a h = cc
root_from_top (suc fuel) m seen _ p _ found (stay _) (inl miss) ne a h = ground arith
root_from_top (suc fuel) m seen _ p _ found (stay _) (inr (t, hit, last)) ne a h =
    ground (arith, eq_iff t.parent_thread_id "")
root_from_top (suc fuel) m seen _ p r found (up {n = n} t hit more c) top ne a h =
    let fresh = not_seen m (suc n) p r seen (up t hit more c) top a in
    root_from_top fuel m (p ∷ seen) n t.parent_thread_id r found c top more
      ((suc n, up t hit more c, omega arith), AllAbove-below m n r seen a)
      (ground (arith, eq_iff p "", eq_iff t.parent_thread_id ""))

assign_one-Climbs :
    (m : List (String × Thread)) (t : Thread) {n : ℕ} {p r : String}
    → Climbs m n p r
    → t.id ≡ p
    → lookup p m ≡ some t
    → IsTop m r
    → assign_one m t ≡ record t {
      thread_role = if t.parent_thread_id =?= "" then "root" else "subagent";
      root_thread_id = r;
    }
unfolding assign_one root_of
assign_one-Climbs m t (stay p) here known (inl miss) = cc
assign_one-Climbs m t (stay p) here known (inr (u, hit, last)) =
    ground (arith, eq_iff t.parent_thread_id "")
assign_one-Climbs m t {p = p} {r = r} (up {n = n} u hit more c) here known top =
    let same : u ≡ t = cc in
    let ne : t.parent_thread_id ≢ "" = subst (λ (v : Thread). v.parent_thread_id ≢ "") same more in
    let above = subst (λ (v : Thread). Climbs m n v.parent_thread_id r) same c in
    let start : Climbs m (suc n) t.id r =
      subst (λ q. Climbs m (suc n) q r) (sym here) (up u hit more c) in
    let (found, total) = root_of_total m t in
    let e : found ≡ r =
      root_from_top (suc (length m)) m (t.id ∷ []) n t.parent_thread_id r found above top ne
        ((suc n, start, omega arith), tt) total in
    ground (arith, eq_iff t.parent_thread_id "")

-- The root that is assigned is the end of the chain of parents, whenever the chain ends: the thread
-- that has no parent or, where the list lacks a parent, the id of that unknown parent, and not the
-- nearest known one. It is so for a thread of the list that its id stands for, at any place, with its
-- role and nothing else changed.
pub assign_thread_hierarchy-Climbs :
    (ts : List Thread) (i : ℕ) (t : Thread) (n : ℕ) (r : String)
    → get_elem? ts i ≡ some t
    → lookup t.id (index_by_id ts) ≡ some t
    → Climbs (index_by_id ts) n t.id r
    → IsTop (index_by_id ts) r
    → (get_elem? (assign_thread_hierarchy ts) i
        ≡ some (record t {
          thread_role = if t.parent_thread_id =?= "" then "root" else "subagent";
          root_thread_id = r;
        }))
unfolding assign_thread_hierarchy
assign_thread_hierarchy-Climbs ts i t n r at known c top =
    get_elem?-map (assign_one (index_by_id ts)) ts i at
    ∙ ap some (assign_one-Climbs (index_by_id ts) t c refl known top)
