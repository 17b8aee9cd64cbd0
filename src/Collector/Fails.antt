-- ===== src/Collector/Fails.antt =====
-- When `Collect` of agent/internal/collector/filesystem.go fails.
use codex_ha_monitor.Prelude.{
  ℕ, String, Bool, true, false, ◌||◌, not, List, [], ◌∷◌, if◌then◌else◌, Option, none, some,
  String-cases, Result, ok, err, ◌≡◌, ◌⊎◌, ◌∙◌, refl, sym, arith, inl, inr,
}
use codex_ha_monitor.Monitor.State.{positive_or}
use codex_ha_monitor.Collector.Session.{FilesystemCollector, SessionFile}
use codex_ha_monitor.Collector.Listing.{
  Entry, unreadable, entry, Surroundings, walk_files, cut_recent, recent_session_files,
  collect_files, collect,
}
use codex_ha_monitor.Collector.Newest.{collect-home}

-- The context was done at some entry of the walk.
abbrev pub IsCancelled : List Entry → Type 0
IsCancelled [] = ⊥
IsCancelled (unreadable ∷ es) = IsCancelled es
IsCancelled (entry cancelled is_dir is_jsonl info ∷ es) = (cancelled ≡ true) ⊎ IsCancelled es

-- One entry of the walk fails by itself, or because a later one does.
entry_fails :
    (cancelled skipped : Bool) (info : Option SessionFile) (rest : Result String (List SessionFile))
    (e : String)
    → (if cancelled then err "context canceled" else if skipped then rest else elim info [
      | none ↦ rest
      | some file ↦ elim rest [ err e ↦ err e | ok files ↦ ok (file ∷ files) ]
    ])
      ≡ err e
    → (cancelled ≡ true) ⊎ ((later : String) × (rest ≡ err later))
entry_fails true skipped info rest e h = inl refl
entry_fails false true info rest e h = inr (e, h)
entry_fails false false none rest e h = inr (e, h)
entry_fails false false (some file) (err later) e h = inr (later, refl)
entry_fails false false (some file) (ok files) e h = absurd (ground arith)

walk_files-IsCancelled : (es : List Entry) (e : String) → walk_files es ≡ err e → IsCancelled es
unfolding walk_files
walk_files-IsCancelled [] e h = absurd (ground arith)
walk_files-IsCancelled (unreadable ∷ es) e h = walk_files-IsCancelled es e h
walk_files-IsCancelled (entry cancelled is_dir is_jsonl info ∷ es) e h =
    elim (entry_fails cancelled (is_dir || not is_jsonl) info (walk_files es) e h) [
      | inl c ↦ inl c
      | inr (later, fails) ↦ inr (walk_files-IsCancelled es later fails)
    ]

cut_recent-err :
    (s : Surroundings) (most : ℕ) (found : Result String (List SessionFile)) (e : String)
    → cut_recent s most found ≡ err e
    → found ≡ err e
unfolding cut_recent
cut_recent-err s most (err later) e h = ground arith
cut_recent-err s most (ok files) e h = absurd (ground arith)

collect_files-err :
    (s : Surroundings) (c : FilesystemCollector) (found : Result String (List SessionFile))
    (e : String)
    → collect_files s c found ≡ err e
    → (later : String) × (found ≡ err later)
unfolding collect_files
collect_files-err s c (err later) e h = (later, refl)
collect_files-err s c (ok files) e h = absurd (ground arith)

-- `Collect` fails only for want of a directory, or because its context is done while it walks.
pub collect-err :
    (s : Surroundings) (c : FilesystemCollector) (e : String)
    → collect s c ≡ err e
    → (c.home ≡ "") ⊎ IsCancelled s.walk
unfolding recent_session_files
collect-err s c e h = elim (String-cases c.home "") [
  | inl (b, none_set) ↦ inl none_set
  | inr (b, n) ↦
      let (later, fails) = collect_files-err s c _ e (sym (collect-home s c b) ∙ h) in
      inr (
        walk_files-IsCancelled s.walk later
          (cut_recent-err s (positive_or c.max_threads 100) (walk_files s.walk) later fails))
]
