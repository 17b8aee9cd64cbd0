-- ===== src/Collector/Newest.antt =====
-- `Collect` of agent/internal/collector/filesystem.go: how many threads it gives, in which order, and
-- of what kind.
use codex_ha_monitor.Prelude.{
  ℕ, suc, Bool-cases, Reordered, Reordered-length, Reordered-All, stable_sort-All,
  length-stable_sort, length-take-le, ◌≤◌, String, true, false, List, [], ◌∷◌, length, ltb, ◌=?=◌,
  Option, none, some, Result, ok, err, ◌≡◌, ◌≢◌, ◌∙◌, refl, ap, sym, subst, arith, All,
  newest_first, IsNewestFirst, newest_first-IsNewestFirst, String-cases, inl, inr,
}
use codex_ha_monitor.Model.Types.{Thread, zero_thread}
use codex_ha_monitor.Monitor.State.{positive_or}
use codex_ha_monitor.Collector.Session.{
  FilesystemCollector, SessionFile, SessionRecord, scan_tail, read_metas, finish_thread,
}
use codex_ha_monitor.Collector.Listing.{
  Surroundings, at_most, cut_recent, recent_session_files, thread_of, parse_files, parse_session,
  parse_opened, parse_head, parse_tail, collect_files, collect, read_titles,
}

abbrev most_threads : FilesystemCollector → ℕ
most_threads c = positive_or c.max_threads 100

-- A thread as the collector makes it.
abbrev pub IsInferred : Thread → Type 0
IsInferred t =
    (t.id ≢ "")
    × (t.state_source ≡ "filesystem_inference")
    × (t.state_confidence ≡ "inferred")
    × (t.loaded ≡ false)

-- A result of `Collect`.
pub record IsCollected (c : FilesystemCollector) (threads : List Thread) : Type 0 where
  pub newest : IsNewestFirst (λ t. t.updated_at) threads
  pub few : length threads ≤ most_threads c
  pub inferred : All IsInferred threads

length-at_most-le : (most : ℕ) (files : List SessionFile) → length (at_most most files) ≤ most
length-at_most-le most files = ground (arith, length-take-le most files)

length-thread_of-le :
    (r : Result String Thread) (rest : List Thread) → length (thread_of r rest) ≤ suc (length rest)
length-thread_of-le (err e) rest = omega arith
length-thread_of-le (ok t) rest = ground arith

length-parse_files-le :
    (s : Surroundings) (c : FilesystemCollector) (titles : List (String × String))
    (files : List SessionFile)
    → length (parse_files s c titles files) ≤ length files
unfolding parse_files
length-parse_files-le s c titles [] = omega arith
length-parse_files-le s c titles (file ∷ files) = omega (
  arith,
  length-parse_files-le s c titles files,
  length-thread_of-le (parse_session s c file titles) (parse_files s c titles files),
)

-- What `parseSession` returns without an error.
abbrev IsParsed : Result String Thread → Type 0
IsParsed (err e) = Unit
IsParsed (ok t) = IsInferred t

finish_thread-IsParsed :
    (file : SessionFile) (titles : List (String × String)) (t : Thread)
    → IsParsed (finish_thread file titles t)
unfolding finish_thread
finish_thread-IsParsed file titles t = elim (String-cases t.id "") [
  | inl (b, e) ↦ rw (b, finish_thread) tt
  | inr (b, n) ↦ rw (b, finish_thread) (n, refl, refl, refl)
]

parse_tail-IsParsed :
    (s : Surroundings) (c : FilesystemCollector) (file : SessionFile)
    (titles : List (String × String)) (head : List SessionRecord)
    (records : Result String (List SessionRecord))
    → IsParsed (parse_tail s c file titles head records)
unfolding parse_tail
parse_tail-IsParsed s c file titles head (err e) = tt
parse_tail-IsParsed s c file titles head (ok records) =
    finish_thread-IsParsed file titles
      (scan_tail c s.now records (read_metas s.decoding zero_thread head))

parse_head-IsParsed :
    (s : Surroundings) (c : FilesystemCollector) (file : SessionFile)
    (titles : List (String × String)) (seek_error : Option String)
    (head : Result String (List SessionRecord))
    → IsParsed (parse_head s c file titles seek_error head)
unfolding parse_head
parse_head-IsParsed s c file titles seek_error (err e) = tt
parse_head-IsParsed s c file titles (some e) (ok head) = tt
parse_head-IsParsed s c file titles none (ok head) = parse_tail-IsParsed s c file titles head _

parse_opened-IsParsed :
    (s : Surroundings) (c : FilesystemCollector) (file : SessionFile)
    (titles : List (String × String)) (open_error : Option String)
    → IsParsed (parse_opened s c file titles open_error)
unfolding parse_opened
parse_opened-IsParsed s c file titles (some e) = tt
parse_opened-IsParsed s c file titles none = parse_head-IsParsed s c file titles file.seek_error _

parse_session-IsParsed :
    (s : Surroundings) (c : FilesystemCollector) (file : SessionFile)
    (titles : List (String × String))
    → IsParsed (parse_session s c file titles)
unfolding parse_session
parse_session-IsParsed s c file titles = parse_opened-IsParsed s c file titles file.open_error

thread_of-All :
    (r : Result String Thread) (rest : List Thread)
    → IsParsed r
    → All IsInferred rest
    → All IsInferred (thread_of r rest)
thread_of-All (err e) rest p h = h
thread_of-All (ok t) rest p h = elim (Bool-cases (t.id =?= "")) [
  | inl b ↦ rw b h
  | inr b ↦ rw b (p, h)
]

parse_files-All :
    (s : Surroundings) (c : FilesystemCollector) (titles : List (String × String))
    (files : List SessionFile)
    → All IsInferred (parse_files s c titles files)
unfolding parse_files
parse_files-All s c titles [] = tt
parse_files-All s c titles (file ∷ files) =
    thread_of-All (parse_session s c file titles) (parse_files s c titles files)
      (parse_session-IsParsed s c file titles) (parse_files-All s c titles files)

unwrap : List Thread → Result String (List Thread) → List Thread
unwrap fallback (err e) = fallback
unwrap fallback (ok ts) = ts

ok-injective :
    {ts us : List Thread} → ◌≡◌ {A = Result String (List Thread)} (ok ts) (ok us) → ts ≡ us
unfolding unwrap
ok-injective e = ap (unwrap []) e

-- A cut listing, or an error.
abbrev IsCut : ℕ → Result String (List SessionFile) → Type 0
IsCut most (err e) = Unit
IsCut most (ok files) = length files ≤ most

cut_recent-IsCut :
    (s : Surroundings) (most : ℕ) (found : Result String (List SessionFile))
    → IsCut most (cut_recent s most found)
unfolding cut_recent
cut_recent-IsCut s most (err e) = tt
cut_recent-IsCut s most (ok files) = length-at_most-le most _

collect_files-IsCollected :
    (s : Surroundings) (c : FilesystemCollector) (threads : List Thread)
    (found : Result String (List SessionFile))
    → ((ts : List Thread) → Reordered ts (s.order_threads ts))
    → IsCut (most_threads c) found
    → collect_files s c found ≡ ok threads
    → IsCollected c threads
unfolding collect_files
collect_files-IsCollected s c threads (err e) order few h = absurd (ground arith)
collect_files-IsCollected s c threads (ok files) order few h =
    let parsed = parse_files s c (read_titles s) files in
    let before = λ (t u : Thread). ltb u.updated_at t.updated_at in
    let count : length parsed ≤ length files = length-parse_files-le s c (read_titles s) files in
    let kept : length parsed ≡ length (s.order_threads parsed) = Reordered-length (order parsed) in
    let sorted : IsCollected c (newest_first (λ t. t.updated_at) (s.order_threads parsed)) =
      record {
        newest = newest_first-IsNewestFirst (λ t. t.updated_at) (s.order_threads parsed);
        few = omega (arith, length-stable_sort before (s.order_threads parsed));
        inferred =
            stable_sort-All IsInferred before (s.order_threads parsed)
              (Reordered-All IsInferred (order parsed) (parse_files-All s c (read_titles s) files));
      } in
    subst (IsCollected c) (ok-injective h) sorted

collect-homeless :
    (s : Surroundings) (c : FilesystemCollector)
    → (c.home =?= "") ≡ true
    → collect s c ≡ err "CODEX_HOME is empty"
unfolding collect
collect-homeless s c b = rw (b, collect) refl

pub collect-home :
    (s : Surroundings) (c : FilesystemCollector)
    → (c.home =?= "") ≡ false
    → collect s c ≡ collect_files s c (recent_session_files s (most_threads c))
unfolding collect
collect-home s c b = rw (b, collect) refl

-- When `Collect` succeeds, its threads are newest first, no more than the maximum (100 where none is
-- set), and each has an id and says that its state is inferred from a file.
pub collect-IsCollected :
    (s : Surroundings) (c : FilesystemCollector) (threads : List Thread)
    → ((ts : List Thread) → Reordered ts (s.order_threads ts))
    → collect s c ≡ ok threads
    → IsCollected c threads
unfolding recent_session_files
collect-IsCollected s c threads order h = elim (Bool-cases (c.home =?= "")) [
  | inl b ↦
      let failed : ◌≡◌ {A = Result String (List Thread)} (err "CODEX_HOME is empty") (ok threads) =
        sym (collect-homeless s c b) ∙ h in
      absurd (ground arith)
  | inr b ↦
      collect_files-IsCollected s c threads (recent_session_files s (most_threads c)) order
        (cut_recent-IsCut s (most_threads c) _) (sym (collect-home s c b) ∙ h)
]
