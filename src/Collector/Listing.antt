-- ===== src/Collector/Listing.antt =====
-- `Collect` of agent/internal/collector/filesystem.go: the titles, the files that are read, and the
-- threads that they give.
use codex_ha_monitor.Prelude.{
  ℕ, ◌*◌, String, Bool, ◌||◌, not, List, [], ◌∷◌, length, take, ltb, leb, ◌=?=◌, if◌then◌else◌,
  insert, Option, none, some, Result, ok, err, newest_first,
}
use codex_ha_monitor.Model.Types.{Time, Thread, zero_thread}
use codex_ha_monitor.Monitor.State.{positive_or}
use codex_ha_monitor.Collector.Session.{
  FilesystemCollector, SessionRecord, SessionFile, Decoding, scan_records, split_lines, decoded,
  read_metas, scan_tail, tail_of, tail_bytes, finish_thread,
}

-- What `filepath.WalkDir` meets: a name that it cannot read, or an entry, with whether the context is
-- done by then, whether it is a directory, whether its name ends in `.jsonl` in any case, and the file
-- if `Info` succeeds.
pub data Entry : Type 0 where
  unreadable : Entry
  entry : Bool → Bool → Bool → Option SessionFile → Entry

-- What surrounds one `Collect`: the clock, the decoding, the index file if it opens, the walk, and
-- the order that Go's unstable sorts leave equal elements in.
pub record Surroundings : Type 0 where
  pub now : Time
  pub decoding : Decoding
  pub index : Option (List ℕ)
  pub walk : List Entry
  pub order_files : List SessionFile → List SessionFile
  pub order_threads : List Thread → List Thread

abbrev add_title : List (String × String) → String × String → List (String × String)
add_title titles (id, name) = if id =?= "" then titles else insert id name titles

pub add_titles : List (String × String) → List (String × String) → List (String × String)
add_titles titles [] = titles
add_titles titles (e ∷ es) = add_titles (add_title titles e) es

-- The lines before the first that is too long for the scanner.
pub short_lines : ℕ → List (List ℕ) → List (List ℕ)
short_lines most [] = []
short_lines most (line ∷ lines) =
    let rest = short_lines most lines in if leb most (length line) then [] else line ∷ rest

-- `readTitles`
pub read_titles : Surroundings → List (String × String)
unfolding add_titles short_lines decoded split_lines
read_titles s = elim s.index [
  | none ↦ []
  | some content ↦
      add_titles []
        (decoded s.decoding.decode_entry (short_lines (2 * 1024 * 1024) (split_lines [] content)))
]

-- The function of the walk, on each entry in turn, after the files that were found.
unfoldable pub walk_files : List Entry → Result String (List SessionFile)
walk_files [] = ok []
walk_files (unreadable ∷ es) = walk_files es
walk_files (entry cancelled is_dir is_jsonl info ∷ es) =
    let rest = walk_files es in
    if cancelled
    then err "context canceled"
    else if is_dir || not is_jsonl
    then rest
    else elim info [
      | none ↦ rest
      | some file ↦ elim rest [ err e ↦ err e | ok files ↦ ok (file ∷ files) ]
    ]

-- `files[:max]`, if there are more.
abbrev pub at_most : ℕ → List SessionFile → List SessionFile
at_most most files = if ltb most (length files) then take most files else files

-- The sort and the cut of `recentSessionFiles`.
unfoldable pub cut_recent :
    Surroundings → ℕ → Result String (List SessionFile) → Result String (List SessionFile)
cut_recent s most (err e) = err e
cut_recent s most (ok files) =
    ok (at_most most (newest_first (λ f. f.mod_time) (s.order_files files)))

-- `recentSessionFiles`
unfoldable pub recent_session_files : Surroundings → ℕ → Result String (List SessionFile)
unfolding walk_files cut_recent
recent_session_files s most = cut_recent s most (walk_files s.walk)

abbrev scan : Decoding → Result String (List ℕ) → Result String (List SessionRecord)
scan d (err e) = err e
scan d (ok content) = scan_records d content

abbrev tail_read : SessionFile → Result String (List ℕ)
tail_read file = elim file.second_read [ err e ↦ err e | ok content ↦ ok (tail_of file content) ]

abbrev head_read : SessionFile → Result String (List ℕ)
head_read file = elim file.first_read [ err e ↦ err e | ok content ↦ ok (take tail_bytes content) ]

-- `parseSession` in its steps: after the second scan,
unfoldable pub parse_tail :
    Surroundings
    → FilesystemCollector
    → SessionFile
    → List (String × String)
    → List SessionRecord
    → Result String (List SessionRecord)
    → Result String Thread
unfolding read_metas scan_tail finish_thread
parse_tail s c file titles head (err e) = err e
parse_tail s c file titles head (ok records) =
    finish_thread file titles (scan_tail c s.now records (read_metas s.decoding zero_thread head))

-- after the first scan, with what the seek says,
unfoldable pub parse_head :
    Surroundings
    → FilesystemCollector
    → SessionFile
    → List (String × String)
    → Option String
    → Result String (List SessionRecord)
    → Result String Thread
unfolding parse_tail scan_records tail_of
parse_head s c file titles seek_error (err e) = err e
parse_head s c file titles (some e) (ok head) = err e
parse_head s c file titles none (ok head) =
    parse_tail s c file titles head (scan s.decoding (tail_read file))

-- and with what opening the file says.
unfoldable pub parse_opened :
    Surroundings
    → FilesystemCollector
    → SessionFile
    → List (String × String)
    → Option String
    → Result String Thread
unfolding parse_head scan_records
parse_opened s c file titles (some e) = err e
parse_opened s c file titles none =
    parse_head s c file titles file.seek_error (scan s.decoding (head_read file))

-- `parseSession`
unfoldable pub parse_session :
    Surroundings → FilesystemCollector → SessionFile → List (String × String) → Result String Thread
unfolding parse_opened
parse_session s c file titles = parse_opened s c file titles file.open_error

-- The file's thread, if it has one with an id.
abbrev pub thread_of : Result String Thread → List Thread → List Thread
thread_of (err e) rest = rest
thread_of (ok t) rest = if t.id =?= "" then rest else t ∷ rest

-- The loop of `Collect`.
unfoldable pub parse_files :
    Surroundings → FilesystemCollector → List (String × String) → List SessionFile → List Thread
unfolding parse_session
parse_files s c titles [] = []
parse_files s c titles (file ∷ files) =
    thread_of (parse_session s c file titles) (parse_files s c titles files)

abbrev order_newest : Surroundings → List Thread → List Thread
order_newest s threads = newest_first (λ t. t.updated_at) (s.order_threads threads)

-- `Collect` after its files were listed.
unfoldable pub collect_files :
    Surroundings
    → FilesystemCollector
    → Result String (List SessionFile)
    → Result String (List Thread)
unfolding parse_files read_titles
collect_files s c (err e) = err e
collect_files s c (ok files) = ok (order_newest s (parse_files s c (read_titles s) files))

-- `Collect`
unfoldable pub collect : Surroundings → FilesystemCollector → Result String (List Thread)
unfolding collect_files recent_session_files
collect s c =
    if c.home =?= ""
    then err "CODEX_HOME is empty"
    else collect_files s c (recent_session_files s (positive_or c.max_threads 100))
