-- ===== src/Collector/Session.antt =====
-- One session file, in agent/internal/collector/filesystem.go: its records, and the thread that they
-- make. A file is its bytes; what encoding/json and time.Parse make of a line is a parameter.
use codex_ha_monitor.Prelude.{
  ℕ, ◌-◌, ◌*◌, ◌^◌, String, Bool, false, ◌&&◌, not, List, [], ◌∷◌, ◌++◌, length, drop, any, ltb,
  leb, ◌==◌, ◌=?=◌, if◌then◌else◌, lookup, Option, none, some, Result, ok, err, ℤ,
}
use codex_ha_monitor.Json.{Json, null, text}
use codex_ha_monitor.Model.Types.{Time, Thread, State, running, idle, unknown}
use codex_ha_monitor.Monitor.State.{positive_or, second}

abbrev pub tail_bytes : ℕ
tail_bytes = 512 * 1024

pub record FilesystemCollector : Type 0 where
  pub home : String
  pub active_window : ℤ
  pub max_threads : ℤ

-- `sessionRecord`; `timestamp` is what `time.Parse` makes of it, if it can.
pub record SessionRecord : Type 0 where
  pub timestamp : Option Time
  pub record_type : String
  pub payload_type : String
  pub id : String
  pub cwd : String
  pub cli_version : String
  pub source : Json

-- What `sourceMetadata` reads under `subagent` and `thread_spawn`.
pub record ThreadSpawn : Type 0 where
  pub parent_thread_id : String
  pub agent_nickname : String
  pub agent_role : String

-- What encoding/json makes of a line of a session file and of the index, of a source's
-- `thread_spawn`, and the text that it prints of a value.
pub record Decoding : Type 0 where
  pub decode_record : List ℕ → Option SessionRecord
  pub decode_entry : List ℕ → Option (String × String)
  pub thread_spawn : Json → Option ThreadSpawn
  pub print_json : Json → String

-- A file as it was listed, with what opening it, its two reads and the seek between them yield.
pub record SessionFile : Type 0 where
  pub path : String
  pub mod_time : Time
  pub size : ℕ
  pub open_error : Option String
  pub first_read : Result String (List ℕ)
  pub seek_error : Option String
  pub second_read : Result String (List ℕ)

pub drop_return : List ℕ → List ℕ
drop_return [] = []
drop_return (c ∷ []) = if c == b'\r' then [] else c ∷ []
drop_return (c ∷ d ∷ cs) = c ∷ drop_return (d ∷ cs)

abbrev last_line : List ℕ → List (List ℕ)
last_line [] = []
last_line (c ∷ cs) = (c ∷ cs) ∷ []

-- The lines of `bufio.Scanner` after the part `line` of the first; each still has its carriage return.
unfoldable pub split_lines : List ℕ → List ℕ → List (List ℕ)
split_lines line [] = last_line line
split_lines line (c ∷ cs) =
    let next = split_lines [] cs in
    let same = split_lines (line ++ c ∷ []) cs in if c == b'\n' then line ∷ next else same

-- The lines that decode.
unfoldable pub decoded {ℓ} : {A : Type ℓ} → (List ℕ → Option A) → List (List ℕ) → List A
unfolding drop_return
decoded decode [] = []
decoded decode (line ∷ lines) =
    let rest = decoded decode lines in
    elim (decode (drop_return line)) [ none ↦ rest | some r ↦ r ∷ rest ]

-- `scanRecords`: the records for which `fn` is called, or the error of the scanner. Its callers drop
-- what they have of records before an error.
unfoldable pub scan_records : Decoding → List ℕ → Result String (List SessionRecord)
unfolding split_lines decoded
scan_records d content =
    let lines = split_lines [] content in
    if any (λ line. leb (4 * 1024 * 1024) (length line)) lines
    then err "bufio.Scanner: token too long"
    else ok (decoded d.decode_record lines)

-- `stringifySource`
abbrev pub stringify_source : Decoding → Json → String
stringify_source d (text s) = s
stringify_source d null = ""
stringify_source d value = d.print_json value

abbrev pub with_spawn : Thread → Option ThreadSpawn → Thread
with_spawn t none = record t { parent_thread_id = ""; agent_nickname = ""; agent_role = "" }
with_spawn t (some spawn) = record t {
  parent_thread_id = spawn.parent_thread_id;
  agent_nickname = spawn.agent_nickname;
  agent_role = spawn.agent_role;
}

-- The function that `parseSession` scans the start of a file with.
pub read_meta : Decoding → Thread → SessionRecord → Thread
read_meta d t r =
    if (r.record_type =?= "session_meta") && (t.id =?= "")
    then with_spawn
        (record t {
          id = r.id;
          session_id = r.id;
          cwd = r.cwd;
          source = stringify_source d r.source;
          cli_version = r.cli_version;
        })
        (d.thread_spawn r.source)
    else t

unfoldable pub read_metas : Decoding → Thread → List SessionRecord → Thread
unfolding read_meta
read_metas d t [] = t
read_metas d t (r ∷ rs) = read_metas d (read_meta d t r) rs

-- `at`: the zero time where it does not parse.
abbrev pub time_of : SessionRecord → Time
time_of r = elim r.timestamp [ none ↦ 0 | some at ↦ at ]

abbrev pub is_complete : SessionRecord → Bool
is_complete r = (r.record_type =?= "event_msg") && (r.payload_type =?= "task_complete")

-- `lastAt` and `completedAt` after the records.
unfoldable pub scan_times : Time × Time → List SessionRecord → Time × Time
scan_times times [] = times
scan_times (last_at, completed_at) (r ∷ rs) =
    scan_times
      (
        if ltb last_at (time_of r) then time_of r else last_at,
        if is_complete r && ltb completed_at (time_of r) then time_of r else completed_at,
      )
      rs

-- `time.Since(t)`, which stops at the longest duration, and at 0 here where it is negative.
abbrev pub since : Time → Time → ℕ
since now t = if ltb (2 ^ 63 - 1) (now - t) then 2 ^ 63 - 1 else now - t

-- The `switch` of `scanTail`.
unfoldable pub infer_state : FilesystemCollector → Time → Time → Time → State
infer_state c now last_at completed_at =
    if not (last_at == 0)
      && ltb completed_at last_at
      && leb (since now last_at) (positive_or c.active_window (60 * second))
    then running
    else if not (completed_at == 0) && not (ltb completed_at last_at)
    then idle
    else unknown

-- `scanTail` on the records of the file's end.
unfoldable pub scan_tail : FilesystemCollector → Time → List SessionRecord → Thread → Thread
unfolding scan_times infer_state
scan_tail c now rs t =
    let (last_at, completed_at) = scan_times (0, 0) rs in
    record t { updated_at = last_at; state = infer_state c now last_at completed_at }

-- What is left after `reader.ReadString('\n')`.
pub after_newline : List ℕ → List ℕ
after_newline [] = []
after_newline (c ∷ cs) = if c == b'\n' then cs else after_newline cs

-- The part of a file that `scanTail` reads.
unfoldable pub tail_of : SessionFile → List ℕ → List ℕ
unfolding after_newline
tail_of file content =
    if ltb tail_bytes file.size
    then after_newline (drop (file.size - tail_bytes) content)
    else content

-- The end of `parseSession`.
unfoldable pub finish_thread : SessionFile → List (String × String) → Thread → Result String Thread
finish_thread file titles t =
    if t.id =?= ""
    then err "session_meta id not found"
    else ok (record t {
      name = elim (lookup t.id titles) [ none ↦ "" | some name ↦ name ];
      state_source = "filesystem_inference";
      state_confidence = "inferred";
      loaded = false;
      updated_at = if t.updated_at == 0 then file.mod_time else t.updated_at;
    })
