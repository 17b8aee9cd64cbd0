-- ===== src/Tests/Sources.antt =====
-- The theorems on the session files, on the App Server's client and on the loop that keeps it, at concrete inputs.
use codex_ha_monitor.Prelude.{
  ℕ, true, false, List, [], ◌∷◌, lookup, Option, none, some, ok, ◌≡◌, ◌⊎◌, refl, ap, pos,
  stable_sort, place, insert, delete, Reordered, emptied, carried,
}
use codex_ha_monitor.Text.{codes}
use codex_ha_monitor.Json.{text, null}
use codex_ha_monitor.Model.Types.{Thread, zero_thread, idle}
use codex_ha_monitor.Collector.Session.{FilesystemCollector, SessionRecord, SessionFile, scan_tail}
use codex_ha_monitor.Collector.Listing.{Surroundings, entry, collect}
use codex_ha_monitor.Collector.Inferred.{Inference, scan_tail-Inference}
use codex_ha_monitor.Collector.Newest.{IsCollected}
use codex_ha_monitor.Collector.Fails.{IsCancelled}
use codex_ha_monitor.Monitor.Loop.Files.{
  collector_of, filesystem_round, filesystem_round-IsCollected,
}
use codex_ha_monitor.AppClient.Requests.{
  IncomingMessage, Reply, result_of, failed, Client, scanning, sending, returned, register,
  read_line, end_reading, take_reply, give_up, asked, gave_up, abandon, line, took, Step, ask, read,
  Run, start, next,
}
use codex_ha_monitor.AppClient.Replies.{Explained, Run-Explained}
use codex_ha_monitor.AppClient.Ended.{end_reading-returns}
use codex_ha_monitor.Monitor.State.{second}
use codex_ha_monitor.Monitor.Account.{set_connection, next_backoff}
use codex_ha_monitor.Monitor.Connect.{attach_client}
use codex_ha_monitor.Monitor.Rebuild.Keeps.{rebuild-SameSources}
use codex_ha_monitor.Monitor.Refresh.{new_monitor}
use codex_ha_monitor.Monitor.Loop.{
  codex_home, Loop, LoopRuns, new_loop, connecting, refreshing, is_supported, created, stepped,
  begin, attached, failed as connect_failed, waited, waiting, starting,
}
use codex_ha_monitor.Monitor.Loop.Backoff.{waits, doubled, LoopRuns-backoff}
use codex_ha_monitor.Monitor.Loop.Held.{client_of, LoopRuns-client}
use codex_ha_monitor.Tests.{env, cfg, host, cli, created_monitor, busy}

abbrev collector : FilesystemCollector
collector = record { home = "/home/u/.codex"; active_window = pos 0; max_threads = pos 0 }

abbrev meta : SessionRecord
meta = record {
  timestamp = some 3;
  record_type = "session_meta";
  payload_type = "";
  id = "a";
  cwd = "/work";
  cli_version = "1.0";
  source = text "cli";
}

abbrev completed : SessionRecord
completed = record {
  timestamp = some 7;
  record_type = "event_msg";
  payload_type = "task_complete";
  id = "";
  cwd = "";
  cli_version = "";
  source = null;
}

scan_tail-Inference_example :
    Inference collector 9
      (meta ∷ completed ∷ [])
      (scan_tail collector 9 (meta ∷ completed ∷ []) zero_thread).updated_at
      (scan_tail collector 9 (meta ∷ completed ∷ []) zero_thread).state
scan_tail-Inference_example = scan_tail-Inference collector 9 (meta ∷ completed ∷ []) zero_thread

-- A decoder that knows two lines.
abbrev known_lines : List ℕ → Option SessionRecord
known_lines [] = none
known_lines (c ∷ []) = some meta
known_lines (c ∷ d ∷ cs) = some completed

abbrev session_file : SessionFile
session_file = record {
  path = "/home/u/.codex/sessions/a.jsonl";
  mod_time = 8;
  size = 5;
  open_error = none;
  first_read = ok (codes "m\ncc\n");
  seek_error = none;
  second_read = ok (codes "m\ncc\n");
}

abbrev surroundings : Surroundings
surroundings = record {
  now = 9;
  decoding = record {
    decode_record = known_lines;
    decode_entry = λ line. none;
    thread_spawn = λ j. none;
    print_json = λ j. "";
  };
  index = none;
  walk = entry false false true (some session_file) ∷ [];
  order_files = λ fs. fs;
  order_threads = λ ts. ts;
}

Reordered-same : (ts : List Thread) → Reordered ts ts
Reordered-same [] = emptied
Reordered-same (t ∷ ts) = carried t (Reordered-same ts)

abbrev session_thread : Thread
session_thread = record zero_thread {
  id = "a";
  session_id = "a";
  cwd = "/work";
  source = "cli";
  cli_version = "1.0";
  state = idle;
  state_source = "filesystem_inference";
  state_confidence = "inferred";
  updated_at = 7;
}

filesystem_round-IsCollected_example :
    (((codex_home busy "/home/u/.codex" none ≡ "") ⊎ IsCancelled surroundings.walk)
      × ((filesystem_round env 9 surroundings "/home/u/.codex" none (λ m. m) busy).fs_threads
          ≡ busy.fs_threads))
    ⊎ IsCollected
        (collector_of cfg (codex_home busy "/home/u/.codex" none))
        (filesystem_round env 9 surroundings "/home/u/.codex" none (λ m. m) busy).fs_threads
filesystem_round-IsCollected_example =
    filesystem_round-IsCollected env 9 surroundings "/home/u/.codex" none (λ m. m) busy
      Reordered-same

session_file_runs : collect surroundings collector ≡ ok (session_thread ∷ [])
unfolding collect stable_sort place lookup
session_file_runs = refl

abbrev first_answer : IncomingMessage
first_answer = record { id = "1"; method = ""; params = ""; result = "{}"; failure = none }

abbrev waiting_client : Client
waiting_client = record {
  pending = ("1", none) ∷ [];
  next_id = pos 1;
  reader = scanning;
  handed = [];
}

abbrev answered_client : Client
answered_client = record waiting_client { pending = ("1", some (result_of "{}")) ∷ [] }

waiting-Run : Run (asked ∷ []) waiting_client
unfolding register insert
waiting-Run = next start ask

answered-Run : Run (line (some first_answer) ∷ asked ∷ []) answered_client
unfolding read_line lookup insert
answered-Run = next waiting-Run (read (some first_answer) refl)

Run-Explained_example : Explained "1" (line (some first_answer) ∷ asked ∷ []) (result_of "{}")
unfolding lookup
Run-Explained_example =
    Run-Explained (line (some first_answer) ∷ asked ∷ []) answered_client "1" (result_of "{}")
      answered-Run refl

end_reading-returns_example :
    ((end_reading "EOF" waiting_client).reader ≡ returned)
    × (reply : Reply) × ((reply ≡ failed "EOF") ⊎ (none ≡ some reply))
    × Step
        (end_reading "EOF" waiting_client)
        (took "1" reply)
        (take_reply "1" (end_reading "EOF" waiting_client))
    × (lookup "1" (take_reply "1" (end_reading "EOF" waiting_client)).pending ≡ none)
unfolding lookup
end_reading-returns_example = end_reading-returns waiting_client "EOF" "1" none refl

-- A second response with the same id, while the first waits in the channel.
abbrev held_client : Client
held_client = record answered_client { reader = sending "1" }

held-Run : Run (line (some first_answer) ∷ line (some first_answer) ∷ asked ∷ []) held_client
unfolding read_line lookup
held-Run = next answered-Run (read (some first_answer) refl)

-- If the request's context is done then, nobody ever takes the first, and the loop stays where it is.
abbrev stuck_client : Client
stuck_client = record held_client { pending = [] }

stuck-Run :
    Run
      (gave_up "1" ∷ line (some first_answer) ∷ line (some first_answer) ∷ asked ∷ [])
      stuck_client
unfolding give_up lookup delete
stuck-Run = next held-Run (abandon "1" (some (result_of "{}")) refl)

abbrev connecting_loop : Loop
connecting_loop = record {
  monitor = set_connection env 6 "connecting" "" created_monitor;
  backoff = second;
  phase = connecting;
}

abbrev connected_loop : Loop
connected_loop = record {
  monitor =
      attach_client env 7 4 (record { user_agent = "codex"; codex_home = "/home/u/.codex" })
        connecting_loop.monitor;
  backoff = second;
  phase = refreshing 4;
}

connected_loop-LoopRuns : LoopRuns connected_loop
unfolding set_connection new_monitor
connected_loop-LoopRuns =
    stepped
      (stepped (created cfg 5 host cli "go1.24") (begin env 6 (new_loop created_monitor) refl))
      (attached env 7 4 (record { user_agent = "codex"; codex_home = "/home/u/.codex" })
        connecting_loop refl (ap is_supported (rebuild-SameSources env 6 _).same_cfg))

LoopRuns-client_example : connected_loop.monitor.client ≡ client_of connected_loop.phase
LoopRuns-client_example = LoopRuns-client connected_loop connected_loop-LoopRuns

-- Two rounds that fail to start the App Server, with the wait between them.
abbrev failing_loop : Loop
failing_loop = record {
  monitor = set_connection env 7 "error" "no such file" connecting_loop.monitor;
  backoff = second;
  phase = waiting;
}

failing_loop-LoopRuns : LoopRuns failing_loop
unfolding set_connection new_monitor
failing_loop-LoopRuns =
    stepped
      (stepped (created cfg 5 host cli "go1.24") (begin env 6 (new_loop created_monitor) refl))
      (connect_failed env 7 "no such file" connecting_loop refl
        (ap is_supported (rebuild-SameSources env 6 _).same_cfg))

abbrev retrying_loop : Loop
retrying_loop = record failing_loop { phase = starting; backoff = next_backoff second }

LoopRuns-backoff_example :
    retrying_loop.backoff
    ≡ doubled (waits (stepped failing_loop-LoopRuns (waited failing_loop refl)))
LoopRuns-backoff_example =
    LoopRuns-backoff retrying_loop (stepped failing_loop-LoopRuns (waited failing_loop refl))
