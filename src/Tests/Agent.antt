-- ===== src/Tests/Agent.antt =====
-- The theorems on the agent's start, its hook command and its names, at concrete inputs.
use codex_ha_monitor.Prelude.{
  pos, ℕ, ◌≤◌, List, [], ◌∷◌, ◌++◌, length, none, some, ok, err, ◌≡◌, refl,
}
use codex_ha_monitor.Text.{codes}
use codex_ha_monitor.Relay.{Bytes, unix_command, run_hook_command, forward, default_url}
use codex_ha_monitor.Relay.Shell.{words}
use codex_ha_monitor.Relay.RoundTrip.{unix_command-run_hook_command}
use codex_ha_monitor.Relay.Forward.{forward_request, IsRecorded, forward_request-serve}
use codex_ha_monitor.Identity.{Host, load_or_create, random_uuid, hex_digit}
use codex_ha_monitor.Identity.Stable.{load_or_create_stable}
use codex_ha_monitor.Discovery.{
  service_instance, clean_hostname, max_host_bytes, prefix, suffix, encode,
}
use codex_ha_monitor.Discovery.Bounds.{IsLongest, service_instance-IsLongest}
use codex_ha_monitor.Monitor.State.{HookEvent}
use codex_ha_monitor.Http.Server.{serve}
use codex_ha_monitor.Tests.{busy}
use codex_ha_monitor.Tests.Http.{world}
use codex_ha_monitor.Agent.{Options, default_options, monitor_config, start_agent}
use codex_ha_monitor.Agent.Accepted.{IsAccepted, start_agent-IsAccepted}

abbrev program : Bytes
program = codes "/opt/my tools/cma"

abbrev quoted_token : Bytes
quoted_token = codes "it's"

unix_command-run_hook_command_example :
    (args : List Bytes) × (words (unix_command program default_url quoted_token)
      ≡ some (program ∷ args))
    × (run_hook_command args ≡ forward quoted_token default_url)
unix_command-run_hook_command_example =
    unix_command-run_hook_command program default_url quoted_token (λ e. cc)

abbrev fresh_host : Host
fresh_host = record {
  config_dir = ok "/home/u/.config";
  read_error = none;
  make_dir = none;
  random = ok (1 ∷ 2 ∷ 3 ∷ 4 ∷ 5 ∷ 6 ∷ 7 ∷ 8 ∷ 9 ∷ 10 ∷ 11 ∷ 12 ∷ 13 ∷ 14 ∷ 15 ∷ 16 ∷ []);
  write = none;
  torn = none;
}

abbrev broken_host : Host
broken_host = record fresh_host { make_dir = some "read-only"; random = err "no entropy" }

load_or_create_stable_example :
    load_or_create broken_host (some "01020304-0506-4708-890a-0b0c0d0e0f10\n")
    ≡ (ok "01020304-0506-4708-890a-0b0c0d0e0f10", some "01020304-0506-4708-890a-0b0c0d0e0f10\n")
unfolding load_or_create random_uuid hex_digit
load_or_create_stable_example =
    load_or_create_stable fresh_host broken_host none
      (some "01020304-0506-4708-890a-0b0c0d0e0f10\n") "01020304-0506-4708-890a-0b0c0d0e0f10"
      "/home/u/.config" refl refl refl

abbrev long_hostname : List ℕ
long_hostname = codes "a-very-long-hostname-that-does-not-fit-the-label.example.com"

abbrev installation : List ℕ
installation = codes "01020304-0506"

service_instance-IsLongest_example :
    (kept : List ℕ) × (service_instance long_hostname installation
      ≡ prefix ++ (encode kept ++ suffix installation))
    × (length (service_instance long_hostname installation) ≤ 63)
    × IsLongest (max_host_bytes installation) (clean_hostname long_hostname) kept
service_instance-IsLongest_example = service_instance-IsLongest long_hostname installation

abbrev tool_hook : HookEvent
tool_hook = record {
  session_id = "a";
  turn_id = "t0";
  transcript_path = "";
  cwd = "/work";
  event_name = "PreToolUse";
  model = "";
  permission_mode = "";
  tool_name = "";
  message = "";
  legacy_event = "";
}

forward_request-serve_example :
    let served =
      serve quoted_token world
        (forward_request quoted_token "/api/v1/hooks/codex" (err "not an action") (ok tool_hook))
        busy in
    (served.sent ≡ []) × IsRecorded world busy (ok tool_hook) served
forward_request-serve_example =
    forward_request-serve quoted_token world busy (err "not an action") (ok tool_hook) refl

abbrev options : Options
options = record default_options {
  token = "s3cret";
  usage_history_days = pos 30;
  argument = some "9000";
}

start_agent-IsAccepted_example : IsAccepted options (pos 9000) (monitor_config options "home")
unfolding start_agent
start_agent-IsAccepted_example =
    start_agent-IsAccepted options (ok "home") (pos 9000) (monitor_config options "home") refl
