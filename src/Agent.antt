-- ===== src/Agent.antt =====
-- agent/cmd/cma/main.go: the options of the agent, and the configuration that they make.
pub mod Accepted
use Prim.Native.String
use codex_ha_monitor.Prelude.{
  ℕ, ◌*◌, String, Bool, true, false, ◌||◌, not, ltb_int64, ◌=?=◌, if◌then◌else◌, Option, none, some,
  ℤ, pos, Result, ok, err, ◌≡◌, refl,
}
use codex_ha_monitor.Text.Parse.{atoi}
use codex_ha_monitor.Monitor.State.{Config, second}

-- The flags, as package flag has parsed them, and the first argument that is no flag.
pub record Options : Type 0 where
  pub port : ℤ
  pub bind : String
  pub token : String
  pub endpoint : String
  pub codex_binary : String
  pub codex_home : String
  pub poll_interval : ℤ
  pub request_timeout : ℤ
  pub failure_threshold : ℤ
  pub usage_history_days : ℤ
  pub stale_after : ℤ
  pub active_window : ℤ
  pub hook_running_ttl : ℤ
  pub hook_idle_ttl : ℤ
  pub hook_attention_ttl : ℤ
  pub max_threads : ℤ
  pub mdns : Bool
  pub show_version : Bool
  pub argument : Option String

-- `version`
abbrev pub agent_version : String
agent_version = "0.4.0"

abbrev pub minute : ℕ
minute = 60 * second

-- The options without any flag.
abbrev pub default_options : Options
default_options = record {
  port = pos 8765;
  bind = "::";
  token = "";
  endpoint = "auto";
  codex_binary = "codex";
  codex_home = "";
  poll_interval = pos (10 * second);
  request_timeout = pos (10 * second);
  failure_threshold = pos 2;
  usage_history_days = pos 90;
  stale_after = pos (30 * second);
  active_window = pos minute;
  hook_running_ttl = pos (10 * minute);
  hook_idle_ttl = pos minute;
  hook_attention_ttl = pos (5 * minute);
  max_threads = pos 100;
  mdns = true;
  show_version = false;
  argument = none;
}

abbrev invalid_port : String → Option ℤ → Result String ℤ
invalid_port argument none = err (String.◌++◌ "invalid port \"" (String.◌++◌ argument "\""))
invalid_port argument (some port) = ok port

-- The port: the argument's, if there is one. (`%q` would also escape what is in it.)
pub chosen_port : ℤ → Option String → Result String ℤ
unfolding atoi
chosen_port port none = ok port
chosen_port port (some argument) = invalid_port argument (atoi argument)

-- The checks of `main` after the port is known.
pub check_options : Options → ℤ → Result String ℤ
check_options o port =
    if ltb_int64 port (pos 1) || ltb_int64 (pos 65535) port
    then err "port must be between 1 and 65535"
    else if not (ltb_int64 (pos 0) o.request_timeout)
    then err "app-server-request-timeout must be greater than zero"
    else if ltb_int64 o.failure_threshold (pos 1)
    then err "app-server-failure-threshold must be at least one"
    else if ltb_int64 o.usage_history_days (pos 0) || ltb_int64 (pos 365) o.usage_history_days
    then err "usage-history-days must be between 0 and 365"
    else if o.token =?= ""
    then err "token is required"
    else ok port

-- The configuration of the monitor, for an installation's id.
pub monitor_config : Options → String → Config
monitor_config o installation_id = record {
  agent_version = agent_version;
  installation_id = installation_id;
  codex_binary = o.codex_binary;
  codex_home = o.codex_home;
  endpoint = o.endpoint;
  poll_interval = o.poll_interval;
  app_server_request_timeout = o.request_timeout;
  app_server_failure_threshold = o.failure_threshold;
  usage_history_days = o.usage_history_days;
  filesystem_interval = pos (2 * second);
  stale_after = o.stale_after;
  filesystem_active_window = o.active_window;
  hook_running_ttl = o.hook_running_ttl;
  hook_idle_ttl = o.hook_idle_ttl;
  hook_attention_ttl = o.hook_attention_ttl;
  max_threads = o.max_threads;
}

-- How `main` goes on: it prints its version, or stops with a complaint, or listens at a port with a
-- configuration. An id that cannot be had stops it too.
pub data Start : Type 0 where
  prints_version : Start
  stops : String → Start
  listens : ℤ → Config → Start

abbrev pub configured : Options → ℤ → Result String String → Start
configured o port (err e) = stops (String.◌++◌ "load installation id: " e)
configured o port (ok id) = listens port (monitor_config o id)

abbrev pub checked : Options → Result String String → Result String ℤ → Start
checked o id (err e) = stops e
checked o id (ok port) = configured o port id

abbrev pub with_port : Options → Result String String → Result String ℤ → Start
with_port o id (err e) = stops e
with_port o id (ok port) = checked o id (check_options o port)

-- `main` after its hook commands, with the result of `LoadOrCreate`.
unfoldable pub start_agent : Options → Result String String → Start
unfolding check_options chosen_port monitor_config
start_agent o id =
    if o.show_version then prints_version else with_port o id (chosen_port o.port o.argument)

start_defaults : start_agent default_options (ok "id") ≡ stops "token is required"
unfolding start_agent
start_defaults = refl
