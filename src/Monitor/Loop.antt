-- ===== src/Monitor/Loop.antt =====
-- agent/internal/monitor/monitor.go: `runAppServer` as a loop with a place, `runFilesystem`, and what
-- they and `New` read of their surroundings.
pub mod Held
pub mod Backoff
pub mod Files
use Prim.Native.Char.{code}
use Prim.Native.String
use codex_ha_monitor.Prelude.{
  ℕ, ◌*◌, String, Bool, true, false, ◌||◌, List, [], ◌∷◌, ◌⊎◌, refl, ◌==◌, ◌=?=◌, if◌then◌else◌,
  Option, none, some, Result, ok, err, ◌≡◌,
}
use codex_ha_monitor.Text.{codes, is_space, has_prefix, trim_space}
use codex_ha_monitor.Model.Types.{Time, HostInfo, CodexCliInfo, AppServerInfo}
use codex_ha_monitor.Monitor.State.{Config, Monitor, Env, positive_or, second}
use codex_ha_monitor.Monitor.Account.{set_connection, clear_client, next_backoff}
use codex_ha_monitor.Monitor.Connect.{attach_client}
use codex_ha_monitor.Monitor.Refresh.{
  new_monitor, Replies, refresh_app_server, alive, returned, panicked,
}

-- The three intervals with their defaults.
abbrev pub poll_interval : Config → ℕ
poll_interval cfg = positive_or cfg.poll_interval (10 * second)

abbrev pub request_timeout : Config → ℕ
request_timeout cfg = positive_or cfg.app_server_request_timeout (10 * second)

abbrev pub filesystem_interval : Config → ℕ
filesystem_interval cfg = positive_or cfg.filesystem_interval (2 * second)

-- The directory that `collectFilesystem` reads, by the environment variable `CODEX_HOME` and the user's
-- own directory joined with `.codex`.
abbrev from_environment : String → Option String → String
from_environment variable user_home =
    if variable =?= "" then elim user_home [ none ↦ "" | some path ↦ path ] else variable

pub codex_home : Monitor → String → Option String → String
codex_home m variable user_home =
    let told = m.snapshot.app_server.codex_home in
    let home = if told =?= "" then m.cfg.codex_home else told in
    if home =?= "" then from_environment variable user_home else home

abbrev add_field : String → List String → List String
add_field word rest = if word =?= "" then rest else word ∷ rest

-- The texts between blanks, `strings.Fields`, after the part `word` of the first.
pub fields_from : String → String → List String
unfolding is_space
fields_from word String.[] = add_field word []
fields_from word (String.◌∷◌ c s) =
    let next = add_field word (fields_from "" s) in
    let same = fields_from (String.◌++◌ word (String.◌∷◌ c "")) s in
    if is_space (code c) then next else same

-- A field without the `v` before it.
abbrev without_v : String → String
without_v String.[] = ""
without_v (String.◌∷◌ c s) = if code c == b'v' then s else String.◌∷◌ c s

abbrev last_version : List String → String
last_version [] = ""
last_version (field ∷ []) = without_v field
last_version (field ∷ next ∷ rest) = last_version (next ∷ rest)

-- `ParseCodexVersion`
pub parse_codex_version : String → String
unfolding fields_from trim_space
parse_codex_version raw = last_version (fields_from "" (trim_space raw))

abbrev found_cli : String → String → String → String → CodexCliInfo
found_cli path raw version error_text = record {
  binary = path;
  raw = raw;
  version = version;
  error_text = error_text;
}

abbrev ran_cli : String → String → Option String → CodexCliInfo
ran_cli path raw (some e) = found_cli path raw "" e
ran_cli path raw none = found_cli path raw (parse_codex_version raw) ""

-- `detectCodexVersion`, on where the executable is, what it prints and how it ends.
unfoldable detect_codex_version : Result String String → String → Option String → CodexCliInfo
unfolding parse_codex_version trim_space
detect_codex_version (err e) output failure = found_cli "" "" "" e
detect_codex_version (ok path) output failure = ran_cli path (trim_space output) failure

version_runs : parse_codex_version "codex-cli v0.50.1 \n" ≡ "0.50.1"
unfolding parse_codex_version
version_runs = refl

-- The places of `runAppServer`: before a round, in `ConnectStdio`, in a refresh, at the `select`, from
-- `client.Close` up to `clearClient` (with the error that is then set, or none where the context is
-- done), before "disconnected" is set, in `waitContext`, returned, and in a panic.
pub data Phase : Type 0 where
  starting connecting waiting stopped : Phase
  refreshing : ℕ → Phase
  polling : ℕ → Phase
  crashed : ℕ → Phase
  closing : ℕ → Option String → Phase
  disconnecting : String → Phase

pub record Loop : Type 0 where
  pub monitor : Monitor
  pub backoff : ℕ
  pub phase : Phase

abbrev pub new_loop : Monitor → Loop
new_loop m = record { monitor = m; backoff = second; phase = starting }

abbrev pub is_supported : Config → Bool
is_supported cfg = (cfg.endpoint =?= "auto") || (cfg.endpoint =?= "stdio")

abbrev to_phase : Phase → Monitor → Loop → Loop
to_phase phase m l = record l { phase = phase; monitor = m }

-- The place after `clearClient`.
abbrev pub after_clear : Option String → Phase
after_clear none = stopped
after_clear (some e) = disconnecting e

-- What the loop does next, by its place. Others change the state in between, but not the client:
-- no other code sets it.
pub data LoopStep : Loop → Loop → Type 0 where
  others :
      (l : Loop) (m : Monitor) → m.client ≡ l.monitor.client → LoopStep l (record l { monitor = m })
  cancelled :
      (l : Loop)
      → (l.phase ≡ starting) ⊎ (l.phase ≡ waiting)
      → LoopStep l (record l { phase = stopped })
  begin :
      (env : Env) (now : Time) (l : Loop)
      → l.phase ≡ starting
      → LoopStep l (to_phase connecting (set_connection env now "connecting" "" l.monitor) l)
  unsupported :
      (env : Env) (now : Time) (l : Loop)
      → l.phase ≡ connecting
      → is_supported l.monitor.cfg ≡ false
      → LoopStep l (
          to_phase stopped
            (set_connection env now "error" "only auto and stdio are implemented in this MVP"
              l.monitor)
            l)
  failed :
      (env : Env) (now : Time) (e : String) (l : Loop)
      → l.phase ≡ connecting
      → is_supported l.monitor.cfg ≡ true
      → LoopStep l (to_phase waiting (set_connection env now "error" e l.monitor) l)
  attached :
      (env : Env) (now : Time) (client : ℕ) (info : AppServerInfo) (l : Loop)
      → l.phase ≡ connecting
      → is_supported l.monitor.cfg ≡ true
      → LoopStep l (record {
        monitor = attach_client env now client info l.monitor;
        backoff = second;
        phase = refreshing client;
      })
  refreshed :
      (env : Env) (now : Time) (meanwhile : Monitor → Monitor) (r : Replies) (client : ℕ) (l : Loop)
      (m : Monitor)
      → l.phase ≡ refreshing client
      → ((k : Monitor) → (meanwhile k).client ≡ k.client)
      → refresh_app_server env now meanwhile r l.monitor ≡ alive m
      → LoopStep l (to_phase (polling client) m l)
  refresh_failed :
      (env : Env) (now : Time) (meanwhile : Monitor → Monitor) (r : Replies) (client : ℕ)
      (e : String) (l : Loop) (m : Monitor)
      → l.phase ≡ refreshing client
      → ((k : Monitor) → (meanwhile k).client ≡ k.client)
      → refresh_app_server env now meanwhile r l.monitor ≡ returned e m
      → LoopStep l (to_phase (closing client (some e)) m l)
  refresh_panicked :
      (env : Env) (now : Time) (meanwhile : Monitor → Monitor) (r : Replies) (client : ℕ) (l : Loop)
      → l.phase ≡ refreshing client
      → refresh_app_server env now meanwhile r l.monitor ≡ panicked
      → LoopStep l (record l { phase = crashed client })
  tick :
      (client : ℕ) (l : Loop)
      → l.phase ≡ polling client
      → LoopStep l (record l { phase = refreshing client })
  ended :
      (client : ℕ) (e : String) (l : Loop)
      → l.phase ≡ polling client
      → LoopStep l (record l { phase = closing client (some e) })
  shut :
      (client : ℕ) (l : Loop)
      → l.phase ≡ polling client
      → LoopStep l (record l { phase = closing client none })
  cleared :
      (env : Env) (now : Time) (client : ℕ) (reason : Option String) (l : Loop)
      → l.phase ≡ closing client reason
      → LoopStep l (to_phase (after_clear reason) (clear_client env now client l.monitor) l)
  disconnected :
      (env : Env) (now : Time) (e : String) (l : Loop)
      → l.phase ≡ disconnecting e
      → LoopStep l (to_phase waiting (set_connection env now "disconnected" e l.monitor) l)
  waited :
      (l : Loop)
      → l.phase ≡ waiting
      → LoopStep l (record l { phase = starting; backoff = next_backoff l.backoff })

-- The states of the loop, from the monitor that `New` makes.
pub data LoopRuns : Loop → Type 0 where
  created :
      (cfg : Config) (now : Time) (host : HostInfo) (cli : CodexCliInfo) (go_version : String)
      → LoopRuns (new_loop (new_monitor cfg now host cli go_version))
  stepped : {l n : Loop} → LoopRuns l → LoopStep l n → LoopRuns n
