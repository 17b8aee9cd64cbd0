-- ===== src/Relay.antt =====
-- agent/internal/hookrelay/relay.go: the commands that Codex is told to run for its hooks, and
-- agent/cmd/cma/main.go: how such a command reads its arguments. A text is the list of its bytes.
pub mod Shell
pub mod RoundTrip
pub mod Forward
use codex_ha_monitor.Prelude.{
  ℕ, String, map, Bool, true, false, ◌&&◌, ◌||◌, not, List, [], ◌∷◌, ◌++◌, length, ltb, ◌==◌,
  if◌then◌else◌,
}
use codex_ha_monitor.Text.{codes}

abbrev pub Bytes : Type 0
Bytes = List ℕ

abbrev pub single_quote : ℕ
single_quote = 0x27

abbrev pub double_quote : ℕ
double_quote = 0x22

-- `strings.ReplaceAll(value, from, to)`, for a `from` of one byte.
pub replace_all : ℕ → Bytes → Bytes → Bytes
replace_all from to [] = []
replace_all from to (c ∷ s) =
    if c == from then to ++ replace_all from to s else c ∷ replace_all from to s

-- `'"'"'`
abbrev pub quoted_quote : Bytes
quoted_quote = single_quote ∷ double_quote ∷ single_quote ∷ double_quote ∷ single_quote ∷ []

pub shell_quote : Bytes → Bytes
shell_quote value =
    single_quote ∷ (replace_all single_quote quoted_quote value ++ single_quote ∷ [])

unfoldable windows_quote : Bytes → Bytes
windows_quote value =
    double_quote ∷ (replace_all double_quote (b'\\' ∷ double_quote ∷ []) value ++ double_quote ∷ [])

-- The two commands of `Config`.
pub unix_command : Bytes → Bytes → Bytes → Bytes
unix_command executable endpoint token =
    shell_quote executable
    ++ (codes " hook-forward --token "
        ++ (shell_quote token ++ (codes " " ++ shell_quote endpoint)))

pub windows_command : Bytes → Bytes → Bytes → Bytes
windows_command executable endpoint token =
    windows_quote executable
    ++ (codes " hook-forward --token "
        ++ (windows_quote token ++ (codes " " ++ windows_quote endpoint)))

-- `events`
abbrev pub hook_events : List String
hook_events =
    "SessionStart" ∷ "UserPromptSubmit" ∷ "PreToolUse" ∷ "PermissionRequest" ∷ "PostToolUse"
    ∷ "PreCompact" ∷ "PostCompact" ∷ "SubagentStart" ∷ "SubagentStop" ∷ "Stop" ∷ []

-- The one hook that `Config` gives to an event; its type is "command".
pub record Hook : Type 0 where
  pub event : String
  pub command : Bytes
  pub command_windows : Bytes
  pub timeout : ℕ

-- `Config`
unfoldable hook_config : Bytes → Bytes → Bytes → List Hook
unfolding unix_command windows_command
hook_config executable endpoint token =
    map
      (λ event. record {
        event = event;
        command = unix_command executable endpoint token;
        command_windows = windows_command executable endpoint token;
        timeout = 2;
      })
      hook_events

-- `DefaultURL`
abbrev pub default_url : Bytes
default_url = codes "http://127.0.0.1:8765/api/v1/hooks/codex"

pub same_bytes : Bytes → Bytes → Bool
same_bytes [] [] = true
same_bytes (c ∷ s) (d ∷ t) = c == d && same_bytes s t
same_bytes _ _ = false

-- What `hookArgs` returns: the token and the endpoint, or that they are missing.
pub data HookArgs : Type 0 where
  missing : HookArgs
  given : Bytes → Bytes → HookArgs

abbrev third_or_default : List Bytes → Bytes
third_or_default [] = default_url
third_or_default (endpoint ∷ _) = endpoint

-- `hookArgs`
pub hook_args : List Bytes → HookArgs
hook_args [] = missing
hook_args (flag ∷ []) = missing
hook_args (flag ∷ token ∷ rest) =
    if not (same_bytes flag (codes "--token")) || same_bytes token []
    then missing
    else given token (third_or_default rest)

-- What `runHookCommand` does: nothing of its own, a complaint, or a command with its arguments.
pub data HookCommand : Type 0 where
  not_a_hook usage : HookCommand
  forward print_config : Bytes → Bytes → HookCommand

abbrev pub with_args : (Bytes → Bytes → HookCommand) → HookArgs → HookCommand
with_args command missing = usage
with_args command (given token endpoint) = command token endpoint

-- `runHookCommand`, on the arguments after the program's name.
pub run_hook_command : List Bytes → HookCommand
unfolding hook_args same_bytes
run_hook_command [] = not_a_hook
run_hook_command (name ∷ args) =
    if same_bytes name (codes "hook-forward")
    then with_args forward (hook_args args)
    else if same_bytes name (codes "print-hook-config")
    then with_args print_config (hook_args args)
    else not_a_hook
