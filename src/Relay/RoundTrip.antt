-- ===== src/Relay/RoundTrip.antt =====
-- The command that agent/internal/hookrelay/relay.go prints, as a shell and then
-- agent/cmd/cma/main.go read it.
use codex_ha_monitor.Prelude.{
  ℕ, false, List, [], ◌∷◌, ◌++◌, some, ◌==◌, ◌≡◌, ◌≢◌, ◌∙◌, ap, sym, refl, arith, inl, inr,
  Bool-cases,
}
use mathlib.Core.List.{append_assoc, append-nil}
use codex_ha_monitor.Text.{codes}
use codex_ha_monitor.Relay.{
  Bytes, single_quote, quoted_quote, replace_all, shell_quote, unix_command, forward,
  run_hook_command,
}
use codex_ha_monitor.Relay.Shell.{
  between, in_word, in_single, read, words, finish_word, is_expanded,
}

read_single-other :
    (word : Bytes) (c : ℕ) (s : Bytes)
    → c == single_quote ≡ false
    → read in_single word (c ∷ s) ≡ read in_single (word ++ c ∷ []) s
unfolding read
read_single-other word c s b = rw b refl

-- What is between the single quotes comes back, whatever it is.
read-replace_all :
    (word v rest : Bytes)
    → read in_single word (replace_all single_quote quoted_quote v ++ single_quote ∷ rest)
      ≡ read in_word (word ++ v) rest
unfolding read replace_all is_expanded
read-replace_all word [] rest = ap (λ w. read in_word w rest) (sym (append-nil word))
read-replace_all word (c ∷ v) rest = elim (Bool-cases (c == single_quote)) [
  | inl b ↦
      let same : single_quote ≡ c = ground arith in
      let joined = append_assoc word (single_quote ∷ []) v ∙ ap (λ d. word ++ d ∷ v) same in
      rw (b, replace_all)
        (read-replace_all (word ++ single_quote ∷ []) v rest ∙ ap (λ w. read in_word w rest) joined)
  | inr b ↦
      rw (b, replace_all)
        (read_single-other word c (replace_all single_quote quoted_quote v ++ single_quote ∷ rest) b
          ∙ read-replace_all (word ++ c ∷ []) v rest
          ∙ ap (λ w. read in_word w rest) (append_assoc word (c ∷ []) v))
]

read-shell_quote : (v rest : Bytes) → read between [] (shell_quote v ++ rest) ≡ read in_word v rest
unfolding read shell_quote
read-shell_quote v rest =
    ap (read in_single [])
      (append_assoc (replace_all single_quote quoted_quote v) (single_quote ∷ []) rest)
    ∙ read-replace_all [] v rest

read-command :
    (executable endpoint token : Bytes)
    → words (unix_command executable endpoint token)
      ≡ some (executable ∷ codes "hook-forward" ∷ codes "--token" ∷ token ∷ endpoint ∷ [])
unfolding words unix_command
read-command executable endpoint token =
    let tail = shell_quote token ++ (codes " " ++ shell_quote endpoint) in
    let last : read between [] (shell_quote endpoint) ≡ some (endpoint ∷ []) =
      ap (read between []) (sym (append-nil (shell_quote endpoint)))
      ∙ read-shell_quote endpoint [] in
    let second : read between [] tail ≡ some (token ∷ endpoint ∷ []) =
      read-shell_quote token (codes " " ++ shell_quote endpoint) ∙ ap (finish_word token) last in
    read-shell_quote executable (codes " hook-forward --token " ++ tail)
    ∙ ap
        (λ r.
          finish_word executable
            (finish_word (codes "hook-forward") (finish_word (codes "--token") r)))
        second

-- The hook command that is printed for a POSIX shell runs the given program with arguments that it
-- reads back as the same token and endpoint, whatever bytes are in the three, quotes and blanks
-- included, so long as the token is not empty.
pub unix_command-run_hook_command :
    (executable endpoint token : Bytes)
    → token ≢ []
    → (args : List Bytes) × (words (unix_command executable endpoint token)
        ≡ some (executable ∷ args))
      × (run_hook_command args ≡ forward token endpoint)
unfolding run_hook_command
unix_command-run_hook_command executable endpoint [] n = absurd (n refl)
unix_command-run_hook_command executable endpoint (t ∷ token) n = (
  codes "hook-forward" ∷ codes "--token" ∷ (t ∷ token) ∷ endpoint ∷ [],
  read-command executable endpoint (t ∷ token),
  refl,
)
