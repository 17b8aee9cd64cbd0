-- ===== src/AppClient/Connect.antt =====
-- The writes of agent/internal/appserver/client.go, and `ConnectStdio`.
use codex_ha_monitor.Prelude.{
  ℕ, String, true, List, [], ◌∷◌, ◌=?=◌, if◌then◌else◌, Option, none, some, Result, ok, err,
}
use codex_ha_monitor.Json.{Json, text, bool, object, member, stop}

-- A message that is written: a request, a notification or a response; an id of a response is raw.
pub data OutgoingMessage : Type 0 where
  call : ℕ → String → Json → OutgoingMessage
  notify : String → Json → OutgoingMessage
  respond : String → Json → OutgoingMessage

-- `Respond`: what it writes, or its error.
unfoldable respond_message : String → Json → Result String OutgoingMessage
respond_message id result =
    if id =?= "" then err "app-server response id is empty" else ok (respond id result)

abbrev client_info : String → Json
client_info version = object (
    member "name" (text "codex_monitor_agent")
      (member "title" (text "Codex Monitor Agent") (member "version" (text version) stop)))

-- The parameters of `initialize`.
abbrev pub initialize_params : String → Json
initialize_params version = object (
    member "clientInfo" (client_info version) (
      member "capabilities"
        (object (
          member "experimentalApi" (bool true)
            (member "mcpServerOpenaiFormElicitation" (bool true) stop)))
        stop))

-- What `ConnectStdio` meets: the errors of the two pipes and of the start, the reply to `initialize`,
-- and the error of the notification that follows it.
pub record Process {ℓ} (A : Type ℓ) : Type ℓ where
  pub stdin_error : Option String
  pub stdout_error : Option String
  pub start_error : Option String
  pub initialized : Result String A
  pub notify_error : Option String

-- How `ConnectStdio` ends: without a process, with one that it closed, or with a client; and what it
-- then has written, or tried to.
pub data Connection {ℓ} (A : Type ℓ) : Type ℓ where
  not_started : String → Connection A
  closed_again : String → List OutgoingMessage → Connection A
  connected : A → List OutgoingMessage → Connection A

abbrev greeting : String → OutgoingMessage
greeting version = call 1 "initialize" (initialize_params version)

module _ {ℓ} {A : Type ℓ} (version : String) where
  abbrev pub finish_connect : A → Option String → Connection A
  finish_connect result (some e) = closed_again e (greeting version ∷ [])
  finish_connect result none =
      connected result (greeting version ∷ notify "initialized" (object stop) ∷ [])

  abbrev pub greet : Process A → Result String A → Connection A
  greet p (err e) = closed_again e (greeting version ∷ [])
  greet p (ok result) = finish_connect result p.notify_error

  -- `ConnectStdio`
  unfoldable connect_stdio : Process A → Connection A
  connect_stdio p = elim p.stdin_error [
    | some e ↦ not_started e
    | none ↦ elim p.stdout_error [
      | some e ↦ not_started e
      | none ↦ elim p.start_error [ some e ↦ not_started e | none ↦ greet p p.initialized ]
    ]
  ]
