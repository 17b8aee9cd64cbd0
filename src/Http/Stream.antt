-- ===== src/Http/Stream.antt =====
-- `handleEvents` of agent/internal/httpapi/server.go: the subscription, and what is written for each
-- message.
use Prim.Native.String
use codex_ha_monitor.Prelude.{ℕ, String, List, [], ◌∷◌, ◌=?=◌, if◌then◌else◌, Option, none, some}
use codex_ha_monitor.Text.{format_uint}
use codex_ha_monitor.Text.Parse.{parse_uint}
use codex_ha_monitor.Monitor.State.{Monitor, StreamMessage, snapshot_message, task_activity}
use codex_ha_monitor.Monitor.Stream.{compact_usage, subscribe_locked, subscribe_send, unsubscribe}
use codex_ha_monitor.Http.Messages.{
  HttpRequest, Response, World, Served, Body, stream_opened, stream_blocked, reply_with, http_error,
}

abbrev number_or : ℕ → Option ℕ → ℕ
number_or fallback none = fallback
number_or fallback (some n) = n

-- `afterSequence`, from the header `Last-Event-ID`.
unfoldable pub after_sequence : String → ℕ
unfolding parse_uint
after_sequence value = if value =?= "" then 0 else number_or 0 (parse_uint value)

abbrev pub stream_response : Body → Response
stream_response body = record {
  status = 200;
  headers =
      ("Content-Type", "text/event-stream")
      ∷ ("Cache-Control", "no-cache")
      ∷ ("Connection", "keep-alive")
      ∷ [];
  body = body;
}

-- `Subscribe`: the second send waits if the channel is full.
unfoldable pub open_stream : World → ℕ → Monitor → Served
unfolding subscribe_locked subscribe_send
open_stream w after m =
    let (locked, current) = subscribe_locked w.channel after m in
    elim (subscribe_send w.channel current (w.meanwhile locked)) [
      | none ↦ reply_with (w.meanwhile locked) (stream_response stream_blocked)
      | some subscribed ↦ reply_with subscribed (stream_response stream_opened)
    ]

-- `handleEvents` up to its loop.
unfoldable pub handle_events : World → HttpRequest → Monitor → Served
unfolding open_stream after_sequence
handle_events w r m =
    if w.can_flush
    then open_stream w (after_sequence r.last_event_id) m
    else reply_with m (http_error "streaming unsupported" 500)

-- What the `select` of the loop meets: the request's end, the ticker, or the channel, where `none` is
-- that it was closed.
pub data StreamInput : Type 0 where
  request_done heartbeat : StreamInput
  update : Option StreamMessage → StreamInput

-- The two lines of an event, and the blank one.
abbrev pub event_frame : String → String → String
event_frame event data_text =
    String.◌++◌ "event: "
      (String.◌++◌ event (String.◌++◌ "\ndata: " (String.◌++◌ data_text "\n\n")))

abbrev pub message_frame : World → StreamMessage → String
message_frame w (task_activity sequence event) = String.◌++◌ "id: " (
    String.◌++◌ (format_uint sequence)
      (String.◌++◌ "\n" (event_frame "task_activity" (w.print_event event))))
message_frame w (snapshot_message s) =
    event_frame "snapshot" (w.print_snapshot (record s { usage = compact_usage s.usage }))

-- One round of the loop: what it writes, or `none` where the handler returns.
pub stream_round : World → StreamInput → Option String
unfolding format_uint
stream_round w request_done = none
stream_round w heartbeat = some ": keep-alive\n\n"
stream_round w (update none) = none
stream_round w (update (some message)) = some (message_frame w message)

-- What the rounds write, up to the one in which the handler returns.
unfoldable stream_rounds : World → List StreamInput → List String
unfolding stream_round
stream_rounds w [] = []
stream_rounds w (input ∷ inputs) =
    let rest = stream_rounds w inputs in
    elim (stream_round w input) [ none ↦ [] | some written ↦ written ∷ rest ]

-- The deferred `unsubscribe`.
abbrev pub close_stream : World → Monitor → Monitor
close_stream w m = unsubscribe w.channel m
