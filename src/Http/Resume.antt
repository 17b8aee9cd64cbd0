-- ===== src/Http/Resume.antt =====
-- `handleEvents` of agent/internal/httpapi/server.go: a client that comes back with the id of the last
-- event that it was sent.
use codex_ha_monitor.Prelude.{
  ℕ, ◌<◌, ◌≤◌, ◌^◌, String, true, List, [], ◌∷◌, ◌++◌, map, length, some, ◌≡◌, ◌∙◌, refl, sym, ap,
  String-cases, inl, inr,
}
use codex_ha_monitor.Text.{format_uint}
use codex_ha_monitor.Text.Parse.{parse_uint, parse_uint-format_uint}
use codex_ha_monitor.Monitor.State.{Monitor, StreamMessage, snapshot_message}
use codex_ha_monitor.Monitor.Stream.{subscribe_locked, subscribe_send}
use codex_ha_monitor.Monitor.Stream.History.{HistoryIsValid, activity, offer_all}
use codex_ha_monitor.Monitor.Stream.Replay.{missed, meanwhile_sent, subscribe_lem}
use codex_ha_monitor.Http.Messages.{HttpRequest, World, stream_opened, reply_with}
use codex_ha_monitor.Http.Stream.{after_sequence, stream_response, open_stream, handle_events}

blank-id : (n : ℕ) → parse_uint "" ≡ some n → ⊥
unfolding parse_uint
blank-id n h = cc

after_sequence-read :
    (value : String) (n : ℕ) → parse_uint value ≡ some n → after_sequence value ≡ n
unfolding after_sequence
after_sequence-read value n h = elim (String-cases value "") [
  | inl (b, e) ↦
      absurd (let never : parse_uint "" ≡ some n = ap parse_uint (sym e) ∙ h in blank-id n never)
  | inr (b, e) ↦ rw (b, h, after_sequence) refl
]

handle_events-read :
    (w : World) (r : HttpRequest) (m : Monitor) (n : ℕ)
    → parse_uint r.last_event_id ≡ some n
    → w.can_flush ≡ true
    → handle_events w r m ≡ open_stream w n m
unfolding handle_events
handle_events-read w r m n h flush =
    rw (flush, handle_events)
      (ap (λ k. open_stream w k m) (after_sequence-read r.last_event_id n h))

open_stream-some :
    (w : World) (after : ℕ) (m subscribed : Monitor)
    → subscribe_send w.channel m.snapshot (w.meanwhile (subscribe_locked w.channel after m).0)
      ≡ some subscribed
    → open_stream w after m ≡ reply_with subscribed (stream_response stream_opened)
unfolding open_stream
open_stream-some w after m subscribed h = rw (h, open_stream) refl

-- A client that names the last event that it was sent, as its `id:` line printed it, is sent the later
-- events that the history still holds, in order and none twice, then what is broadcast meanwhile, then the
-- snapshot; the stream opens, if at most 43 messages are broadcast meanwhile.
pub handle_events-resumed :
    (w : World) (r : HttpRequest) (m : Monitor) (sequence : ℕ) (between : List StreamMessage)
    → HistoryIsValid m
    → sequence < 2 ^ 64
    → r.last_event_id ≡ format_uint sequence
    → w.can_flush ≡ true
    → length between ≤ 43
    → w.meanwhile ≡ meanwhile_sent between
    → ((handle_events w r m).response.body ≡ stream_opened)
      × ((handle_events w r m).monitor ≡ record m {
        subs =
            record {
              number = w.channel;
              buffer =
                  (map activity (missed sequence m) ++ between) ++ snapshot_message m.snapshot ∷ [];
            }
            ∷ map (offer_all between) m.subs;
      })
unfolding subscribe_locked
handle_events-resumed w r m sequence between v small named flush few same =
    let read : parse_uint r.last_event_id ≡ some sequence =
      ap parse_uint named ∙ parse_uint-format_uint sequence small in
    let sent = subscribe_lem w.channel sequence m between v few in
    let opened =
      handle_events-read w r m sequence read flush
      ∙ open_stream-some w sequence m _ (
          ap
            (λ f. subscribe_send w.channel m.snapshot (f (subscribe_locked w.channel sequence m).0))
            same
          ∙ sent) in
    (ap (λ s. s.response.body) opened, ap (λ s. s.monitor) opened)
