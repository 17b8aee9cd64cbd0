-- ===== src/Monitor/Stream/Replay.antt =====
-- `Subscribe` of agent/internal/monitor/monitor.go: what a new subscriber is sent.
use codex_ha_monitor.Prelude.{
  ℕ, suc, ◌+◌, ◌-◌, ◌≤◌, ◌<◌, true, false, List, [], ◌∷◌, ◌++◌, map, length, length-append,
  length-drop, length-map, drop, drop-nil, ltb, some, ◌≡◌, ◌∙◌, ap, sym, arith, Bool-cases, inl,
  inr,
}
use mathlib.Core.List.{append_assoc, append-nil}
use codex_ha_monitor.Model.Types.{TaskEvent, Snapshot}
use codex_ha_monitor.Monitor.State.{Monitor, Channel, StreamMessage, snapshot_message}
use codex_ha_monitor.Monitor.Stream.{
  event_history_limit, channel_capacity, offer, replay, subscribe_locked, subscribe_send, send_to,
}
use codex_ha_monitor.Monitor.Stream.History.{HistoryIsValid, Consecutive, activity, offer_all}

-- In a history without a gap the replay is a suffix: all but the events up to `after`.
replay-drop :
    (after n : ℕ) (es : List TaskEvent)
    → Consecutive n es
    → replay after es ≡ map activity (drop (after - n) es)
unfolding replay
replay-drop after n [] c = ap (map activity) (sym (drop-nil (after - n)))
replay-drop after n (e ∷ es) (same, c) = elim (Bool-cases (ltb n after)) [
  | inl seen ↦
      let skip : ltb after e.sequence ≡ false = ground arith in
      let count : after - n ≡ suc (after - suc n) = ground arith in
      rw (skip, count) (replay-drop after (suc n) es c)
  | inr new ↦
      let keep : ltb after e.sequence ≡ true = ground arith in
      let all : after - n ≡ 0 = ground arith in
      let rest : after - suc n ≡ 0 = ground arith in
      rw (keep, all, replay-drop after (suc n) es c, rest)
]

offer-fits :
    (m : StreamMessage) (ch : Channel)
    → length ch.buffer < channel_capacity
    → offer m ch ≡ record ch { buffer = ch.buffer ++ m ∷ [] }
unfolding offer
offer-fits m ch h = ground arith

offer_all-fits :
    (ms : List StreamMessage) (ch : Channel)
    → length ch.buffer + length ms ≤ channel_capacity
    → offer_all ms ch ≡ record ch { buffer = ch.buffer ++ ms }
offer_all-fits [] ch h = λ i. record ch { buffer = sym (append-nil ch.buffer) i }
offer_all-fits (m ∷ ms) ch h =
    ap (offer_all ms) (offer-fits m ch (omega arith))
    ∙ offer_all-fits ms (record ch { buffer = ch.buffer ++ m ∷ [] })
        (omega (arith, length-append ch.buffer (m ∷ [])))
    ∙ (λ i. record ch { buffer = append_assoc ch.buffer (m ∷ []) ms i })

send_to_first :
    (number : ℕ) (message : StreamMessage) (buffer : List StreamMessage) (rest : List Channel)
    → length buffer < channel_capacity
    → send_to number message (record { number = number; buffer = buffer } ∷ rest)
      ≡ some (record { number = number; buffer = buffer ++ message ∷ [] } ∷ rest)
unfolding send_to
send_to_first number message buffer rest h = ground arith

subscribe_send-some :
    (number : ℕ) (current : Snapshot) (m : Monitor) (subs : List Channel)
    → send_to number (snapshot_message current) m.subs ≡ some subs
    → subscribe_send number current m ≡ some (record m { subs = subs })
unfolding subscribe_send
subscribe_send-some number current m subs h = rw (h, subscribe_send)

-- Other goroutines may send messages to the new channel before `Subscribe` sends the snapshot.
abbrev pub meanwhile_sent : List StreamMessage → Monitor → Monitor
meanwhile_sent ms m = record m { subs = map (offer_all ms) m.subs }

-- The events after `after` that the history still holds.
abbrev pub missed : ℕ → Monitor → List TaskEvent
missed after m = drop (after - (m.event_sequence - length m.event_history)) m.event_history

length-missed-le :
    (after : ℕ) (m : Monitor)
    → HistoryIsValid m
    → length (replay after m.event_history) ≤ event_history_limit
length-missed-le after m v =
    let start = m.event_sequence - length m.event_history in
    rw (replay-drop after start m.event_history v.consecutive, length-map)
      (omega (arith, length-drop (after - start) m.event_history, v.bounded))

-- A subscriber that has seen the events up to `after` gets the later events that the history still
-- holds, in order, then what is broadcast before `Subscribe` returns, then the snapshot that was
-- current when it subscribed. No send blocks unless more than 43 messages come in between: the
-- channel holds 300 and the history 256.
pub subscribe_lem :
    (number after : ℕ) (m : Monitor) (between : List StreamMessage)
    → HistoryIsValid m
    → length between ≤ 43
    → let (locked, current) = subscribe_locked number after m in
      subscribe_send number current (meanwhile_sent between locked)
      ≡ some (record m {
        subs =
            record {
              number = number;
              buffer =
                  (map activity (missed after m) ++ between) ++ snapshot_message m.snapshot ∷ [];
            }
            ∷ map (offer_all between) m.subs;
      })
unfolding subscribe_locked subscribe_send
subscribe_lem number after m between v few =
    let replayed = replay after m.event_history in
    let short = length-missed-le after m v in
    let rest = map (offer_all between) m.subs in
    let channel : Channel = record { number = number; buffer = replayed } in
    let full : Channel = record { number = number; buffer = replayed ++ between } in
    let filled : offer_all between channel ≡ full =
      offer_all-fits between channel (omega (arith, short)) in
    let sent =
      send_to_first number (snapshot_message m.snapshot) (replayed ++ between) rest
        (omega (arith, length-append replayed between)) in
    let exact =
      replay-drop after (m.event_sequence - length m.event_history) m.event_history v.consecutive in
    let buffer_path =
      ap (λ (r : List StreamMessage). (r ++ between) ++ snapshot_message m.snapshot ∷ []) exact in
    let locked : Monitor = record m { subs = channel ∷ m.subs } in
    subscribe_send-some number m.snapshot (meanwhile_sent between locked) _
      (ap (λ ch. send_to number (snapshot_message m.snapshot) (ch ∷ rest)) filled ∙ sent)
    ∙ (λ i. some (record m { subs = record { number = number; buffer = buffer_path i } ∷ rest }))
