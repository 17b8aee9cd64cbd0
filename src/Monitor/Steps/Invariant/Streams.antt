-- ===== src/Monitor/Steps/Invariant/Streams.antt =====
-- The bounds of what agent/internal/monitor keeps for its subscribers.
use codex_ha_monitor.Prelude.{
  ℕ, suc, ◌≤◌, String, Bool, true, false, ◌&&◌, some, Option-cases, Bool-cases, ◌≡◌, arith, inl,
  inr, refl, subst, List, [], ◌∷◌, ◌++◌, length, length-append, length-keep_last-le, All, map-All,
  keep_if-All, ltb, ◌==◌, if◌then◌else◌,
}
use codex_ha_monitor.Model.Types.{Time, Thread, TaskEvent, Snapshot}
use codex_ha_monitor.Monitor.State.{Monitor, Env, Channel, StreamMessage, snapshot_message}
use codex_ha_monitor.Monitor.Hooks.{apply_hooks}
use codex_ha_monitor.Monitor.Stream.{
  event_history_limit, channel_capacity, offer, remember, emit_task_event, broadcast_snapshot,
  signature_of, replay, subscribe_locked, send_to, subscribe_send, unsubscribe, take_oldest,
  receive_from, receive,
}
use codex_ha_monitor.Monitor.Stream.History.{remember-keep_last}
use codex_ha_monitor.Monitor.Events.{
  thread_event, emit_each, emit_transition_events, prepare_live_event,
}
use codex_ha_monitor.Monitor.Rebuild.{refresh_snapshot, rebuild_threads, rebuild}

abbrev pub IsRoomy : Channel → Type 0
IsRoomy ch = length ch.buffer ≤ channel_capacity

-- The history and the channels keep within their limits.
pub record StreamsAreValid (m : Monitor) : Type 0 where
  pub short : length m.event_history ≤ event_history_limit
  pub roomy : All IsRoomy m.subs

offer-IsRoomy : (message : StreamMessage) (ch : Channel) → IsRoomy ch → IsRoomy (offer message ch)
unfolding offer
offer-IsRoomy message ch h = ground (arith, length-append ch.buffer (message ∷ []))

remember-short : (h : List TaskEvent) (e : TaskEvent) → length (remember h e) ≤ event_history_limit
remember-short h e =
    rw (remember-keep_last h e) (length-keep_last-le event_history_limit (h ++ e ∷ []))

pub emit_task_event-StreamsAreValid :
    (clock : Time) (e : TaskEvent) (m : Monitor)
    → StreamsAreValid m
    → StreamsAreValid (emit_task_event clock e m)
unfolding emit_task_event
emit_task_event-StreamsAreValid clock e m v = record {
  short = remember-short m.event_history _;
  roomy = map-All IsRoomy _ (λ ch. offer-IsRoomy _ ch) m.subs v.roomy;
}

emit_each-StreamsAreValid :
    (last : List (String × Thread)) (clock now : Time) (ts : List Thread) (m : Monitor)
    → StreamsAreValid m
    → StreamsAreValid (emit_each last clock now ts m)
unfolding emit_each
emit_each-StreamsAreValid last clock now [] m v = v
emit_each-StreamsAreValid last clock now (t ∷ ts) m v =
    elim (Option-cases (thread_event last now t)) [
      | inl quiet ↦ rw (quiet) (emit_each-StreamsAreValid last clock now ts m v)
      | inr (e, loud) ↦ rw (loud) (
          emit_each-StreamsAreValid last clock now ts (emit_task_event clock e m)
            (emit_task_event-StreamsAreValid clock e m v))
    ]

-- `x` or `y`, whichever a test takes.
either_StreamsAreValid :
    (b : Bool) (x y : Monitor)
    → StreamsAreValid x
    → StreamsAreValid y
    → StreamsAreValid (if b then x else y)
either_StreamsAreValid true x y h k = h
either_StreamsAreValid false x y h k = k

emit_transition_events-StreamsAreValid :
    (ts : List Thread) (clock now : Time) (m : Monitor)
    → StreamsAreValid m
    → StreamsAreValid (emit_transition_events ts clock now m)
unfolding emit_transition_events
emit_transition_events-StreamsAreValid ts clock now m v =
    let s = emit_each-StreamsAreValid m.last_threads clock now ts m v in
    either_StreamsAreValid m.events_ready _ _ (record { short = s.short; roomy = s.roomy })
      (record { short = v.short; roomy = v.roomy })

broadcast_snapshot-StreamsAreValid :
    (env : Env) (m : Monitor) → StreamsAreValid m → StreamsAreValid (broadcast_snapshot env m)
unfolding broadcast_snapshot
broadcast_snapshot-StreamsAreValid env m v =
    either_StreamsAreValid (m.stream_ready && (signature_of env m.snapshot == m.stream_signature)) m
      _ v
      (record {
        short = v.short;
        roomy =
            map-All IsRoomy _ (λ ch. offer-IsRoomy (snapshot_message m.snapshot) ch) m.subs v.roomy;
      })

refresh_snapshot-StreamsAreValid :
    (env : Env) (now : Time) (m : Monitor)
    → StreamsAreValid m
    → StreamsAreValid
        (refresh_snapshot env now (rebuild_threads env now m).0 (rebuild_threads env now m).1)
unfolding refresh_snapshot rebuild_threads apply_hooks
refresh_snapshot-StreamsAreValid env now m v = record { short = v.short; roomy = v.roomy }

pub rebuild-StreamsAreValid :
    (env : Env) (now : Time) (m : Monitor) → StreamsAreValid m → StreamsAreValid (rebuild env now m)
unfolding rebuild
rebuild-StreamsAreValid env now m v =
    let merged = (rebuild_threads env now m).0 in
    let fresh = refresh_snapshot env now merged (rebuild_threads env now m).1 in
    broadcast_snapshot-StreamsAreValid env (emit_transition_events merged env.clock now fresh) (
      emit_transition_events-StreamsAreValid merged env.clock now fresh
        (refresh_snapshot-StreamsAreValid env now m v))

pub prepare_live_event-StreamsAreValid :
    (m : Monitor) → StreamsAreValid m → StreamsAreValid (prepare_live_event m)
unfolding prepare_live_event
prepare_live_event-StreamsAreValid m v =
    either_StreamsAreValid m.events_ready m _ v (record { short = v.short; roomy = v.roomy })

length-replay-le : (after : ℕ) (es : List TaskEvent) → length (replay after es) ≤ length es
unfolding replay
length-replay-le after [] = omega arith
length-replay-le after (e ∷ es) = ground (arith, length-replay-le after es)

pub subscribe_locked-StreamsAreValid :
    (number after : ℕ) (m : Monitor)
    → StreamsAreValid m
    → StreamsAreValid (subscribe_locked number after m).0
unfolding subscribe_locked
subscribe_locked-StreamsAreValid number after m v = record {
  short = v.short;
  roomy = (omega (arith, length-replay-le after m.event_history, v.short), v.roomy);
}

send_to-IsRoomy :
    (number : ℕ) (message : StreamMessage) (chs sent : List Channel)
    → send_to number message chs ≡ some sent
    → All IsRoomy chs
    → All IsRoomy sent
unfolding send_to
send_to-IsRoomy number message [] sent h v = cc
send_to-IsRoomy number message (ch ∷ rest) sent h (p, v) = elim (Bool-cases (ch.number == number)) [
  | inl b ↦
      let more : Channel = record ch { buffer = ch.buffer ++ message ∷ [] } in
      let fits : ltb (length ch.buffer) channel_capacity ≡ true = ground arith in
      let same : more ∷ rest ≡ sent = ground arith in
      subst (All IsRoomy) same (omega (arith, length-append ch.buffer (message ∷ []), less fits), v)
  | inr b ↦ elim (Option-cases (send_to number message rest)) [
    | inl full ↦ ground arith
    | inr (chs, e) ↦
        let same : ch ∷ chs ≡ sent = ground arith in
        subst (All IsRoomy) same (p, send_to-IsRoomy number message rest chs e v)
  ]
]
  where
    less : {a b : ℕ} → ltb a b ≡ true → suc a ≤ b
    less h = ground arith

pub subscribe_send-StreamsAreValid :
    (number : ℕ) (current : Snapshot) (m n : Monitor)
    → subscribe_send number current m ≡ some n
    → StreamsAreValid m
    → StreamsAreValid n
unfolding subscribe_send
subscribe_send-StreamsAreValid number current m n h v =
    elim (Option-cases (send_to number (snapshot_message current) m.subs)) [
      | inl full ↦ ground arith
      | inr (chs, e) ↦
          let same : record m { subs = chs } ≡ n = ground arith in
          subst StreamsAreValid same (record {
            short = v.short;
            roomy = send_to-IsRoomy number (snapshot_message current) m.subs chs e v.roomy;
          })
    ]

take_oldest-IsRoomy :
    (ch : Channel) (read : StreamMessage) (later : Channel)
    → take_oldest ch ≡ some (read, later)
    → IsRoomy ch
    → IsRoomy later
unfolding take_oldest
take_oldest-IsRoomy ch read later h p = by_buffer ch.buffer refl
  where
    by_buffer : (b : List StreamMessage) → ch.buffer ≡ b → IsRoomy later
    by_buffer [] e = ground arith
    by_buffer (x ∷ xs) e = ground arith

receive_from-IsRoomy :
    (number : ℕ) (read : StreamMessage) (chs left : List Channel)
    → receive_from number chs ≡ some (read, left)
    → All IsRoomy chs
    → All IsRoomy left
unfolding receive_from
receive_from-IsRoomy number read [] left h v = cc
receive_from-IsRoomy number read (ch ∷ rest) left h (p, v) =
    elim (Bool-cases (ch.number == number)) [
      | inl b ↦ elim (Option-cases (take_oldest ch)) [
        | inl empty ↦ ground arith
        | inr (taken, e) ↦
            let same : taken.1 ∷ rest ≡ left = ground arith in
            subst (All IsRoomy) same (take_oldest-IsRoomy ch taken.0 taken.1 e p, v)
      ]
      | inr b ↦ elim (Option-cases (receive_from number rest)) [
        | inl empty ↦ ground arith
        | inr (taken, e) ↦
            let one : read ≡ taken.0 = ground arith in
            let same : ch ∷ taken.1 ≡ left = ground arith in
            subst (All IsRoomy) same (p, receive_from-IsRoomy number taken.0 rest taken.1 e v)
      ]
    ]

pub receive-StreamsAreValid :
    (number : ℕ) (read : StreamMessage) (m n : Monitor)
    → receive number m ≡ some (read, n)
    → StreamsAreValid m
    → StreamsAreValid n
unfolding receive
receive-StreamsAreValid number read m n h v = elim (Option-cases (receive_from number m.subs)) [
  | inl empty ↦ ground arith
  | inr (taken, e) ↦
      let same : record m { subs = taken.1 } ≡ n = ground arith in
      subst StreamsAreValid same (record {
        short = v.short;
        roomy = receive_from-IsRoomy number taken.0 m.subs taken.1 e v.roomy;
      })
]

pub unsubscribe-StreamsAreValid :
    (number : ℕ) (m : Monitor) → StreamsAreValid m → StreamsAreValid (unsubscribe number m)
unfolding unsubscribe
unsubscribe-StreamsAreValid number m v = record {
  short = v.short;
  roomy = keep_if-All IsRoomy _ m.subs v.roomy;
}
