-- ===== src/AppClient/Replies.antt =====
-- agent/internal/appserver/client.go: which replies a request may take.
use codex_ha_monitor.Prelude.{
  String, List, [], ◌∷◌, ◌=?=◌, lookup, insert, delete, lookup-insert, lookup-delete, Option, none,
  some, ◌≡◌, ◌∙◌, refl, sym, ap, subst, arith, inl, inr, Bool-cases, Option-cases, String-cases,
}
use codex_ha_monitor.AppClient.Requests.{
  IncomingMessage, Reply, failed, reply_of, Client, register, next_key, send_reply, read_line,
  fail_pending, or_failed, end_reading, take_reply, give_up, Event, line, closed, Step, ask, read,
  take, abandon, close, Run, start, next,
}

module _ {A : Type 0} where
  fallback : A → Option A → A
  fallback d none = d
  fallback d (some r) = r

  some-injective : {a b : A} → some a ≡ some b → a ≡ b
  unfolding fallback
  some-injective {a = a} e = ap (fallback a) e

-- An event is among those so far.
pub data Heard (event : Event) : List Event → Type 0 where
  now : {events : List Event} → Heard event (event ∷ events)
  earlier :
      {other : Event} {events : List Event} → Heard event events → Heard event (other ∷ events)

-- Where a reply under an id comes from: a response that was read with that id, or the end of reading.
pub data Explained (key : String) (events : List Event) : Reply → Type 0 where
  answered :
      (m : IncomingMessage)
      → Heard (line (some m)) events
      → m.id ≡ key
      → m.method ≡ ""
      → Explained key events (reply_of m)
  lost : (e : String) → Heard (closed e) events → Explained key events (failed e)

Explained-later :
    {key : String} {events : List Event} {reply : Reply} (event : Event)
    → Explained key events reply
    → Explained key (event ∷ events) reply
Explained-later event (answered m h i e) = answered m (earlier h) i e
Explained-later event (lost e h) = lost e (earlier h)

-- Every reply that waits under an id is explained.
abbrev AllExplained : List Event → List (String × Option Reply) → Type 0
AllExplained events pending =
    (key : String) (reply : Reply)
    → lookup key pending ≡ some (some reply)
    → Explained key events reply

AllExplained-later :
    (event : Event) (events : List Event) (pending : List (String × Option Reply))
    → AllExplained events pending
    → AllExplained (event ∷ events) pending
AllExplained-later event events pending h key reply here = Explained-later event (h key reply here)

AllExplained-delete :
    (events : List Event) (k : String) (pending : List (String × Option Reply))
    → AllExplained events pending
    → AllExplained events (delete k pending)
AllExplained-delete events k pending h key reply here =
    h key reply (ground (arith, lookup-delete k key pending))

AllExplained-insert :
    (events : List Event) (k : String) (box : Option Reply) (pending : List (String × Option Reply))
    → ((reply : Reply) → box ≡ some reply → Explained k events reply)
    → AllExplained events pending
    → AllExplained events (insert k box pending)
AllExplained-insert events k box pending own h key reply here = elim (String-cases k key) [
  | inl (b, e) ↦
      subst (λ j. Explained j events reply) e
        (own reply (ground (arith, lookup-insert k key box pending)))
  | inr (b, n) ↦ h key reply (ground (arith, lookup-insert k key box pending))
]

abbrev pub fail_found : String → Option (Option Reply) → Option (Option Reply)
fail_found e none = none
fail_found e (some box) = some (or_failed e box)

pub lookup-fail_pending :
    (e key : String) (pending : List (String × Option Reply))
    → lookup key (fail_pending e pending) ≡ fail_found e (lookup key pending)
unfolding fail_pending lookup
lookup-fail_pending e key [] = refl
lookup-fail_pending e key ((own, box) ∷ rest) = elim (Bool-cases (own =?= key)) [
  | inl b ↦ rw b refl
  | inr b ↦ rw b (lookup-fail_pending e key rest)
]

failed-Explained :
    (e key : String) (events : List Event) (reply : Reply) (box : Option Reply)
    → ((r : Reply) → box ≡ some r → Explained key (closed e ∷ events) r)
    → or_failed e box ≡ some reply
    → Explained key (closed e ∷ events) reply
failed-Explained e key events reply none h s =
    let same : failed e ≡ reply = ground arith in
    subst (Explained key (closed e ∷ events)) same (lost e now)
failed-Explained e key events reply (some r) h s = h reply s

AllExplained-fail_pending :
    (e : String) (events : List Event) (pending : List (String × Option Reply))
    → AllExplained (closed e ∷ events) pending
    → AllExplained (closed e ∷ events) (fail_pending e pending)
AllExplained-fail_pending e events pending h key reply here =
    let found = sym (lookup-fail_pending e key pending) ∙ here in
    elim (Option-cases (lookup key pending)) [
      | inl gone ↦
          let never : fail_found e none ≡ some (some reply) =
            sym (ap (fail_found e) gone) ∙ found in
          absurd (ground arith)
      | inr (box, held) ↦
          failed-Explained e key events reply box (λ r same. h key r (held ∙ ap some same))
            (some-injective (sym (ap (fail_found e) held) ∙ found))
    ]

AllExplained-send_reply :
    (m : IncomingMessage) (events : List Event) (c : Client) (box : Option (Option Reply))
    → m.method ≡ ""
    → AllExplained (line (some m) ∷ events) c.pending
    → AllExplained (line (some m) ∷ events) (send_reply m.id (reply_of m) box c).pending
unfolding send_reply
AllExplained-send_reply m events c none e h = h
AllExplained-send_reply m events c (some (some r)) e h = h
AllExplained-send_reply m events c (some none) e h =
    AllExplained-insert (line (some m) ∷ events) m.id (some (reply_of m)) c.pending
      (λ reply same.
        subst (Explained m.id (line (some m) ∷ events)) (some-injective same)
          (answered m now refl e))
      h

AllExplained-read_line :
    (m : IncomingMessage) (events : List Event) (c : Client)
    → AllExplained (line (some m) ∷ events) c.pending
    → AllExplained (line (some m) ∷ events) (read_line (some m) c).pending
unfolding read_line
AllExplained-read_line m events c h = elim (String-cases m.method "") [
  | inl (b, e) ↦ elim (Bool-cases (m.id =?= "")) [
    | inl d ↦ rw (b, d, read_line) h
    | inr d ↦ rw (b, d, read_line) (AllExplained-send_reply m events c (lookup m.id c.pending) e h)
  ]
  | inr (b, n) ↦ elim (Bool-cases (m.id =?= "")) [
    | inl d ↦ rw (b, d, read_line) h
    | inr d ↦ rw (b, d, read_line) h
  ]
]

AllExplained-Step :
    (c d : Client) (event : Event) (events : List Event)
    → AllExplained events c.pending
    → Step c event d
    → AllExplained (event ∷ events) d.pending
unfolding register read_line end_reading take_reply give_up
AllExplained-Step c d event events h ask =
    AllExplained-insert (event ∷ events) (next_key c) none c.pending
      (λ reply same. absurd (ground arith)) (AllExplained-later event events c.pending h)
AllExplained-Step c d event events h (read none e) = AllExplained-later event events c.pending h
AllExplained-Step c d event events h (read (some m) e) =
    AllExplained-read_line m events c (AllExplained-later event events c.pending h)
AllExplained-Step c d event events h (take key reply e) =
    AllExplained-delete (event ∷ events) key c.pending (AllExplained-later event events c.pending h)
AllExplained-Step c d event events h (abandon key box e) =
    AllExplained-delete (event ∷ events) key c.pending (AllExplained-later event events c.pending h)
AllExplained-Step c d event events h (close e r) =
    AllExplained-fail_pending e events c.pending (AllExplained-later event events c.pending h)

AllExplained-Run : (events : List Event) (c : Client) → Run events c → AllExplained events c.pending
unfolding lookup
AllExplained-Run events c start key reply here = absurd (ground arith)
AllExplained-Run events c (next {c = b} {event = event} {events = before} run step) key reply here =
    AllExplained-Step b c event before (AllExplained-Run before b run) step key reply here

-- Whatever the App Server sends and in whatever order the goroutines run, a request takes no reply but
-- its own: the result or the error of a response that was read with its id and without a method, or
-- the error with which reading ended.
pub Run-Explained :
    (events : List Event) (c : Client) (key : String) (reply : Reply)
    → Run events c
    → lookup key c.pending ≡ some (some reply)
    → Explained key events reply
Run-Explained events c key reply run here = AllExplained-Run events c run key reply here
