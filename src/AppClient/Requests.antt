-- ===== src/AppClient/Requests.antt =====
-- The requests of agent/internal/appserver/client.go that wait for a reply, and the loop that reads
-- what the App Server sends, as steps of one state.
use Prim.Native.String
use codex_ha_monitor.Prelude.{
  String, ◌&&◌, not, List, [], ◌∷◌, ◌=?=◌, if◌then◌else◌, lookup, insert, delete, Option, none,
  some, ℤ, pos, inc_int64, ◌≡◌, Result, ok, err,
}
use codex_ha_monitor.Text.{format_int}

pub record RpcError : Type 0 where
  pub code : ℤ
  pub message : String

-- `incomingMessage`, with its raw parts as texts, "" where they are missing.
pub record IncomingMessage : Type 0 where
  pub id : String
  pub method : String
  pub params : String
  pub result : String
  pub failure : Option RpcError

-- `response`
pub data Reply : Type 0 where
  result_of : String → Reply
  failed : String → Reply

abbrev pub error_reply : Option RpcError → String → Reply
error_reply none result = result_of result
error_reply (some e) result =
    failed (
      String.◌++◌ "app-server error "
        (String.◌++◌ (format_int e.code) (String.◌++◌ ": " e.message)))

-- The reply that a message is.
pub reply_of : IncomingMessage → Reply
unfolding format_int
reply_of m = error_reply m.failure m.result

-- Where the read loop is: at the scanner, in a send on a full channel, or returned.
pub data Reader : Type 0 where
  scanning : Reader
  sending : String → Reader
  returned : Reader

-- A waiting request is its channel, of capacity one: the reply that is in it, if one is. `handed` is
-- what `onMessage` was called with, last first.
pub record Client : Type 0 where
  pub pending : List (String × Option Reply)
  pub next_id : ℤ
  pub reader : Reader
  pub handed : List IncomingMessage

abbrev pub new_client : Client
new_client = record { pending = []; next_id = pos 0; reader = scanning; handed = [] }

abbrev pub next_key : Client → String
next_key c = format_int (inc_int64 c.next_id)

-- The start of `Request`: a new id, and an empty channel under it.
unfoldable pub register : Client → Client
unfolding format_int inc_int64
register c = record c {
  next_id = inc_int64 c.next_id;
  pending = insert (next_key c) none c.pending;
}

-- The send of a reply, by what the map holds under its id.
unfoldable pub send_reply : String → Reply → Option (Option Reply) → Client → Client
send_reply key reply none c = c
send_reply key reply (some none) c = record c { pending = insert key (some reply) c.pending }
send_reply key reply (some (some _)) c = record c { reader = sending key }

-- One round of `readLoop`, on a line that decodes or does not.
unfoldable pub read_line : Option IncomingMessage → Client → Client
unfolding send_reply reply_of
read_line none c = c
read_line (some m) c =
    if not (m.id =?= "") && m.method =?= ""
    then send_reply m.id (reply_of m) (lookup m.id c.pending) c
    else if not (m.method =?= "")
    then record c { handed = m ∷ c.handed }
    else c

abbrev pub or_failed : String → Option Reply → Option Reply
or_failed e none = some (failed e)
or_failed e (some reply) = some reply

-- `failPending`: a full channel keeps its reply.
unfoldable pub fail_pending : String → List (String × Option Reply) → List (String × Option Reply)
fail_pending e [] = []
fail_pending e ((key, box) ∷ rest) = (key, or_failed e box) ∷ fail_pending e rest

-- The end of `readLoop`, with the scanner's error, which is EOF if it has none.
unfoldable pub end_reading : String → Client → Client
unfolding fail_pending
end_reading e c = record c { pending = fail_pending e c.pending; reader = returned }

-- A request takes the reply from its channel: a send on that channel goes through.
pub resume : String → Reader → Reader
resume key scanning = scanning
resume key returned = returned
resume key (sending other) = if key =?= other then scanning else sending other

-- `Request` returns with its reply, or because its context is done or its write failed; either way
-- its deferred function deletes it.
unfoldable pub take_reply : String → Client → Client
unfolding resume
take_reply key c = record c { pending = delete key c.pending; reader = resume key c.reader }

unfoldable pub give_up : String → Client → Client
give_up key c = record c { pending = delete key c.pending }

pub data Event : Type 0 where
  asked : Event
  line : Option IncomingMessage → Event
  took : String → Reply → Event
  gave_up : String → Event
  closed : String → Event

-- What the goroutines may do next.
pub data Step (c : Client) : Event → Client → Type 0 where
  ask : Step c asked (register c)
  read : (m : Option IncomingMessage) → c.reader ≡ scanning → Step c (line m) (read_line m c)
  take :
      (key : String) (reply : Reply)
      → lookup key c.pending ≡ some (some reply)
      → Step c (took key reply) (take_reply key c)
  abandon :
      (key : String) (box : Option Reply)
      → lookup key c.pending ≡ some box
      → Step c (gave_up key) (give_up key c)
  close : (e : String) → c.reader ≡ scanning → Step c (closed e) (end_reading e c)

-- The clients that a sequence of events leads to, last event first.
pub data Run : List Event → Client → Type 0 where
  start : Run [] new_client
  next :
      {c d : Client} {event : Event} {events : List Event}
      → Run events c
      → Step c event d
      → Run (event ∷ events) d

-- What `Request` makes of its reply: the error, nothing for an empty result, or what `Unmarshal` says.
abbrev pub request_result {ℓ} :
    {A : Type ℓ} → (String → Result String A) → Reply → Result String (Option A)
request_result decode (failed e) = err e
request_result decode (result_of result) =
    if result =?= "" then ok none else elim (decode result) [ err e ↦ err e | ok a ↦ ok (some a) ]
