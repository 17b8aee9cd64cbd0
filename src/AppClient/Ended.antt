-- ===== src/AppClient/Ended.antt =====
-- agent/internal/appserver/client.go: what becomes of the requests when the reading ends, and how a
-- reply that nobody takes keeps it from ending.
use codex_ha_monitor.Prelude.{
  String, lookup, lookup-delete, Option, none, some, ◌≡◌, ◌⊎◌, ◌∙◌, refl, ap, arith, inl, inr,
  string_refl,
}
use codex_ha_monitor.AppClient.Requests.{
  Reply, failed, Client, returned, fail_pending, or_failed, end_reading, take_reply, took, Step,
  take,
}
use codex_ha_monitor.AppClient.Replies.{lookup-fail_pending, fail_found}

-- The reply that a request takes once reading has ended.
abbrev last_reply : String → Option Reply → Reply
last_reply e none = failed e
last_reply e (some reply) = reply

last_box : (e : String) (box : Option Reply) → or_failed e box ≡ some (last_reply e box)
last_box e none = refl
last_box e (some reply) = refl

last_source :
    (e : String) (box : Option Reply)
    → (last_reply e box ≡ failed e) ⊎ (box ≡ some (last_reply e box))
last_source e none = inl refl
last_source e (some reply) = inr refl

taken-gone : (key : String) (c : Client) → lookup key (take_reply key c).pending ≡ none
unfolding take_reply
taken-gone key c = ground (arith, lookup-delete key key c.pending, string_refl key)

-- When the reading ends, no request waits for ever: each that is pending then has a reply to take, the
-- one that had come for it or the error, and returns with it in one step; the loop has returned, so
-- that no response can take that reply's place.
pub end_reading-returns :
    (c : Client) (e key : String) (box : Option Reply)
    → lookup key c.pending ≡ some box
    → ((end_reading e c).reader ≡ returned)
      × (reply : Reply) × ((reply ≡ failed e) ⊎ (box ≡ some reply))
      × Step (end_reading e c) (took key reply) (take_reply key (end_reading e c))
      × (lookup key (take_reply key (end_reading e c)).pending ≡ none)
unfolding end_reading
end_reading-returns c e key box h =
    let held : lookup key (fail_pending e c.pending) ≡ some (some (last_reply e box)) =
      lookup-fail_pending e key c.pending ∙ ap (fail_found e) h ∙ ap some (last_box e box) in
    (refl, last_reply e box, last_source e box, take key (last_reply e box) held, gone)
  where
    gone : lookup key (take_reply key (end_reading e c)).pending ≡ none
    gone = taken-gone key (end_reading e c)
