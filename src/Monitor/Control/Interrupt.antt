-- ===== src/Monitor/Control/Interrupt.antt =====
-- `Interrupt` of agent/internal/monitor/control.go, and the loss of a client (`clearClient` and
-- `forgetClient` of monitor.go): which pending requests are left.
use codex_ha_monitor.Prelude.{
  ℕ, String, false, ◌||◌, not, Option, some, none, Bool-cases, ok, err, ◌≡◌, ◌≢◌, ◌⊎◌, ◌∙◌, arith,
  eq_iff, inl, inr, refl, List, [], ◌∷◌, keep_if, map, Without, keep_if-Without, ◌=?=◌, ◌==◌,
}
use codex_ha_monitor.Model.Types.{Time, Thread, idle}
use codex_ha_monitor.Monitor.State.{Monitor, Env, PendingControl}
use codex_ha_monitor.Monitor.Rebuild.{rebuild}
use codex_ha_monitor.Monitor.Rebuild.Keeps.{rebuild-SameSources}
use codex_ha_monitor.Monitor.Account.{forget_client, drop_client, clear_client}
use codex_ha_monitor.Monitor.Control.{
  Outcome, Reply, request, refuse, done, interrupt, send_interrupt, interrupt_thread,
  settle_interrupt, is_of_turn, interrupt_payload, request_conflict, no_app_server, client_error,
}

-- A thread after the interrupt of a turn.
abbrev pub IsInterrupted : String → String → Thread → Thread → Type 0
IsInterrupted thread turn before after =
    (before.id ≡ thread
      → (after.turn_id ≡ turn) × (after.state ≡ idle) × (after.last_turn_status ≡ "interrupted"))
    × (before.id ≢ thread → after ≡ before)
    × (after.id ≡ before.id)

-- The thread and the turn are both given.
abbrev pub IsNamed : String → String → Type 0
IsNamed thread turn = (thread ≢ "") × (turn ≢ "")

IsNamed-of_test :
    (thread turn : String) → ((thread =?= "") || (turn =?= "")) ≡ false → IsNamed thread turn
IsNamed-of_test thread turn b = (
  λ e. ground (arith, eq_iff thread "", eq_iff turn ""),
  λ e. ground (arith, eq_iff thread "", eq_iff turn ""),
)

-- Two lists are related place by place.
abbrev pub Pointwise : (Thread → Thread → Type 0) → List Thread → List Thread → Type 0
Pointwise R [] [] = Unit
Pointwise R (x ∷ xs) (y ∷ ys) = R x y × Pointwise R xs ys
Pointwise R _ _ = ⊥

interrupt_thread-IsInterrupted :
    (thread turn : String) (now : Time) (ts : List Thread)
    → Pointwise (IsInterrupted thread turn) ts (map (interrupt_thread thread turn now) ts)
interrupt_thread-IsInterrupted thread turn now [] = tt
interrupt_thread-IsInterrupted thread turn now (t ∷ ts) =
    (ground (arith, eq_iff t.id thread), interrupt_thread-IsInterrupted thread turn now ts)

-- The requests that a turn asked.
abbrev pub OfTurn : String → String → String × PendingControl → Type 0
OfTurn thread turn e = (e.1.request.thread_id ≡ thread) × (e.1.request.turn_id ≡ turn)

settled_requests :
    (thread turn : String) (requests : List (String × PendingControl))
    → Without
        (OfTurn thread turn)
        requests
        (keep_if (λ e. not (is_of_turn thread turn e.1.request)) requests)
settled_requests thread turn =
    keep_if-Without (OfTurn thread turn) (λ e. not (is_of_turn thread turn e.1.request))
      (λ e b. ground (arith, eq_iff e.1.request.thread_id thread, eq_iff e.1.request.turn_id turn))
      (λ e b h.
        ground (arith, eq_iff e.1.request.thread_id thread, eq_iff e.1.request.turn_id turn))

-- What an interrupt makes of the state it finds when the App Server has taken it.
pub record Interrupted (thread turn : String) (before after : Monitor) : Type 0 where
  pub stopped : Pointwise (IsInterrupted thread turn) before.app_threads after.app_threads
  pub settled : Without (OfTurn thread turn) before.pending_requests after.pending_requests
  pub same_fs_threads : after.fs_threads ≡ before.fs_threads
  pub same_client : after.client ≡ before.client

settle_interrupt-Interrupted :
    (env : Env) (thread turn : String) (now : Time) (m : Monitor)
    → Interrupted thread turn m (rebuild env now (settle_interrupt thread turn now m))
unfolding settle_interrupt
settle_interrupt-Interrupted env thread turn now m =
    let same = rebuild-SameSources env now (settle_interrupt thread turn now m) in
    record {
      stopped =
          rw (same.same_app_threads) (interrupt_thread-IsInterrupted thread turn now m.app_threads);
      settled = rw (same.same_pending) (settled_requests thread turn m.pending_requests);
      same_fs_threads = same.same_fs_threads;
      same_client = same.same_client;
    }

module _ (meanwhile : Monitor → Monitor) (m : Monitor) (thread turn : String) where
  -- How `Interrupt` ends, by the client that it reads and what that client replies. Whatever follows
  -- the first refusal is of a turn that is named.
  pub data Interruption : Option ℕ → Reply → Outcome → Type 0 where
    unnamed :
        (client : Option ℕ) (reply : Reply)
        → (thread ≡ "") ⊎ (turn ≡ "")
        → Interruption client reply (refuse m request_conflict)
    disconnected :
        (reply : Reply) → IsNamed thread turn → Interruption none reply (refuse m no_app_server)
    failed :
        (c : ℕ) (e : String)
        → IsNamed thread turn
        → Interruption (some c) (some e) (record {
          monitor = meanwhile m;
          sent = request c "turn/interrupt" (interrupt_payload thread turn) ∷ [];
          result = err (client_error e);
        })
    interrupted :
        (c : ℕ) (after : Monitor)
        → IsNamed thread turn
        → Interrupted thread turn (meanwhile m) after
        → Interruption (some c) none (record {
          monitor = after;
          sent = request c "turn/interrupt" (interrupt_payload thread turn) ∷ [];
          result = ok (done "interrupt" "" thread turn);
        })

  send_interrupt-Interruption :
      (env : Env) (now : Time) (client : Option ℕ) (reply : Reply)
      → IsNamed thread turn
      → Interruption client reply (send_interrupt env now reply meanwhile thread turn client m)
  unfolding send_interrupt
  send_interrupt-Interruption env now none reply named = disconnected reply named
  send_interrupt-Interruption env now (some c) none named =
      interrupted c (rebuild env now (settle_interrupt thread turn now (meanwhile m))) named
        (settle_interrupt-Interrupted env thread turn now (meanwhile m))
  send_interrupt-Interruption env now (some c) (some e) named = failed c e named

  -- `Interrupt` refuses, with nothing sent and the state as it was, a turn that is not named and a
  -- monitor without a client. Else exactly one `turn/interrupt` is sent to that client; unless it
  -- fails, the named thread is then idle with its turn interrupted, no other thread is touched, and
  -- of the requests exactly those of the turn are gone.
  pub interrupt-Interruption :
      (env : Env) (now : Time) (reply : Reply)
      → Interruption m.client reply (interrupt env now reply meanwhile thread turn m)
  unfolding interrupt
  interrupt-Interruption env now reply = elim (Bool-cases ((thread =?= "") || (turn =?= ""))) [
    | inl b ↦
        rw (b, interrupt)
          (unnamed m.client reply (ground (arith, eq_iff thread "", eq_iff turn "")))
    | inr b ↦
        rw (b, interrupt)
          (send_interrupt-Interruption env now m.client reply (IsNamed-of_test thread turn b))
  ]

-- The requests of a client.
abbrev pub OfClient : ℕ → String × PendingControl → Type 0
OfClient client e = e.1.client ≡ client

-- A client that has ended leaves none of its requests pending, takes no other's, and is no longer
-- the one that actions use; another client stays.
pub clear_client_lem :
    (env : Env) (now : Time) (client : ℕ) (m : Monitor)
    → Without (OfClient client) m.pending_requests (clear_client env now client m).pending_requests
      × ((clear_client env now client m).client ≢ some client)
      × (m.client ≢ some client → (clear_client env now client m).client ≡ m.client)
unfolding clear_client drop_client
clear_client_lem env now client m =
    let same = rebuild-SameSources env now (drop_client client m) in
    (
      rw (same.same_pending) (
          keep_if-Without (OfClient client) (λ e. not (e.1.client == client)) (λ e b. ground arith)
            (λ e b h. ground arith) m.pending_requests),
      rw (same.same_client) (forgotten m.client),
      λ n. same.same_client ∙ others_stay m.client n,
    )
  where
    forgotten : (c : Option ℕ) → forget_client client c ≢ some client
    forgotten none h = cc
    forgotten (some c) h = ground arith

    others_stay : (c : Option ℕ) → c ≢ some client → forget_client client c ≡ c
    others_stay none n = refl
    others_stay (some c) n = ground arith
