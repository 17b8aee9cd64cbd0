-- ===== src/Monitor/Loop/Held.antt =====
-- `runAppServer` of agent/internal/monitor/monitor.go: when the monitor holds a client.
use codex_ha_monitor.Prelude.{
  ℕ, String, Bool, true, false, List, [], ◌∷◌, map, if◌then◌else◌, Option, none, some, Result, ok,
  err, ◌≡◌, ◌∙◌, refl, sym, ap, subst, arith, inl, inr, Option-cases,
}
use codex_ha_monitor.Model.Types.{Time, Thread, AppServerInfo}
use codex_ha_monitor.Json.{JsonMap}
use codex_ha_monitor.Monitor.State.{Monitor, Env}
use codex_ha_monitor.Monitor.Stream.{emit_task_event}
use codex_ha_monitor.Monitor.Rebuild.Keeps.{rebuild-SameSources}
use codex_ha_monitor.Monitor.Account.{
  set_connection, clear_client, drop_client, forget_client, record_account_result,
}
use codex_ha_monitor.Monitor.Connect.{attach_client, store_client, recovered_event, is_lost}
use codex_ha_monitor.Monitor.Refresh.{
  new_monitor, Replies, Refreshed, alive, returned, panicked, finished, account_reading,
  failures_of, store_refresh, refresh_with, refresh_app_server, item_thread, ThreadItem,
}
use codex_ha_monitor.Monitor.Loop.{
  Phase, starting, connecting, waiting, stopped, refreshing, polling, crashed, disconnecting,
  closing, after_clear, Loop, LoopStep, others, cancelled, begin, unsupported, failed, attached,
  refreshed, refresh_failed, refresh_panicked, tick, ended, shut, cleared, disconnected, waited,
  LoopRuns, created, stepped,
}

-- The client that a place has.
abbrev pub client_of : Phase → Option ℕ
client_of starting = none
client_of connecting = none
client_of waiting = none
client_of stopped = none
client_of (disconnecting e) = none
client_of (refreshing client) = some client
client_of (polling client) = some client
client_of (crashed client) = some client
client_of (closing client reason) = some client

after_clear-client : (reason : Option String) → client_of (after_clear reason) ≡ none
after_clear-client none = refl
after_clear-client (some e) = refl

set_connection-client :
    (env : Env) (now : Time) (state e : String) (m : Monitor)
    → (set_connection env now state e m).client ≡ m.client
unfolding set_connection
set_connection-client env now state e m = (rebuild-SameSources env now _).same_client

emitted_client :
    (clock now : Time) (client : ℕ) (info : AppServerInfo) (m : Monitor)
    → (emit_task_event clock (recovered_event now) (store_client client info m)).client
      ≡ some client
unfolding emit_task_event store_client
emitted_client clock now client info m = refl

stored_client :
    (client : ℕ) (info : AppServerInfo) (m : Monitor)
    → (store_client client info m).client ≡ some client
unfolding store_client
stored_client client info m = refl

attach_client-client :
    (env : Env) (now : Time) (client : ℕ) (info : AppServerInfo) (m : Monitor)
    → (attach_client env now client info m).client ≡ some client
unfolding attach_client
attach_client-client env now client info m =
    (rebuild-SameSources env now _).same_client ∙ either (is_lost m.snapshot.codex.connection_state)
  where
    either :
        (b : Bool)
        → (if b
            then emit_task_event env.clock (recovered_event now) (store_client client info m)
            else store_client client info m).client
          ≡ some client
    either true = emitted_client env.clock now client info m
    either false = stored_client client info m

clear_client-client :
    (env : Env) (now : Time) (client : ℕ) (m : Monitor)
    → m.client ≡ some client
    → (clear_client env now client m).client ≡ none
unfolding clear_client drop_client
clear_client-client env now client m h =
    (rebuild-SameSources env now (drop_client client m)).same_client
    ∙ ap (forget_client client) h
    ∙ ground arith

-- What a refresh leaves, unless it panics.
abbrev Leaves : Option ℕ → Refreshed → Type 0
Leaves client (alive m) = m.client ≡ client
Leaves client (returned e m) = m.client ≡ client
Leaves client panicked = Unit

finished-Leaves :
    (restart : Bool) (failures : List String) (m : Monitor) (client : Option ℕ)
    → m.client ≡ client
    → Leaves client (finished restart failures m)
finished-Leaves true failures m client h = h
finished-Leaves false failures m client h = h

either_client :
    (b : Bool) (x y : Monitor × Bool) (client : Option ℕ)
    → x.0.client ≡ client
    → y.0.client ≡ client
    → (if b then x else y).0.client ≡ client
either_client true x y client h k = h
either_client false x y client h k = k

record_account_result-client :
    (now : Time) (failures : List String) (m : Monitor)
    → (record_account_result now failures m).0.client ≡ m.client
unfolding record_account_result
record_account_result-client now [] m = refl
record_account_result-client now (f ∷ fs) m = either_client _ _ _ m.client refl refl

stored_refresh-client :
    (now : Time) (threads : List Thread) (usage limits : JsonMap) (healthy : Bool) (m : Monitor)
    → (store_refresh now threads usage limits healthy m).client ≡ m.client
unfolding store_refresh
stored_refresh-client now threads usage limits healthy m = refl

refresh_with-Leaves :
    (env : Env) (now : Time) (meanwhile : Monitor → Monitor) (threads : List Thread) (r : Replies)
    (m : Monitor)
    → ((k : Monitor) → (meanwhile k).client ≡ k.client)
    → Leaves m.client (refresh_with env now meanwhile threads r m)
unfolding refresh_with
refresh_with-Leaves env now meanwhile threads r m keeps =
    elim (Option-cases (account_reading r.usage)) [
      | inl n ↦ rw (n, refresh_with) tt
      | inr (usage, u) ↦ elim (Option-cases (account_reading r.rate_limits)) [
        | inl n ↦ rw (u, n, refresh_with) tt
        | inr (limits, l) ↦
            rw (u, l, refresh_with)
              (finished-Leaves _ (failures_of r) _ m.client (
                (rebuild-SameSources env now _).same_client
                ∙ stored_refresh-client now threads usage limits _ _
                ∙ keeps _
                ∙ record_account_result-client now (failures_of r) m))
      ]
    ]

refresh_app_server-Leaves :
    (env : Env) (now : Time) (meanwhile : Monitor → Monitor) (r : Replies) (m : Monitor)
    → ((k : Monitor) → (meanwhile k).client ≡ k.client)
    → Leaves m.client (refresh_app_server env now meanwhile r m)
unfolding refresh_app_server
refresh_app_server-Leaves env now meanwhile r m keeps = by_threads r.threads refl
  where
    by_threads :
        (threads : Result String (List ThreadItem))
        → r.threads ≡ threads
        → Leaves m.client (refresh_app_server env now meanwhile r m)
    by_threads (err e) h = rw (h, refresh_app_server) refl
    by_threads (ok items) h =
        rw (h, refresh_app_server)
          (refresh_with-Leaves env now meanwhile (map (item_thread r.loaded) items) r m keeps)

LoopStep-client :
    (l n : Loop)
    → l.monitor.client ≡ client_of l.phase
    → LoopStep l n
    → n.monitor.client ≡ client_of n.phase
LoopStep-client l n h (others _ m same) = same ∙ h
LoopStep-client l n h (cancelled _ (inl at)) = h ∙ ap client_of at
LoopStep-client l n h (cancelled _ (inr at)) = h ∙ ap client_of at
LoopStep-client l n h (begin env now _ at) =
    set_connection-client env now "connecting" "" l.monitor ∙ h ∙ ap client_of at
LoopStep-client l n h (unsupported env now _ at refused) =
    set_connection-client env now "error" _ l.monitor ∙ h ∙ ap client_of at
LoopStep-client l n h (failed env now e _ at taken) =
    set_connection-client env now "error" e l.monitor ∙ h ∙ ap client_of at
LoopStep-client l n h (attached env now client info _ at taken) =
    attach_client-client env now client info l.monitor
LoopStep-client l n h (refreshed env now meanwhile r client _ m at keeps e) =
    subst (Leaves l.monitor.client) e
      (refresh_app_server-Leaves env now meanwhile r l.monitor keeps)
    ∙ h
    ∙ ap client_of at
LoopStep-client l n h (refresh_failed env now meanwhile r client e _ m at keeps same) =
    subst (Leaves l.monitor.client) same
      (refresh_app_server-Leaves env now meanwhile r l.monitor keeps)
    ∙ h
    ∙ ap client_of at
LoopStep-client l n h (refresh_panicked env now meanwhile r client _ at e) = h ∙ ap client_of at
LoopStep-client l n h (tick client _ at) = h ∙ ap client_of at
LoopStep-client l n h (ended client e _ at) = h ∙ ap client_of at
LoopStep-client l n h (shut client _ at) = h ∙ ap client_of at
LoopStep-client l n h (cleared env now client reason _ at) =
    clear_client-client env now client l.monitor (h ∙ ap client_of at)
    ∙ sym (after_clear-client reason)
LoopStep-client l n h (disconnected env now e _ at) =
    set_connection-client env now "disconnected" e l.monitor ∙ h ∙ ap client_of at
LoopStep-client l n h (waited _ at) = h ∙ ap client_of at

-- Whatever the App Servers answer and however they end, the monitor holds a client exactly from the
-- connection to it until the loop has cleared it: while the loop refreshes from it, waits for its next
-- message or has closed it and not yet cleared it, and where a refresh has panicked. It holds none
-- before a connection, while the loop sets "disconnected" or waits to connect again, and when it has
-- returned.
pub LoopRuns-client : (l : Loop) → LoopRuns l → l.monitor.client ≡ client_of l.phase
unfolding new_monitor
LoopRuns-client l (created cfg now host cli go_version) = refl
LoopRuns-client l (stepped {l = before} runs step) =
    LoopStep-client before l (LoopRuns-client before runs) step
