-- ===== src/Monitor/Steps/Safety.antt =====
-- No step of agent/internal/monitor breaks the invariant of its state, so no run does.
use codex_ha_monitor.Prelude.{arith, refl, subst}
use codex_ha_monitor.Monitor.State.{Monitor}
use codex_ha_monitor.Monitor.Stream.{subscribe_locked, unsubscribe}
use codex_ha_monitor.Monitor.Control.{settle_interrupt}
use codex_ha_monitor.Monitor.Refresh.{new_monitor, store_refresh}
use codex_ha_monitor.Monitor.Steps.{
  Step, Reachable, attached, files, refreshed, created, stepped, hook, message, finish, settle,
  lose_client, connection, account, subscription, first_snapshot, received, closed,
}
use codex_ha_monitor.Monitor.Steps.Invariant.{RequestsAreValid}
use codex_ha_monitor.Monitor.Steps.Invariant.Streams.{
  subscribe_locked-StreamsAreValid, subscribe_send-StreamsAreValid, receive-StreamsAreValid,
  unsubscribe-StreamsAreValid,
}
use codex_ha_monitor.Monitor.Steps.Preserved.{
  IsValid, rebuild-IsValid, IsValid-of, record_hook-IsValid, finish_pending-IsValid,
  settle_interrupt-IsValid, clear_client-IsValid, set_connection-IsValid,
  record_account_result-IsValid, subscribe_send-pending_requests, receive-pending_requests,
  handle_app_server_message-IsValid, collect_filesystem-IsValid, attach_client-IsValid,
}

Step-IsValid : {m n : Monitor} → Step m n → IsValid m → IsValid n
unfolding subscribe_locked unsubscribe store_refresh
Step-IsValid (hook env now event m n r h) v = record_hook-IsValid env now event m n r h v
Step-IsValid (message env now client msg m) v =
    handle_app_server_message-IsValid env now client msg m v
Step-IsValid (finish env now id p m) v = finish_pending-IsValid env now id p m v
Step-IsValid (settle env now thread turn m) v =
    rebuild-IsValid env now (settle_interrupt thread turn now m)
      (settle_interrupt-IsValid thread turn now m v)
Step-IsValid (lose_client env now client m) v = clear_client-IsValid env now client m v
Step-IsValid (connection env now state last_error m) v =
    set_connection-IsValid env now state last_error m v
Step-IsValid (account now failures m) v = record_account_result-IsValid now failures m v
Step-IsValid (files env now found m) v = collect_filesystem-IsValid env now found m v
Step-IsValid (refreshed env now threads usage rate_limits healthy m) v =
    rebuild-IsValid env now (store_refresh now threads usage rate_limits healthy m)
      (IsValid-of _ m refl refl v.requests v)
Step-IsValid (attached env now client info m) v = attach_client-IsValid env now client info m v
Step-IsValid (subscription channel number m) v = record {
  streams = subscribe_locked-StreamsAreValid channel number m v.streams;
  requests = v.requests;
}
Step-IsValid (first_snapshot channel current m n h) v = record {
  streams = subscribe_send-StreamsAreValid channel current m n h v.streams;
  requests =
      subst RequestsAreValid (subscribe_send-pending_requests channel current m n h) v.requests;
}
Step-IsValid (received channel read m n h) v = record {
  streams = receive-StreamsAreValid channel read m n h v.streams;
  requests = subst RequestsAreValid (receive-pending_requests channel read m n h) v.requests;
}
Step-IsValid (closed channel m) v = record {
  streams = unsubscribe-StreamsAreValid channel m v.streams;
  requests = v.requests;
}

-- Whatever hooks, messages, refreshes, actions and subscribers come in, and however many messages the
-- subscribers have read, in whatever order: in every state that the agent reaches the history holds
-- at most 256 events and a channel at most 300 messages, every pending request stands under its own
-- id, and there once, and every one of them asks for approval or for input.
pub Reachable-IsValid : {m : Monitor} → Reachable m → IsValid m
unfolding new_monitor
Reachable-IsValid (created cfg now host cli go_version) = record {
  streams = record { short = omega arith; roomy = tt };
  requests = record { unique = tt; named = tt; attention = tt };
}
Reachable-IsValid (stepped run step) = Step-IsValid step (Reachable-IsValid run)
