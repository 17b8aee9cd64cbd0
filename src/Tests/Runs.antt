-- ===== src/Tests/Runs.antt =====
-- The theorems on the monitor, at a concrete monitor.
use codex_ha_monitor.Prelude.{
  eq_iff, ◌≤◌, String, true, List, [], ◌∷◌, ◌++◌, map, lookup, insert, stable_sort, place,
  IsNewestFirst, Perm, Without, some, none, pos, ok, ◌≡◌, ◌≢◌, ◌↔◌, refl, inl, arith,
}
use codex_ha_monitor.Hierarchy.{index_by_id, index_from, assign_one, assign_thread_hierarchy}
use codex_ha_monitor.Merge.{
  merge_threads, merged_map, merge_app, merge_one, fill_state, fill_fields,
}
use codex_ha_monitor.Monitor.Upsert.{index_threads, upsert}
use codex_ha_monitor.Merge.Reads.{find_last}
use codex_ha_monitor.Model.Types.{Thread, TaskEvent, task_resumed}
use codex_ha_monitor.Monitor.State.{Monitor, snapshot_message}
use codex_ha_monitor.Monitor.Hooks.{hook_round, has_expired, observe, apply_hooks, hook_rounds}
use codex_ha_monitor.Monitor.Hooks.Observed.{apply_hooks_lem, observed, live, live_count}
use codex_ha_monitor.Monitor.Requests.{decorate_pending_requests, decorate_all}
use codex_ha_monitor.Monitor.Requests.Decorated.{last_request}
use codex_ha_monitor.Monitor.Stream.{
  broadcast_snapshot, subscribe_locked, subscribe_send, signature_of, offer, normalize,
}
use codex_ha_monitor.Monitor.Stream.History.{
  emitted, transitions, HistoryIsValid, emit_transition_events-emitted, activity, offer_all,
}
use codex_ha_monitor.Monitor.Stream.Replay.{subscribe_lem, missed, meanwhile_sent}
use codex_ha_monitor.Monitor.Stream.Quiet.{broadcast_snapshot-SameForClients, SameForClients}
use codex_ha_monitor.Monitor.Events.{emit_transition_events, thread_event, transition_event_type}
use codex_ha_monitor.Monitor.Rebuild.{rebuild, rebuild_threads}
use codex_ha_monitor.Monitor.Rebuild.Reported.{Shows, rebuild-Shows}
use codex_ha_monitor.Monitor.Rebuild.Keeps.{rebuild-HistoryIsValid}
use codex_ha_monitor.Monitor.Control.{
  RequestParams, record_server_request, resolve_approval, submit_input, interrupt, decision_payload,
  answers_payload, done, respond,
}
use codex_ha_monitor.Monitor.AppServer.{Message, handle_app_server_message}
use codex_ha_monitor.Monitor.AppServer.Resolved.{OfResolved, handle_app_server_message-resolved}
use codex_ha_monitor.Monitor.Control.Asked.{
  id_text, next_sequence, Ends, record_server_request-resolve_approval,
}
use codex_ha_monitor.Monitor.Control.Answer.{
  Resolution, IsOffered, IsComplete, resolve_approval-Resolution, submit_input-Resolution,
}
use codex_ha_monitor.Monitor.Control.Interrupt.{
  Interruption, OfClient, interrupt-Interruption, clear_client_lem,
}
use codex_ha_monitor.Monitor.Account.{
  failure_threshold, record_account_result, clear_client, set_connection,
}
use codex_ha_monitor.Monitor.Usage.{usage, buckets_key}
use codex_ha_monitor.Monitor.Usage.Bounds.{
  usage_lem, history, keep_days, days_shown, days_kept, field,
}
use codex_ha_monitor.Monitor.Refresh.{Replies, refresh_app_server, panicked, new_monitor}
use codex_ha_monitor.Monitor.Refresh.Outcomes.{
  record_account_result-threshold, failing, refresh_app_server-panicked, HasNullAccount, IsListed,
}
use codex_ha_monitor.Monitor.Connect.{connect, store_client}
use codex_ha_monitor.Monitor.Connect.Recovery.{connect_lem}
use codex_ha_monitor.Monitor.Steps.{created, stepped, lose_client}
use codex_ha_monitor.Monitor.Steps.Preserved.{IsValid}
use codex_ha_monitor.Monitor.Steps.Safety.{Reachable-IsValid}
use codex_ha_monitor.Monitor.Events.Kinds.{HasChanged, Means, Tells, thread_event-Means}
use codex_ha_monitor.Monitor.Events.Steady.{emit_transition_events-IsSteady}
use codex_ha_monitor.Tests.{
  question, parent, child, threads, cfg, host, cli, env, busy, created_monitor,
}

pub busy-HistoryIsValid : HistoryIsValid busy
busy-HistoryIsValid = record {
  bounded = omega arith;
  counted = omega arith;
  consecutive = (refl, tt);
}

emit_transition_events-emitted_example :
    emit_transition_events threads 100 9 busy
    ≡ record (emitted 100 (transitions busy.last_threads 9 threads) busy) {
      last_threads = index_by_id threads;
    }
unfolding thread_event lookup transition_event_type
emit_transition_events-emitted_example =
    emit_transition_events-emitted threads 100 9 busy refl (omega arith) (omega arith)

apply_hooks_lem_example :
    let (sorted, m') = apply_hooks env threads 9 busy in
    (before_sort : List Thread) × Perm sorted before_sort
    × IsNewestFirst (λ t. t.updated_at) sorted
    × ((k : String)
        → find_last k before_sort
          ≡ observed k (live cfg 9 (lookup k busy.hook_sessions)) (find_last k threads))
    × ((k : String) → lookup k m'.hook_sessions ≡ live cfg 9 (lookup k busy.hook_sessions))
    × (m' ≡ record busy {
      hook_sessions = m'.hook_sessions;
      snapshot = record busy.snapshot {
        hooks = record busy.snapshot.hooks {
          active_sessions = live_count cfg 9 (env.order_hooks busy.hook_sessions);
        };
      };
    })
apply_hooks_lem_example = apply_hooks_lem env threads 9 busy ((tt, tt), λ k. refl)

subscribe_lem_example :
    let (locked, current) = subscribe_locked 10 0 busy in
    subscribe_send 10 current (meanwhile_sent [] locked)
    ≡ some (record busy {
      subs =
          record {
            number = 10;
            buffer = (map activity (missed 0 busy) ++ []) ++ snapshot_message busy.snapshot ∷ [];
          }
          ∷ map (offer_all []) busy.subs;
    })
subscribe_lem_example = subscribe_lem 10 0 busy [] busy-HistoryIsValid (omega arith)

broadcast_snapshot-SameForClients_example :
    (SameForClients busy.snapshot created_monitor.snapshot → broadcast_snapshot env busy ≡ busy)
    × (¬ SameForClients busy.snapshot created_monitor.snapshot
        → broadcast_snapshot env busy ≡ record busy {
          stream_signature = signature_of env busy.snapshot;
          subs = map (offer (snapshot_message busy.snapshot)) busy.subs;
        })
unfolding normalize
broadcast_snapshot-SameForClients_example =
    broadcast_snapshot-SameForClients env busy created_monitor.snapshot refl refl (λ e. refl)

rebuild-HistoryIsValid_example : HistoryIsValid (rebuild env 9 busy)
unfolding rebuild_threads assign_thread_hierarchy decorate_pending_requests decorate_all apply_hooks
    index_threads stable_sort hook_rounds merge_threads merged_map merge_app index_from insert
    lookup upsert new_monitor place merge_one fill_state fill_fields assign_one hook_round
    has_expired observe
rebuild-HistoryIsValid_example = rebuild-HistoryIsValid env 9 busy (omega arith) busy-HistoryIsValid

rebuild-Shows_example :
    (t : Thread) × (find_last "b" (rebuild env 9 busy).snapshot.threads ≡ some t)
    × Shows question.request t
unfolding last_request
rebuild-Shows_example = rebuild-Shows env 9 busy "b" question.request (inl refl, tt) refl

resolve_approval-Resolution_example :
    Resolution
      (λ m. m)
      busy
      "approval"
      (IsOffered "accept")
      (decision_payload "accept")
      (done "approve" "req-1" "b" "t1")
      none
      (resolve_approval env 9 none (λ m. m) "approve" "req-1" "b" "t1" "accept" busy)
resolve_approval-Resolution_example =
    resolve_approval-Resolution (λ m. m) busy env 9 none "approve" "req-1" "b" "t1" "accept"

submit_input-Resolution_example :
    Resolution
      (λ m. m)
      busy
      "input"
      (λ r. IsComplete [])
      (answers_payload [])
      (done "submit_input" "req-1" "b" "t1")
      none
      (submit_input env 9 none (λ m. m) "req-1" "b" "t1" [] busy)
submit_input-Resolution_example =
    submit_input-Resolution (λ m. m) busy env 9 none "req-1" "b" "t1" []

interrupt-Interruption_example :
    Interruption
      (λ m. m)
      busy
      "b"
      "t1"
      busy.client
      none
      (interrupt env 9 none (λ m. m) "b" "t1" busy)
interrupt-Interruption_example = interrupt-Interruption (λ m. m) busy "b" "t1" env 9 none

clear_client_lem_example :
    Without (OfClient 4) busy.pending_requests (clear_client env 9 4 busy).pending_requests
    × ((clear_client env 9 4 busy).client ≢ some 4)
    × (busy.client ≢ some 4 → (clear_client env 9 4 busy).client ≡ busy.client)
clear_client_lem_example = clear_client_lem env 9 4 busy

Reachable-IsValid_example : IsValid (clear_client env 9 4 created_monitor)
Reachable-IsValid_example =
    Reachable-IsValid
      (stepped (created cfg 5 host cli "go1.24") (lose_client env 9 4 created_monitor))

usage_lem_example :
    (history (usage busy (pos 7))
      ≡ keep_days (days_shown (pos 7) (days_kept cfg.usage_history_days)) (history busy.usage))
    × ((k : String) → k ≢ buckets_key → field k (usage busy (pos 7)) ≡ field k busy.usage)
usage_lem_example = usage_lem busy (pos 7)

record_account_result-threshold_example :
    ((record_account_result 9 ("x" ∷ []) (failing 9 "x" [] 2 busy)).1 ≡ true) ↔ (3 ≤ 3)
unfolding new_monitor failure_threshold
record_account_result-threshold_example =
    record_account_result-threshold 9 "x" [] 2 3 busy refl refl (omega arith)

abbrev null_replies : Replies
null_replies = record { threads = ok []; loaded = []; usage = ok none; rate_limits = ok none }

refresh_app_server-panicked_example :
    (refresh_app_server env 9 (λ m. m) null_replies busy ≡ panicked)
    ↔ (IsListed null_replies.threads × HasNullAccount null_replies)
refresh_app_server-panicked_example = refresh_app_server-panicked env 9 (λ m. m) null_replies busy

connect_lem_example :
    connect env env 9 10 (λ m. m) 5 (record { user_agent = "ua"; codex_home = "/h" }) busy
    ≡ rebuild env 10 (
        store_client 5
          (record { user_agent = "ua"; codex_home = "/h" })
          (set_connection env 9 "connecting" "" busy))
connect_lem_example =
    connect_lem env env 9 10 (λ m. m) 5 (record { user_agent = "ua"; codex_home = "/h" }) busy
      (λ k. refl)

abbrev told : Message
told = record {
  request_id = "";
  method = "serverRequest/resolved";
  request = none;
  status_changed = none;
  turn = none;
  resolved = some "17";
}

handle_app_server_message-resolved_example :
    Without
      (OfResolved (some "17"))
      busy.pending_requests
      (handle_app_server_message env 9 4 told busy).pending_requests
handle_app_server_message-resolved_example = handle_app_server_message-resolved env 9 4 told busy

abbrev change : RequestParams
change = record {
  thread_id = "a";
  turn_id = "t0";
  item_id = "i2";
  cwd = "/work";
  reason = "";
  command = "ls";
  available = none;
  questions = none;
}

abbrev asking : Monitor
asking = record_server_request env 9 4 "18" "item/fileChange/requestApproval" (some change) busy

record_server_request-resolve_approval_example :
    let o =
      resolve_approval env 10 none
        (λ k. k)
        "approve"
        (id_text (next_sequence busy) 9)
        "a"
        "t0"
        "accept"
        asking in
    (o.sent ≡ respond 4 "18" (decision_payload "accept") ∷ [])
    × Ends none
        (id_text (next_sequence busy) 9)
        (done "approve" (id_text (next_sequence busy) 9) "a" "t0")
        asking
        o
record_server_request-resolve_approval_example =
    record_server_request-resolve_approval env 9 4 "18" "item/fileChange/requestApproval" change
      busy env 10 none (λ k. k) "approve" "accept" (λ e. ground (arith, eq_iff "18" ""))
      (λ e. ground (arith, eq_iff "a" "")) (inl (refl, inl refl)) refl

abbrev showing : Monitor
showing = record_server_request env 9 4 "19" "item/permissions/requestApproval" (some change) busy

-- The same two threads, of which one has a new time.
abbrev later_threads : List Thread
later_threads = record parent { updated_at = 12 } ∷ child ∷ []

emit_transition_events-IsSteady_example :
    let m' = emit_transition_events threads 100 9 busy in
    emit_transition_events later_threads 101 12 m'
    ≡ record m' { last_threads = index_by_id later_threads }
unfolding find_last
emit_transition_events-IsSteady_example =
    emit_transition_events-IsSteady threads later_threads 100 9 101 12 busy
      ((parent, refl, refl, refl), ((child, refl, refl, refl), tt))

thread_event-Means_example :
    ((e : TaskEvent) × (thread_event busy.last_threads 9 parent ≡ some e)
      × Tells task_resumed (lookup "a" busy.last_threads) parent 9 e)
    ↔ (HasChanged (lookup "a" busy.last_threads) parent
        × Means task_resumed (lookup "a" busy.last_threads) parent)
thread_event-Means_example = thread_event-Means busy.last_threads 9 parent task_resumed
