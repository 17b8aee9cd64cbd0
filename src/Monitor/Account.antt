-- ===== src/Monitor/Account.antt =====
-- agent/internal/monitor/monitor.go: the connection's fields, the account's failures, the back-off.
use Prim.Native.String
use codex_ha_monitor.Prelude.{
  ℕ, ◌*◌, String, Bool, true, false, List, [], ◌∷◌, ltb, ltb_int64, ◌==◌, if◌then◌else◌, Option,
  none, some, ℤ, pos, inc_int64, keep_if, not,
}
use codex_ha_monitor.Model.Types.{Time}
use codex_ha_monitor.Monitor.State.{Config, Monitor, Env, second}
use codex_ha_monitor.Monitor.Rebuild.{rebuild}

-- `appServerFailureThreshold`
unfoldable pub failure_threshold : Config → ℤ
failure_threshold cfg =
    if ltb_int64 (pos 0) cfg.app_server_failure_threshold
    then cfg.app_server_failure_threshold
    else pos 2

abbrev join : List String → String
join [] = ""
join (s ∷ []) = s
join (s ∷ t ∷ ss) = String.◌++◌ s (String.◌++◌ " " (join (t ∷ ss)))

-- `fmt.Sprint(failures)`
abbrev pub sprint : List String → String
sprint failures = String.◌++◌ "[" (String.◌++◌ (join failures) "]")

-- The snapshot's record of the connection, changed.
abbrev pub count_failure : Time → List String → Monitor → Monitor × Bool
count_failure now failures m =
    let count = inc_int64 m.snapshot.codex.consecutive_failures in
    let codex = record m.snapshot.codex {
      consecutive_failures = count;
      last_error = sprint failures;
    } in
    if ltb_int64 count (failure_threshold m.cfg)
    then (record m { snapshot = record m.snapshot { codex = codex } }, false)
    else (
      record m {
        snapshot = record m.snapshot {
          codex = record codex { last_recovery_at = some now; connection_state = "recovering" };
        };
      },
      true,
    )

-- `recordAccountResult`: whether the App Server is to be restarted.
unfoldable pub record_account_result : Time → List String → Monitor → Monitor × Bool
record_account_result now [] m = (
  record m {
    snapshot = record m.snapshot {
      codex = record m.snapshot.codex { consecutive_failures = pos 0 };
    };
  },
  false,
)
record_account_result now (f ∷ fs) m = count_failure now (f ∷ fs) m

-- `setConnection`
unfoldable pub set_connection : Env → Time → String → String → Monitor → Monitor
set_connection env now connection last_error m = rebuild env now (record m {
  snapshot = record m.snapshot {
    codex = record m.snapshot.codex { connection_state = connection; last_error = last_error };
  };
})

abbrev pub forget_client : ℕ → Option ℕ → Option ℕ
forget_client client none = none
forget_client client (some c) = if c == client then none else some c

-- The state under the lock of `clearClient`, before the rebuild.
unfoldable pub drop_client : ℕ → Monitor → Monitor
drop_client client m = record m {
  client = forget_client client m.client;
  pending_requests = keep_if (λ e. not (e.1.client == client)) m.pending_requests;
}

-- `clearClient`
unfoldable pub clear_client : Env → Time → ℕ → Monitor → Monitor
clear_client env now client m = rebuild env now (drop_client client m)

-- `nextBackoff`
unfoldable pub next_backoff : ℕ → ℕ
next_backoff current = if ltb (30 * second) (current * 2) then 30 * second else current * 2
