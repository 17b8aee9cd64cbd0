-- ===== src/Monitor/Steps.antt =====
-- The monitor (agent/internal/monitor) as a whole: every section of its code that holds the lock is
-- one step, and so are the send and the receive on a subscriber's channel, so that a run of steps is
-- any interleaving of its goroutines.
pub mod Invariant
pub mod Preserved
pub mod Safety
use codex_ha_monitor.Prelude.{ℕ, String, Bool, List, Option, some, ◌≡◌, Result, ok}
use codex_ha_monitor.Model.Types.{Time, AppServerInfo, Thread, Snapshot, HostInfo, CodexCliInfo}
use codex_ha_monitor.Monitor.State.{
  Config, HookEvent, HookResult, Monitor, Env, PendingControl, StreamMessage,
}
use codex_ha_monitor.Monitor.Stream.{subscribe_locked, subscribe_send, receive, unsubscribe}
use codex_ha_monitor.Monitor.RecordHook.{record_hook}
use codex_ha_monitor.Monitor.Rebuild.{rebuild}
use codex_ha_monitor.Monitor.Control.{finish_pending, settle_interrupt}
use codex_ha_monitor.Monitor.Account.{record_account_result, set_connection, clear_client}
use codex_ha_monitor.Json.{JsonMap}
use codex_ha_monitor.Monitor.Connect.{attach_client}
use codex_ha_monitor.Monitor.Refresh.{new_monitor, collect_filesystem, store_refresh}
use codex_ha_monitor.Monitor.AppServer.{Message, handle_app_server_message}

pub data Step : Monitor → Monitor → Type 0 where
  hook :
      (env : Env) (now : Time) (event : HookEvent) (m n : Monitor) (r : HookResult)
      → record_hook env now event m ≡ ok (n, r)
      → Step m n
  message :
      (env : Env) (now : Time) (client : ℕ) (msg : Message) (m : Monitor)
      → Step m (handle_app_server_message env now client msg m)
  finish :
      (env : Env) (now : Time) (id : String) (p : PendingControl) (m : Monitor)
      → Step m (finish_pending env now id p m)
  settle :
      (env : Env) (now : Time) (thread turn : String) (m : Monitor)
      → Step m (rebuild env now (settle_interrupt thread turn now m))
  lose_client :
      (env : Env) (now : Time) (client : ℕ) (m : Monitor) → Step m (clear_client env now client m)
  connection :
      (env : Env) (now : Time) (state last_error : String) (m : Monitor)
      → Step m (set_connection env now state last_error m)
  account :
      (now : Time) (failures : List String) (m : Monitor)
      → Step m (record_account_result now failures m).0
  files :
      (env : Env) (now : Time) (found : Option (List Thread)) (m : Monitor)
      → Step m (collect_filesystem env now found m)
  refreshed :
      (env : Env) (now : Time) (threads : List Thread) (usage rate_limits : JsonMap)
      (healthy : Bool) (m : Monitor)
      → Step m (rebuild env now (store_refresh now threads usage rate_limits healthy m))
  attached :
      (env : Env) (now : Time) (client : ℕ) (info : AppServerInfo) (m : Monitor)
      → Step m (attach_client env now client info m)
  subscription : (channel after : ℕ) (m : Monitor) → Step m (subscribe_locked channel after m).0
  first_snapshot :
      (channel : ℕ) (current : Snapshot) (m n : Monitor)
      → subscribe_send channel current m ≡ some n
      → Step m n
  received :
      (channel : ℕ) (read : StreamMessage) (m n : Monitor)
      → receive channel m ≡ some (read, n)
      → Step m n
  closed : (channel : ℕ) (m : Monitor) → Step m (unsubscribe channel m)

-- The states that the agent's runs lead to, from the state that `New` makes.
pub data Reachable : Monitor → Type 0 where
  created :
      (cfg : Config) (now : Time) (host : HostInfo) (cli : CodexCliInfo) (go_version : String)
      → Reachable (new_monitor cfg now host cli go_version)
  stepped : {m n : Monitor} → Reachable m → Step m n → Reachable n
