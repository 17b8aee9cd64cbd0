-- ===== src/Monitor/Stream/Quiet.antt =====
-- `broadcastSnapshotLocked` of agent/internal/monitor/events.go: when subscribers are sent a
-- snapshot.
use codex_ha_monitor.Prelude.{true, [], map, none, ◌≡◌, ◌≢◌, ap, arith}
use codex_ha_monitor.Model.Types.{Thread, Snapshot}
use codex_ha_monitor.Monitor.State.{Monitor, Env, snapshot_message}
use codex_ha_monitor.Monitor.Stream.{
  offer, broadcast_snapshot, normalize, signature_of, compact_usage,
}

-- A subscriber can do without a snapshot that differs from the last one in times only, or in the
-- daily usage: everything else is the same.
pub record SameForClients (s t : Snapshot) : Type 0 where
  pub timeless :
      record s {
        generated_at = 0;
        agent = record s.agent { uptime_seconds = 0 };
        codex = record s.codex { last_success_at = none };
        threads = [];
        usage = none;
      }
      ≡ record t {
        generated_at = 0;
        agent = record t.agent { uptime_seconds = 0 };
        codex = record t.codex { last_success_at = none };
        threads = [];
        usage = none;
      }
  pub same_threads :
      map (λ (x : Thread). record x { updated_at = 0 }) s.threads
      ≡ map (λ (x : Thread). record x { updated_at = 0 }) t.threads
  pub same_usage : compact_usage s.usage ≡ compact_usage t.usage

normalize-SameForClients : (s t : Snapshot) → SameForClients s t → normalize s ≡ normalize t
unfolding normalize
normalize-SameForClients s t h =
    λ i. record (h.timeless i) { threads = h.same_threads i; usage = h.same_usage i }

SameForClients-normalize : (s t : Snapshot) → normalize s ≡ normalize t → SameForClients s t
unfolding normalize
SameForClients-normalize s t h = record {
  timeless = λ i. record (h i) { threads = []; usage = none };
  same_threads = λ i. (h i).threads;
  same_usage = λ i. (h i).usage;
}

-- If the last snapshot sent was `old`, a broadcast changes nothing at all when the current one is the
-- same for clients, and else it offers the current one to every subscriber and remembers its
-- signature. The digest must tell these two snapshots apart.
pub broadcast_snapshot-SameForClients :
    (env : Env) (m : Monitor) (old : Snapshot)
    → m.stream_ready ≡ true
    → m.stream_signature ≡ signature_of env old
    → (signature_of env m.snapshot ≡ signature_of env old → normalize m.snapshot ≡ normalize old)
    → (SameForClients m.snapshot old → broadcast_snapshot env m ≡ m)
      × (¬ SameForClients m.snapshot old
          → broadcast_snapshot env m ≡ record m {
            stream_signature = signature_of env m.snapshot;
            subs = map (offer (snapshot_message m.snapshot)) m.subs;
          })
unfolding broadcast_snapshot
broadcast_snapshot-SameForClients env m old ready last apart = (
  λ same. let e = ap env.digest (normalize-SameForClients m.snapshot old same) in ground arith,
  λ differs.
      let other : signature_of env m.snapshot ≢ signature_of env old =
        λ e. differs (SameForClients-normalize m.snapshot old (apart e)) in
      ground arith,
)
