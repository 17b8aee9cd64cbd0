-- ===== src/Monitor/Loop/Files.antt =====
-- A round of `runFilesystem` of agent/internal/monitor/monitor.go, which asks
-- agent/internal/collector/filesystem.go for the threads.
use codex_ha_monitor.Prelude.{
  String, List, Option, none, some, Result, ok, err, ◌≡◌, ◌⊎◌, refl, sym, subst, inl, inr,
  Reordered,
}
use codex_ha_monitor.Model.Types.{Time, Thread}
use codex_ha_monitor.Monitor.State.{Config, Monitor, Env}
use codex_ha_monitor.Monitor.Rebuild.Keeps.{rebuild-SameSources}
use codex_ha_monitor.Monitor.Refresh.{collect_filesystem}
use codex_ha_monitor.Monitor.Loop.{codex_home}
use codex_ha_monitor.Collector.Session.{FilesystemCollector}
use codex_ha_monitor.Collector.Listing.{Surroundings, collect}
use codex_ha_monitor.Collector.Newest.{IsCollected, collect-IsCollected}
use codex_ha_monitor.Collector.Fails.{IsCancelled, collect-err}

-- The collector that a round makes.
abbrev pub collector_of : Config → String → FilesystemCollector
collector_of cfg home = record {
  home = home;
  active_window = cfg.filesystem_active_window;
  max_threads = cfg.max_threads;
}

abbrev pub found {ℓ} : {A : Type ℓ} → Result String A → Option A
found (err e) = none
found (ok a) = some a

-- `collectFilesystem`: `meanwhile` is what others do while the files are read.
pub filesystem_round :
    Env → Time → Surroundings → String → Option String → (Monitor → Monitor) → Monitor → Monitor
unfolding collect codex_home collect_filesystem
filesystem_round env now s variable user_home meanwhile m =
    let collector = collector_of m.cfg (codex_home m variable user_home) in
    collect_filesystem env now (found (collect s collector)) (meanwhile m)

-- What `collect_filesystem` leaves of the session files' threads.
collect_filesystem-threads :
    (env : Env) (now : Time) (c : FilesystemCollector) (r : Result String (List Thread))
    (m : Monitor)
    → ((ts : List Thread) → r ≡ ok ts → IsCollected c ts)
    → ((e : String) × (r ≡ err e)
        × ((collect_filesystem env now (found r) m).fs_threads ≡ m.fs_threads))
      ⊎ IsCollected c (collect_filesystem env now (found r) m).fs_threads
unfolding collect_filesystem
collect_filesystem-threads env now c (err e) m h = inl (e, refl, refl)
collect_filesystem-threads env now c (ok ts) m h = inr (
    subst (IsCollected c)
      (sym (rebuild-SameSources env now (record m { fs_threads = ts })).same_fs_threads)
      (h ts refl))

-- After a round the session files' threads in the monitor are newest first, no more than the configured
-- maximum (100 where it is not positive), and each with an id and marked as inferred from a file,
-- whatever the files hold. Only where no directory is known, or the context is done while the files are
-- listed, are they those from before.
pub filesystem_round-IsCollected :
    (env : Env) (now : Time) (s : Surroundings) (variable : String) (user_home : Option String)
    (meanwhile : Monitor → Monitor) (m : Monitor)
    → ((ts : List Thread) → Reordered ts (s.order_threads ts))
    → (((codex_home m variable user_home ≡ "") ⊎ IsCancelled s.walk)
        × ((filesystem_round env now s variable user_home meanwhile m).fs_threads
            ≡ (meanwhile m).fs_threads))
      ⊎ IsCollected
          (collector_of m.cfg (codex_home m variable user_home))
          (filesystem_round env now s variable user_home meanwhile m).fs_threads
unfolding filesystem_round
filesystem_round-IsCollected env now s variable user_home meanwhile m order =
    let c = collector_of m.cfg (codex_home m variable user_home) in
    elim (collect_filesystem-threads env now c (collect s c) (meanwhile m)
      (λ ts h. collect-IsCollected s c ts order h)) [
        | inl (e, fails, same) ↦ inl (collect-err s c e fails, same)
        | inr collected ↦ inr collected
      ]
