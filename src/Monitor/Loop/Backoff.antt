-- ===== src/Monitor/Loop/Backoff.antt =====
-- The back-off of `runAppServer` (agent/internal/monitor/monitor.go), over every run of its loop.
use codex_ha_monitor.Prelude.{
  ℕ, zero, suc, ◌*◌, ◌^◌, false, ◌≡◌, ◌∙◌, ap, refl, arith, ltb, if◌then◌else◌,
}
use codex_ha_monitor.Monitor.State.{second}
use codex_ha_monitor.Monitor.Account.{next_backoff}
use codex_ha_monitor.Monitor.Loop.{
  Loop, LoopStep, others, cancelled, begin, unsupported, failed, attached, refreshed,
  refresh_failed, refresh_panicked, tick, ended, shut, cleared, disconnected, waited, LoopRuns,
  created, stepped,
}

-- How many waits have ended since the loop began or last had a connection.
abbrev pub count_wait : {l n : Loop} → LoopStep l n → ℕ → ℕ
count_wait (others l m same) w = w
count_wait (cancelled l at) w = w
count_wait (begin env now l at) w = w
count_wait (unsupported env now l at refused) w = w
count_wait (failed env now e l at taken) w = w
count_wait (attached env now client info l at taken) w = 0
count_wait (refreshed env now meanwhile r client l m at keeps e) w = w
count_wait (refresh_failed env now meanwhile r client e l m at keeps same) w = w
count_wait (refresh_panicked env now meanwhile r client l at e) w = w
count_wait (tick client l at) w = w
count_wait (ended client e l at) w = w
count_wait (shut client l at) w = w
count_wait (cleared env now client reason l at) w = w
count_wait (disconnected env now e l at) w = w
count_wait (waited l at) w = suc w

abbrev pub waits : {l : Loop} → LoopRuns l → ℕ
waits (created cfg now host cli go_version) = 0
waits (stepped run step) = count_wait step (waits run)

-- Two to the power of the waits in seconds, up to thirty.
abbrev pub doubled : ℕ → ℕ
doubled w = if ltb w 5 then 2 ^ w * second else 30 * second

next_backoff-doubled : (w : ℕ) → next_backoff (doubled w) ≡ doubled (suc w)
unfolding next_backoff
next_backoff-doubled zero = refl
next_backoff-doubled (suc zero) = refl
next_backoff-doubled (suc (suc zero)) = refl
next_backoff-doubled (suc (suc (suc zero))) = refl
next_backoff-doubled (suc (suc (suc (suc zero)))) = refl
next_backoff-doubled (suc (suc (suc (suc (suc w))))) =
    let late : ltb (suc (suc (suc (suc (suc w))))) 5 ≡ false = ground arith in
    let later : ltb (suc (suc (suc (suc (suc (suc w)))))) 5 ≡ false = ground arith in
    rw (late, later) refl

LoopStep-backoff :
    (l n : Loop) (w : ℕ) (step : LoopStep l n)
    → l.backoff ≡ doubled w
    → n.backoff ≡ doubled (count_wait step w)
LoopStep-backoff l n w (others _ m same) h = h
LoopStep-backoff l n w (cancelled _ at) h = h
LoopStep-backoff l n w (begin env now _ at) h = h
LoopStep-backoff l n w (unsupported env now _ at refused) h = h
LoopStep-backoff l n w (failed env now e _ at taken) h = h
LoopStep-backoff l n w (attached env now client info _ at taken) h = refl
LoopStep-backoff l n w (refreshed env now meanwhile r client _ m at keeps e) h = h
LoopStep-backoff l n w (refresh_failed env now meanwhile r client e _ m at keeps same) h = h
LoopStep-backoff l n w (refresh_panicked env now meanwhile r client _ at e) h = h
LoopStep-backoff l n w (tick client _ at) h = h
LoopStep-backoff l n w (ended client e _ at) h = h
LoopStep-backoff l n w (shut client _ at) h = h
LoopStep-backoff l n w (cleared env now client reason _ at) h = h
LoopStep-backoff l n w (disconnected env now e _ at) h = h
LoopStep-backoff l n w (waited _ at) h = ap next_backoff h ∙ next_backoff-doubled w

-- In every run of the loop, the next wait is of one second doubled once for each wait that has ended
-- since the loop began or last had a connection, and of thirty seconds from the fifth on: a round that
-- fails before it has a connection doubles it, and a connection sets it back to one second, also if its
-- first refresh fails.
pub LoopRuns-backoff : (l : Loop) (run : LoopRuns l) → l.backoff ≡ doubled (waits run)
LoopRuns-backoff l (created cfg now host cli go_version) = refl
LoopRuns-backoff l (stepped {l = before} run step) =
    LoopStep-backoff before l (waits run) step (LoopRuns-backoff before run)
