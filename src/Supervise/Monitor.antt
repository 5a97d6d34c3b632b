-- ===== src/Supervise/Monitor.antt =====
-- `monitor` and `pollHealth` of internal/supervise/supervisor.go.
pub mod Strikes
pub mod Watchdog
use weaveplatform_agent_core.Base.{
  ℕ, suc, Bool, true, false, Option, none, some, List, [], ◌∷◌, ltb, leb, ◌-◌, ◌*◌, if◌then◌else◌,
}
use weaveplatform_agent_core.Supervise.{
  Settings, Runner, HealthStatus, unspecified, healthy, degraded, unhealthy, health_strikes,
}

-- The answer to one Health call: an error, or a response whose health may be nil.
pub data Reply : Type 0 where
  failed : Reply
  replied : Option HealthStatus → Reply

-- What the loop's `select` may take: the context's end, the process's exit, a tick of the health
-- ticker, a tick of the watchdog's ticker at a time, and a ping that `Keepalive` records at a time.
pub data Signal : Type 0 where
  done exited : Signal
  tick : Reply → Signal
  watchdog_tick ping : ℕ → Signal

-- How monitoring ended: a requested stop, an exit, a kill for health, a kill by the watchdog.
pub data Ending : Type 0 where
  requested crashed killed_unhealthy killed_hung : Ending

-- The result of `monitor`: whether the exit was a clean, requested stop.
unfoldable pub is_clean : Ending → Bool
is_clean requested = true
is_clean crashed = false
is_clean killed_unhealthy = false
is_clean killed_hung = false

-- GetStatus on a health that may be nil.
abbrev pub status_of : Option HealthStatus → HealthStatus
status_of none = unspecified
status_of (some h) = h

abbrev strikes_after : HealthStatus → ℕ → ℕ
strikes_after unhealthy n = suc n
strikes_after degraded n = 0
strikes_after healthy n = 0
strikes_after unspecified n = 0

-- The runner, the strikes, and whether the module is to be restarted.
unfoldable pub poll_health : Settings → Reply → Runner → ℕ → Runner × ℕ × Bool
unfolding health_strikes
poll_health cfg failed r strikes = (r, suc strikes, leb (health_strikes cfg) (suc strikes))
poll_health cfg (replied h) r strikes =
    let strikes' = strikes_after (status_of h) strikes in
    (record r { health = h }, strikes', leb (health_strikes cfg) strikes')

-- `time.Since(last) > 2*wdInterval`
unfoldable pub overdue : Settings → ℕ → Runner → Bool
overdue cfg now r = ltb (2 * cfg.watchdog_interval) (now - r.keepalive)

-- The `for`/`select` loop; with no ending the module is still monitored when the signals run out.
unfoldable pub monitor_loop : Settings → Runner → ℕ → List Signal → Runner × Option Ending
monitor_loop cfg r strikes [] = (r, none)
monitor_loop cfg r strikes (done ∷ rest) = (r, some requested)
monitor_loop cfg r strikes (exited ∷ rest) = (r, some crashed)
monitor_loop cfg r strikes (tick reply ∷ rest) =
    let (r', strikes', restart) = poll_health cfg reply r strikes in
    let next = monitor_loop cfg r' strikes' rest in
    if restart then (r', some killed_unhealthy) else next
monitor_loop cfg r strikes (watchdog_tick now ∷ rest) =
    let next = monitor_loop cfg r strikes rest in
    if ltb 0 cfg.watchdog_interval
    then (if overdue cfg now r then (r, some killed_hung) else next)
    else next
monitor_loop cfg r strikes (ping now ∷ rest) =
    monitor_loop cfg (record r { keepalive = now }) strikes rest

abbrev seed : Settings → ℕ → Runner → Runner
seed cfg now r = if ltb 0 cfg.watchdog_interval then record r { keepalive = now } else r

-- `monitor`, entered at `now`, with the reply to its immediate poll and the signals that follow.
unfoldable pub monitor : Settings → ℕ → Reply → List Signal → Runner → Runner × Option Ending
unfolding monitor_loop poll_health
monitor cfg now first signals r =
    let (r', strikes, restart) = poll_health cfg first (seed cfg now r) 0 in
    if restart then (r', some killed_unhealthy) else monitor_loop cfg r' strikes signals
