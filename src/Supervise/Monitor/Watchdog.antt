-- ===== src/Supervise/Monitor/Watchdog.antt =====
-- When the watchdog kills a module.
use weaveplatform_agent_core.Base.{
  ℕ, ◌+◌, ◌*◌, ◌<◌, ◌≤◌, Bool, true, false, Option, some, List, [], ◌∷◌, ◌≡◌, refl, arith, ltb,
  Bool-cases, inl, inr,
}
use weaveplatform_agent_core.Supervise.{Settings, Runner}
use weaveplatform_agent_core.Supervise.Monitor.{
  Reply, Signal, done, exited, tick, watchdog_tick, ping, Ending, killed_hung, poll_health, overdue,
  monitor_loop, monitor,
}

-- Every watchdog tick comes within two intervals of the last ping before it, or of the start.
abbrev pub Serves : ℕ → ℕ → List Signal → Type 0
Serves interval last [] = Unit
Serves interval last (ping now ∷ rest) = Serves interval now rest
Serves interval last (watchdog_tick now ∷ rest) =
    (now ≤ last + 2 * interval) × Serves interval last rest
Serves interval last (done ∷ rest) = Serves interval last rest
Serves interval last (exited ∷ rest) = Serves interval last rest
Serves interval last (tick _ ∷ rest) = Serves interval last rest

abbrev pub killed_by_watchdog : Option Ending → Bool
killed_by_watchdog (some killed_hung) = true
killed_by_watchdog _ = false

poll-keepalive :
    (cfg : Settings) (reply : Reply) (r : Runner) (s : ℕ)
    → (poll_health cfg reply r s).0.keepalive ≡ r.keepalive
unfolding poll_health
poll-keepalive cfg Reply.failed r s = refl
poll-keepalive cfg (Reply.replied h) r s = refl

loop-Serves :
    (cfg : Settings) (signals : List Signal) (r : Runner) (s : ℕ)
    → Serves cfg.watchdog_interval r.keepalive signals
    → killed_by_watchdog (monitor_loop cfg r s signals).1 ≡ false
unfolding monitor_loop overdue
loop-Serves cfg [] r s h = refl
loop-Serves cfg (done ∷ rest) r s h = refl
loop-Serves cfg (exited ∷ rest) r s h = refl
loop-Serves cfg (ping now ∷ rest) r s h = loop-Serves cfg rest (record r { keepalive = now }) s h
loop-Serves cfg (watchdog_tick now ∷ rest) r s h = ground (arith, loop-Serves cfg rest r s h.1)
loop-Serves cfg (tick reply ∷ rest) r s h =
    let (r', s', restart) = poll_health cfg reply r s in
    ground (arith, loop-Serves cfg rest r' s' (rw (poll-keepalive cfg reply r s) h))

loop_off :
    (cfg : Settings) (signals : List Signal) (r : Runner) (s : ℕ)
    → cfg.watchdog_interval ≡ 0
    → killed_by_watchdog (monitor_loop cfg r s signals).1 ≡ false
unfolding monitor_loop
loop_off cfg [] r s h = refl
loop_off cfg (done ∷ rest) r s h = refl
loop_off cfg (exited ∷ rest) r s h = refl
loop_off cfg (ping now ∷ rest) r s h = loop_off cfg rest (record r { keepalive = now }) s h
loop_off cfg (watchdog_tick now ∷ rest) r s h = ground (arith, loop_off cfg rest r s h)
loop_off cfg (tick reply ∷ rest) r s h =
    let (r', s', restart) = poll_health cfg reply r s in ground (arith, loop_off cfg rest r' s' h)

-- A module that is pinged in time is never killed by the watchdog: where every watchdog tick comes
-- within two intervals of the last ping before it (of the start, if there was none), or where the
-- watchdog is off, `monitor` ends in another way or goes on.
pub monitor-Serves :
    (cfg : Settings) (now : ℕ) (first : Reply) (signals : List Signal) (r : Runner)
    → Serves cfg.watchdog_interval now signals
    → killed_by_watchdog (monitor cfg now first signals r).1 ≡ false
unfolding monitor
monitor-Serves cfg now first signals r h = elim (Bool-cases (ltb 0 cfg.watchdog_interval)) [
  | inl on ↦
      let start : Runner = record r { keepalive = now } in
      let (r', s', restart) = poll_health cfg first start 0 in
      ground (arith, loop-Serves cfg signals r' s' (rw (poll-keepalive cfg first start 0) h))
  | inr off ↦
      let (r', s', restart) = poll_health cfg first r 0 in
      ground (arith, loop_off cfg signals r' s')
]

-- A module that missed its deadline is killed at the next watchdog tick, whatever comes after it:
-- with the watchdog on, a tick more than two intervals after the last ping ends the loop.
pub monitor_loop-overdue :
    (cfg : Settings) (r : Runner) (strikes now : ℕ) (rest : List Signal)
    → 0 < cfg.watchdog_interval
    → r.keepalive + 2 * cfg.watchdog_interval < now
    → monitor_loop cfg r strikes (watchdog_tick now ∷ rest) ≡ (r, some killed_hung)
unfolding monitor_loop overdue
monitor_loop-overdue cfg r strikes now rest on late = ground arith
