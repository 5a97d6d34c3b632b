-- ===== src/Supervise/Tests.antt =====
-- Supervised modules on concrete inputs.
use weaveplatform_agent_core.Base.{
  ℕ, ◌+◌, ◌%◌, ◌^◌, true, false, none, some, List, [], ◌∷◌, map, ◌≡◌, refl, arith, lookup, insert,
  remove,
}
use weaveplatform_agent_core.Manifest.Samples.{sysinfo}
use weaveplatform_agent_core.Supervise.{
  Settings, Runner, HealthStatus, start_limited, start_limit_burst, start_limit_window,
  stable_after, health_strikes, set_state,
}
use weaveplatform_agent_core.Supervise.Monitor.{
  Reply, replied, exited, tick, ping, watchdog_tick, monitor,
}
use weaveplatform_agent_core.Supervise.Monitor.Strikes.{
  killed_for_health, has_streak, starts_bad, monitor-has_streak,
}
use weaveplatform_agent_core.Supervise.Monitor.Watchdog.{killed_by_watchdog, monitor-Serves}
use weaveplatform_agent_core.Supervise.Loop.{
  Launch, Round, Loop, again, ended, recent, prune_crashes, pass, run_from, run,
}
use weaveplatform_agent_core.Supervise.Loop.Breaker.{run-CrashLoop}
use weaveplatform_agent_core.Supervise.Registry.{
  Spec, Entry, new_runner, set_base_context, gate, add, run_module, replace,
}
use weaveplatform_agent_core.Supervise.Registry.History.{
  Event, adds, goes, after, history, started, Replaced, replace-Replaced,
}
use weaveplatform_agent_core.Capability.{CapabilitySet, has}

abbrev cfg : Settings
cfg = record {
  start_limit_burst = 2;
  start_limit_window = 0;
  health_strikes = 0;
  stable_after = 0;
  watchdog_interval = 5;
}

abbrev crash_at : ℕ → Round
crash_at t = record {
  cancelled_before = false;
  launch = Launch.failed;
  cancelled_after = false;
  started_at = t;
  first = Reply.failed;
  signals = [];
  ended_at = t;
  crashed_at = t;
  delay = 7;
  cancelled_waiting = false;
}

abbrev exit_at : ℕ → Round
exit_at t = record (crash_at t) { launch = Launch.up 41 1; signals = exited ∷ [] }

once : (l : Loop) × (run cfg new_runner (crash_at 1 ∷ []) ≡ again l)
unfolding run pass recent prune_crashes start_limit_burst start_limit_window stable_after
once = (_, refl)

twice : (r : Runner) × (pass cfg (exit_at 9) once.0 ≡ ended r) × (r.state ≡ start_limited)
unfolding once run pass recent prune_crashes start_limit_burst start_limit_window stable_after
twice = (_, refl, refl)

monitor-has_streak_example :
    killed_for_health
      (monitor cfg 0 Reply.failed (map tick (Reply.failed ∷ Reply.failed ∷ [])) new_runner).1
    ≡ has_streak (health_strikes cfg) (Reply.failed ∷ Reply.failed ∷ Reply.failed ∷ [])
monitor-has_streak_example =
    monitor-has_streak cfg 0 Reply.failed (Reply.failed ∷ Reply.failed ∷ []) new_runner

three_strikes :
    has_streak (health_strikes cfg) (Reply.failed ∷ Reply.failed ∷ Reply.failed ∷ []) ≡ true
unfolding has_streak starts_bad health_strikes
three_strikes = refl

abbrev answer : Reply
answer = replied (some HealthStatus.healthy)

monitor-Serves_example :
    killed_by_watchdog
      (monitor cfg 100 answer (ping 108 ∷ watchdog_tick 118 ∷ exited ∷ []) new_runner).1
    ≡ false
monitor-Serves_example =
    monitor-Serves cfg 100 answer (ping 108 ∷ watchdog_tick 118 ∷ exited ∷ []) new_runner
      (omega arith)

run-CrashLoop_example :
    (r : Runner) × (run cfg new_runner (crash_at 1 ∷ exit_at 9 ∷ []) ≡ ended r)
    × (r.state ≡ start_limited)
    × (r.restarts ≡ (0 + start_limit_burst cfg) % 2 ^ 32)
unfolding start_limit_burst start_limit_window stable_after
run-CrashLoop_example =
    run-CrashLoop cfg 1 new_runner (crash_at 1 ∷ exit_at 9 ∷ [])
      (
        (refl, refl, refl, omega arith, omega arith),
        ((refl, ([], refl, refl), refl, omega arith, omega arith), tt),
      )
      (omega arith)

abbrev inventory : CapabilitySet
inventory = ("platform.osinfo", []) ∷ []

abbrev incumbent : Spec
incumbent = record { manifest = sysinfo; bin_path = "/old"; config = none }

abbrev gated : Spec
gated = record {
  manifest = record sysinfo { capabilities = "hypervisor.channel" ∷ [] };
  bin_path = "/new";
  config = none;
}

-- The incumbent is registered, and crashes until its start limit.
abbrev crashed : List Event
crashed = adds incumbent ∷ goes "sysinfo" (crash_at 1 ∷ exit_at 9 ∷ []) ∷ []

crashed_ends :
    (e : Entry) × (lookup "sysinfo" (history cfg crashed (started inventory)).runners ≡ some e)
    × (e.live ≡ false)
    × (e.runner.state ≡ start_limited)
unfolding history after started set_base_context add gate has set_state lookup insert remove
    run_module run run_from pass recent prune_crashes start_limit_burst start_limit_window
    stable_after
crashed_ends = (_, refl, refl, refl)

replace-Replaced_example :
    Replaced gated
      (history cfg crashed (started inventory))
      (replace gated (history cfg crashed (started inventory)))
replace-Replaced_example = replace-Replaced cfg inventory crashed gated
