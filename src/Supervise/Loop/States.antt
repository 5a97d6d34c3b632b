-- ===== src/Supervise/Loop/States.antt =====
-- The states that the supervision loop passes through and ends in.
use weaveplatform_agent_core.Base.{
  ℕ, Bool, true, false, Option, none, some, List, [], ◌∷◌, ltb, leb, length, ◌≡◌, refl, arith, ap,
  ◌∙◌, if◌then◌else◌, if-both,
}
use weaveplatform_agent_core.Supervise.{
  State, Settings, Runner, pending, starting, running, backoff, start_limited, unsupported_protocol,
  requirements_unmet, stopped, set_state, start_limit_burst,
}
use weaveplatform_agent_core.Supervise.Monitor.{
  Reply, failed, replied, Signal, done, exited, tick, watchdog_tick, ping, Ending, is_clean,
  poll_health, monitor_loop, monitor,
}
use weaveplatform_agent_core.Supervise.Loop.{
  Launch, refused, up, Round, Loop, Progress, again, waiting, ended, prune_crashes, account,
  forgive, after_monitor, launched, pass, run_from, run,
}

-- The states of a module whose loop goes on.
unfoldable pub is_active : State → Bool
is_active pending = true
is_active starting = true
is_active running = true
is_active backoff = true
is_active start_limited = false
is_active unsupported_protocol = false
is_active requirements_unmet = false
is_active stopped = false

-- The states that the loop ends in.
unfoldable pub is_final : State → Bool
is_final pending = false
is_final starting = false
is_final running = false
is_final backoff = false
is_final start_limited = true
is_final unsupported_protocol = true
is_final requirements_unmet = false
is_final stopped = true

-- A loop that goes on is in an active state, one that has ended in a final one.
abbrev pub Settled : Progress → Type 0
Settled (again l) = is_active l.runner.state ≡ true
Settled (waiting r) = is_active r.state ≡ true
Settled (ended r) = is_final r.state ≡ true

poll_health-state :
    (cfg : Settings) (reply : Reply) (r : Runner) (strikes : ℕ)
    → (poll_health cfg reply r strikes).0.state ≡ r.state
unfolding poll_health
poll_health-state cfg failed r strikes = refl
poll_health-state cfg (replied h) r strikes = refl

monitor_loop-state :
    (cfg : Settings) (r : Runner) (strikes : ℕ) (signals : List Signal)
    → (monitor_loop cfg r strikes signals).0.state ≡ r.state
unfolding monitor_loop
monitor_loop-state cfg r strikes [] = refl
monitor_loop-state cfg r strikes (done ∷ rest) = refl
monitor_loop-state cfg r strikes (exited ∷ rest) = refl
monitor_loop-state cfg r strikes (tick reply ∷ rest) =
    let (r', strikes', restart) = poll_health cfg reply r strikes in
    if-both (λ (x : Runner × Option Ending). x.0.state ≡ r.state) restart
      (r', some Ending.killed_unhealthy) (monitor_loop cfg r' strikes' rest)
      (λ _. poll_health-state cfg reply r strikes)
      (λ _. monitor_loop-state cfg r' strikes' rest ∙ poll_health-state cfg reply r strikes)
monitor_loop-state cfg r strikes (watchdog_tick now ∷ rest) =
    ground (arith, monitor_loop-state cfg r strikes rest)
monitor_loop-state cfg r strikes (ping now ∷ rest) =
    monitor_loop-state cfg (record r { keepalive = now }) strikes rest

monitor-state :
    (cfg : Settings) (now : ℕ) (first : Reply) (signals : List Signal) (r : Runner)
    → (monitor cfg now first signals r).0.state ≡ r.state
unfolding monitor
monitor-state cfg now first signals r =
    let seeded = if ltb 0 cfg.watchdog_interval then record r { keepalive = now } else r in
    let same : seeded.state ≡ r.state =
      if-both (λ (x : Runner). x.state ≡ r.state) (ltb 0 cfg.watchdog_interval) _ r (λ _. refl)
        (λ _. refl) in
    let (r', strikes, restart) = poll_health cfg first seeded 0 in
    if-both (λ (x : Runner × Option Ending). x.0.state ≡ r.state) restart
      (r', some Ending.killed_unhealthy) (monitor_loop cfg r' strikes signals)
      (λ _. poll_health-state cfg first seeded 0 ∙ same)
      (λ _. monitor_loop-state cfg r' strikes signals ∙ poll_health-state cfg first seeded 0 ∙ same)

account-Settled : (cfg : Settings) (round : Round) (l : Loop) → Settled (account cfg round l)
unfolding account set_state is_active is_final
account-Settled cfg round l =
    if-both Settled
      (leb (start_limit_burst cfg) (length (prune_crashes cfg round.crashed_at l.crashes))) _ _
      (λ _. refl) (λ _. if-both Settled round.cancelled_waiting _ _ (λ _. refl) (λ _. refl))

after_monitor-Settled :
    (cfg : Settings) (round : Round) (l : Loop) (e : Option Ending)
    → is_active l.runner.state ≡ true
    → Settled (after_monitor cfg round l e)
unfolding after_monitor set_state is_final
after_monitor-Settled cfg round l none active = active
after_monitor-Settled cfg round l (some e) active =
    if-both Settled (is_clean e) _ _ (λ _. refl)
      (λ _. account-Settled cfg round (forgive cfg round l))

launched-Settled :
    (cfg : Settings) (round : Round) (a : Launch) (l : Loop) → Settled (launched cfg round a l)
unfolding launched set_state is_active is_final
launched-Settled cfg round refused l = refl
launched-Settled cfg round Launch.failed l =
    if-both Settled round.cancelled_after _ _ (λ _. refl) (λ _. account-Settled cfg round l)
launched-Settled cfg round (up pid protocol) l =
    after_monitor-Settled cfg round _ _
      (ap is_active (monitor-state cfg round.started_at round.first round.signals _))

pass-Settled : (cfg : Settings) (round : Round) (l : Loop) → Settled (pass cfg round l)
unfolding pass set_state is_final
pass-Settled cfg round l =
    if-both Settled round.cancelled_before _ _ (λ _. refl)
      (λ _. launched-Settled cfg round round.launch _)

run_from-Settled :
    (cfg : Settings) (l : Loop) (rounds : List Round)
    → is_active l.runner.state ≡ true
    → Settled (run_from cfg l rounds)
unfolding run_from
run_from-Settled cfg l [] active = active
run_from-Settled cfg l (round ∷ rest) active =
    go (pass cfg round l) (pass-Settled cfg round l) (λ l' h. run_from-Settled cfg l' rest h)
  where
    go :
        (p : Progress)
        → Settled p
        → ((l' : Loop) → is_active l'.runner.state ≡ true → Settled (run_from cfg l' rest))
        → Settled
            (elim p [ again l' ↦ run_from cfg l' rest | waiting r ↦ waiting r | ended r ↦ ended r ])
    go (again l') h next = next l' h
    go (waiting r) h next = h
    go (ended r) h next = h

-- The loop of a fresh entry is in an active state until it ends, and then in a final one.
pub run-Settled :
    (cfg : Settings) (r : Runner) (rounds : List Round)
    → is_active r.state ≡ true
    → Settled (run cfg r rounds)
unfolding run
run-Settled cfg r rounds active = run_from-Settled cfg _ rounds active
