-- ===== src/Supervise/Loop/Breaker.antt =====
-- The start limit of `run` in internal/supervise/supervisor.go.
use weaveplatform_agent_core.Base.{
  ℕ, ◌+◌, ◌≤◌, ◌<◌, ◌-◌, ◌%◌, ◌^◌, true, false, Option, some, List, [], ◌∷◌, ◌++◌, ◌≡◌, refl, arith,
  leb, keep, keep-all, all, All, length, length-append, if◌then◌else◌, ◌⊎◌, inl, inr, Bool-cases,
  if-false, if-true, ◌∙◌, ap, sym, subst₂,
}
use weaveplatform_agent_core.Supervise.{
  Settings, Runner, starting, running, empty, start_limited, start_limit_burst, start_limit_window,
  stable_after, set_state,
}
use weaveplatform_agent_core.Supervise.Monitor.{
  Reply, Signal, exited, Ending, crashed, killed_unhealthy, monitor,
}
use weaveplatform_agent_core.Supervise.Loop.{
  Launch, refused, failed, up, Round, Loop, Progress, again, ended, recent, prune_crashes, account,
  forgive, after_monitor, launched, pass, run_from, run,
}
use weaveplatform_agent_core.Supervise.Loop.Window.{
  stable_launch, since_stable, history, last_crash, InOrder, run-crashes, prune_since, burst_pos,
}

launched_trips :
    (cfg : Settings) (round : Round) (launch : Launch) (l : Loop) {r : Runner}
    → launched cfg round launch l ≡ ended r
    → r.state ≡ start_limited
    → start_limit_burst cfg
      ≤ length (
          prune_crashes cfg round.crashed_at
            (if stable_launch cfg round launch then [] else l.crashes))
unfolding launched
launched_trips cfg round refused l h s = ground arith
launched_trips cfg round failed l h s = ground arith
launched_trips cfg round (up pid protocol) l h s = ground arith

pass_trips :
    (cfg : Settings) (round : Round) (l : Loop) {r : Runner}
    → pass cfg round l ≡ ended r
    → r.state ≡ start_limited
    → start_limit_burst cfg
      ≤ length (
          prune_crashes cfg round.crashed_at
            (if stable_launch cfg round round.launch then [] else l.crashes))
unfolding pass set_state
pass_trips cfg round l h s = elim (Bool-cases round.cancelled_before) [
  | inl c ↦ ground arith
  | inr c ↦ launched_trips cfg round round.launch _ (rw (c, pass) at h) s
]

-- With a clock that does not go back, the loop ends start-limited only on a crash that makes at
-- least the start limit's number of crashes since the last stable run within the window.
pub pass-start_limited :
    (cfg : Settings) (r : Runner) (rounds : List Round) (round : Round) {l : Loop} {r' : Runner}
    → InOrder 0 rounds
    → last_crash 0 rounds ≤ round.crashed_at
    → run cfg r rounds ≡ again l
    → pass cfg round l ≡ ended r'
    → r'.state ≡ start_limited
    → start_limit_burst cfg
      ≤ length (keep (recent cfg round.crashed_at) (since_stable cfg (history cfg [] rounds) round))
pass-start_limited cfg r rounds round {l = l} order later h p s =
    rw
      (sym (
        prune_since cfg (last_crash 0 rounds) (history cfg [] rounds) round l.crashes later
          (run-crashes cfg r rounds order h).0))
      (pass_trips cfg round l p s)

-- The pass ends in a crash of a module that was not stable, and nobody cancels the context.
abbrev pub Fails : Settings → Round → Launch → Type 0
Fails cfg round refused = ⊥
Fails cfg round failed = round.cancelled_after ≡ false
Fails cfg round (up _ _) =
    (rest : List Signal) × (round.signals ≡ exited ∷ rest)
    × (leb (stable_after cfg) (round.ended_at - round.started_at) ≡ false)

abbrev pub IsCrash : Settings → ℕ → Round → Type 0
IsCrash cfg t round =
    (round.cancelled_before ≡ false)
    × Fails cfg round round.launch
    × (round.cancelled_waiting ≡ false)
    × (t ≤ round.crashed_at)
    × (round.crashed_at ≤ t + start_limit_window cfg)

monitor-exited :
    (cfg : Settings) (now : ℕ) (first : Reply) (rest : List Signal) (r : Runner)
    → ((monitor cfg now first (exited ∷ rest) r).1 ≡ some crashed
        ⊎ (monitor cfg now first (exited ∷ rest) r).1 ≡ some killed_unhealthy)
      × ((monitor cfg now first (exited ∷ rest) r).0.restarts ≡ r.restarts)
unfolding monitor
monitor-exited cfg now first rest r = ground arith

-- What a crash leaves to the accounting.
abbrev Accounted : Settings → Round → Loop → Progress → Type 0
Accounted cfg round l p =
    (l' : Loop) × (p ≡ account cfg round l')
    × (l'.crashes ≡ l.crashes)
    × (l'.runner.restarts ≡ l.runner.restarts)

after_monitor_crash :
    (cfg : Settings) (round : Round) (l : Loop) (e : Option Ending)
    → (e ≡ some crashed) ⊎ (e ≡ some killed_unhealthy)
    → leb (stable_after cfg) (round.ended_at - round.started_at) ≡ false
    → after_monitor cfg round l e ≡ account cfg round l
unfolding after_monitor
after_monitor_crash cfg round l e (inl c) unstable = rw (c, after_monitor, forgive, unstable)
after_monitor_crash cfg round l e (inr c) unstable = rw (c, after_monitor, forgive, unstable)

launched-Fails :
    (cfg : Settings) (round : Round) (launch : Launch) (l : Loop)
    → Fails cfg round launch
    → Accounted cfg round l (launched cfg round launch l)
unfolding launched
launched-Fails cfg round refused l f = absurd f
launched-Fails cfg round failed l f = (l, rw (f, launched), refl, refl)
launched-Fails cfg round (up pid protocol) l (rest, e, unstable) =
    let r : Runner = set_state running empty (record l.runner { pid = pid; protocol = protocol }) in
    let ends = monitor-exited cfg round.started_at round.first rest r in
    (
      record l { runner = (monitor cfg round.started_at round.first (exited ∷ rest) r).0 },
      rw e (after_monitor_crash cfg round _ _ ends.0 unstable),
      refl,
      ends.1,
    )

pass_crash :
    (cfg : Settings) (t : ℕ) (round : Round) (l : Loop)
    → IsCrash cfg t round
    → Accounted cfg round l (pass cfg round l)
unfolding pass set_state
pass_crash cfg t round l h =
    let (l', p, c, n) =
      launched-Fails cfg round round.launch
        (record l { runner = set_state starting empty l.runner }) h.1 in
    (l', if-false _ _ h.0 ∙ p, c, n)

all-recent :
    (cfg : Settings) (t now : ℕ) (ts : List ℕ)
    → now ≤ t + start_limit_window cfg
    → All (λ c. t ≤ c) ts
    → all (recent cfg now) ts ≡ true
unfolding recent
all-recent cfg t now [] le h = refl
all-recent cfg t now (c ∷ ts) le h = ground (arith, all-recent cfg t now ts)

All-concat :
    (t : ℕ) (ts : List ℕ) (now : ℕ)
    → All (λ c. t ≤ c) ts
    → t ≤ now
    → All (λ c. t ≤ c) (ts ++ now ∷ [])
All-concat t [] now h le = (le, tt)
All-concat t (c ∷ ts) now h le = (h.0, All-concat t ts now h.1 le)

-- Within the window nothing is pruned.
prune_none :
    (cfg : Settings) (t : ℕ) (round : Round) (ts : List ℕ)
    → IsCrash cfg t round
    → All (λ c. t ≤ c) ts
    → prune_crashes cfg round.crashed_at ts ≡ ts ++ round.crashed_at ∷ []
unfolding prune_crashes
prune_none cfg t round ts c h = keep-all _ _ (
    all-recent cfg t round.crashed_at (ts ++ round.crashed_at ∷ []) (omega arith)
      (All-concat t ts round.crashed_at h (omega arith)))

-- One crash within the window: either the limit is reached, or the loop goes on with one more.
abbrev AfterCrash : Settings → List ℕ → ℕ → Round → Progress → Type 0
AfterCrash cfg crashes restarts round p =
    ((start_limit_burst cfg ≤ length crashes + 1)
      × ((r : Runner) × (p ≡ ended r)
          × (r.state ≡ start_limited)
          × (r.restarts ≡ (restarts + 1) % 2 ^ 32)))
    ⊎ ((length crashes + 1 < start_limit_burst cfg)
        × ((l' : Loop) × (p ≡ again l')
            × (l'.crashes ≡ crashes ++ round.crashed_at ∷ [])
            × (l'.runner.restarts ≡ (restarts + 1) % 2 ^ 32)))

account_crash :
    (cfg : Settings) (t : ℕ) (round : Round) (l : Loop)
    → IsCrash cfg t round
    → All (λ c. t ≤ c) l.crashes
    → AfterCrash cfg l.crashes l.runner.restarts round (account cfg round l)
unfolding account set_state
account_crash cfg t round l c h =
    let pruned = prune_none cfg t round l.crashes c h in
    elim (Bool-cases
      (leb (start_limit_burst cfg) (length (prune_crashes cfg round.crashed_at l.crashes)))) [
        | inl trips ↦ inl (counted pruned trips, (_, if-true _ _ trips, refl, refl))
        | inr goes_on ↦
            inr (left pruned goes_on, (_, if-false _ _ goes_on ∙ if-false _ _ c.2, pruned, refl))
      ]
  where
    counted :
        prune_crashes cfg round.crashed_at l.crashes ≡ l.crashes ++ round.crashed_at ∷ []
        → leb (start_limit_burst cfg) (length (prune_crashes cfg round.crashed_at l.crashes)) ≡ true
        → start_limit_burst cfg ≤ length l.crashes + 1
    counted e b = ground (arith, length-append l.crashes (round.crashed_at ∷ []))

    left :
        prune_crashes cfg round.crashed_at l.crashes ≡ l.crashes ++ round.crashed_at ∷ []
        → leb (start_limit_burst cfg) (length (prune_crashes cfg round.crashed_at l.crashes))
          ≡ false
        → length l.crashes + 1 < start_limit_burst cfg
    left e b = ground (arith, length-append l.crashes (round.crashed_at ∷ []))

pass_again :
    (cfg : Settings) (t : ℕ) (round : Round) (l : Loop)
    → IsCrash cfg t round
    → All (λ c. t ≤ c) l.crashes
    → AfterCrash cfg l.crashes l.runner.restarts round (pass cfg round l)
pass_again cfg t round l c h =
    let (m, p, e, n) = pass_crash cfg t round l c in
    subst₂ (λ cs k. AfterCrash cfg cs k round (pass cfg round l)) e n
      (rw p (account_crash cfg t round m c (rw e h)))

abbrev pub CrashLoop : Settings → ℕ → List Round → Type 0
CrashLoop cfg t = All (IsCrash cfg t)

run_from-CrashLoop :
    (cfg : Settings) (t : ℕ) (rounds : List Round) (l : Loop)
    → CrashLoop cfg t rounds
    → All (λ c. t ≤ c) l.crashes
    → length l.crashes < start_limit_burst cfg
    → start_limit_burst cfg ≤ length l.crashes + length rounds
    → (r : Runner) × (run_from cfg l rounds ≡ ended r)
      × (r.state ≡ start_limited)
      × (r.restarts ≡ (l.runner.restarts + (start_limit_burst cfg - length l.crashes)) % 2 ^ 32)
unfolding run_from
run_from-CrashLoop cfg t [] l c h few enough = absurd (omega arith)
run_from-CrashLoop cfg t (round ∷ rest) l c h few enough = elim (pass_again cfg t round l c.0 h) [
  | inl (last, (r, p, s, n)) ↦ (r, rw (p, run_from), s, omega arith)
  | inr (more, (l', p, e, n)) ↦
      let len : length l'.crashes ≡ length l.crashes + 1 =
        ap length e ∙ length-append l.crashes (round.crashed_at ∷ []) in
      let kept : All (λ c. t ≤ c) l'.crashes =
        rw e (All-concat t l.crashes round.crashed_at h c.0.3) in
      let (r, q, s, k) = run_from-CrashLoop cfg t rest l' c.1 kept (omega arith) (omega arith) in
      (r, rw (p, run_from) q, s, omega arith)
]

-- A module that crashes at least the start limit's number of times within one window, at launch or
-- by exiting before it is stable, while nobody cancels the context, is never launched again: `run`
-- returns start-limited after exactly that many restarts are counted, whatever would follow.
pub run-CrashLoop :
    (cfg : Settings) (t : ℕ) (r : Runner) (rounds : List Round)
    → CrashLoop cfg t rounds
    → start_limit_burst cfg ≤ length rounds
    → (r' : Runner) × (run cfg r rounds ≡ ended r')
      × (r'.state ≡ start_limited)
      × (r'.restarts ≡ (r.restarts + start_limit_burst cfg) % 2 ^ 32)
unfolding run
run-CrashLoop cfg t r rounds c enough =
    let (r', e, s, n) =
      run_from-CrashLoop cfg t rounds (record { runner = r; crashes = []; attempt = 0 }) c tt
        (burst_pos cfg) (omega arith) in
    (r', e, s, omega arith)
