-- ===== src/Supervise/Loop/Window.antt =====
-- The crash times that the loop keeps, against the history of the crashes.
use weaveplatform_agent_core.Base.{
  ℕ, ◌≤◌, ◌<◌, ◌-◌, Bool, false, Option, List, [], ◌∷◌, ◌++◌, ◌≡◌, refl, ap, ◌∙◌, arith, leb, keep,
  keep-append, keep-keep, length, if◌then◌else◌, ◌⊎◌, inl, inr, Bool-cases,
}
use weaveplatform_agent_core.Supervise.{Settings, Runner, start_limit_burst, stable_after}
use weaveplatform_agent_core.Supervise.Monitor.{Ending}
use weaveplatform_agent_core.Supervise.Loop.{
  Launch, refused, failed, up, Round, Loop, Progress, again, waiting, ended, recent, prune_crashes,
  after_monitor, launched, pass, run_from, run,
}

-- The module ran for `stable_after` in this pass.
abbrev pub stable_launch : Settings → Round → Launch → Bool
stable_launch cfg round refused = false
stable_launch cfg round failed = false
stable_launch cfg round (up _ _) = leb (stable_after cfg) (round.ended_at - round.started_at)

abbrev pub since_stable : Settings → List ℕ → Round → List ℕ
since_stable cfg h round =
    (if stable_launch cfg round round.launch then [] else h) ++ round.crashed_at ∷ []

-- Every crash time since the last stable run, whatever its age.
unfoldable pub history : Settings → List ℕ → List Round → List ℕ
history cfg h [] = h
history cfg h (round ∷ rest) = history cfg (since_stable cfg h round) rest

abbrev pub last_crash : ℕ → List Round → ℕ
last_crash t [] = t
last_crash t (round ∷ rest) = last_crash round.crashed_at rest

-- The clock does not go back from one crash to the next.
abbrev pub InOrder : ℕ → List Round → Type 0
InOrder t [] = Unit
InOrder t (round ∷ rest) = (t ≤ round.crashed_at) × InOrder round.crashed_at rest

prune-keep :
    (cfg : Settings) (before now : ℕ) (h : List ℕ)
    → before ≤ now
    → prune_crashes cfg now (keep (recent cfg before) h) ≡ keep (recent cfg now) (h ++ now ∷ [])
unfolding prune_crashes
prune-keep cfg before now h le =
    rw (keep-append (recent cfg now) (keep (recent cfg before) h), keep-append (recent cfg now) h)
      (ap (λ xs. xs ++ keep (recent cfg now) (now ∷ []))
        (keep-keep (recent cfg before) (recent cfg now) (λ t r. unfold recent in ground arith) h))

after_monitor-crashes :
    (cfg : Settings) (round : Round) (l : Loop) {l' : Loop} (e : Option Ending)
    → after_monitor cfg round l e ≡ again l'
    → (l'.crashes
        ≡ prune_crashes cfg round.crashed_at
            (if leb (stable_after cfg) (round.ended_at - round.started_at) then [] else l.crashes))
      × (length l'.crashes < start_limit_burst cfg)
unfolding after_monitor
after_monitor-crashes cfg round l e h = ground arith

launched-crashes :
    (cfg : Settings) (round : Round) (launch : Launch) (l : Loop) {l' : Loop}
    → launched cfg round launch l ≡ again l'
    → (l'.crashes
        ≡ prune_crashes cfg round.crashed_at
            (if stable_launch cfg round launch then [] else l.crashes))
      × (length l'.crashes < start_limit_burst cfg)
unfolding launched
launched-crashes cfg round refused l h = cc
launched-crashes cfg round failed l h = ground arith
launched-crashes cfg round (up pid protocol) l h = after_monitor-crashes cfg round _ _ h

pub pass-crashes :
    (cfg : Settings) (round : Round) (l : Loop) {l' : Loop}
    → pass cfg round l ≡ again l'
    → (l'.crashes
        ≡ prune_crashes cfg round.crashed_at
            (if stable_launch cfg round round.launch then [] else l.crashes))
      × (length l'.crashes < start_limit_burst cfg)
unfolding pass
pass-crashes cfg round l h = ground (arith, launched-crashes cfg round round.launch)

pub Progress-cases :
    (p : Progress)
    → ((l : Loop) × (p ≡ again l))
      ⊎ ((r : Runner) × (p ≡ waiting r))
      ⊎ ((r : Runner) × (p ≡ ended r))
Progress-cases (again l) = inl (l, refl)
Progress-cases (waiting r) = inr (inl (r, refl))
Progress-cases (ended r) = inr (inr (r, refl))

pub prune_since :
    (cfg : Settings) (before : ℕ) (h : List ℕ) (round : Round) (crashes : List ℕ)
    → before ≤ round.crashed_at
    → crashes ≡ keep (recent cfg before) h
    → prune_crashes cfg round.crashed_at
        (if stable_launch cfg round round.launch then [] else crashes)
      ≡ keep (recent cfg round.crashed_at) (since_stable cfg h round)
prune_since cfg before h round crashes le e =
    elim (Bool-cases (stable_launch cfg round round.launch)) [
      | inl stable ↦ rw stable (prune-keep cfg before round.crashed_at [] le)
      | inr not_stable ↦ rw (not_stable, e) (prune-keep cfg before round.crashed_at h le)
    ]

run_from-crashes :
    (cfg : Settings) (t : ℕ) (h : List ℕ) (rounds : List Round) (l : Loop) {l' : Loop}
    → l.crashes ≡ keep (recent cfg t) h
    → length l.crashes < start_limit_burst cfg
    → InOrder t rounds
    → run_from cfg l rounds ≡ again l'
    → (l'.crashes ≡ keep (recent cfg (last_crash t rounds)) (history cfg h rounds))
      × (length l'.crashes < start_limit_burst cfg)
unfolding run_from history
run_from-crashes cfg t h [] l e few order r = ground arith
run_from-crashes cfg t h (round ∷ rest) l {l' = l'} e few order r =
    elim (Progress-cases (pass cfg round l)) [
      | inl (m, p) ↦
          run_from-crashes cfg round.crashed_at (since_stable cfg h round) rest m {l' = l'}
            ((pass-crashes cfg round l p).0 ∙ prune_since cfg t h round l.crashes order.0 e)
            (pass-crashes cfg round l p).1 order.1 (rw (p, run_from) at r)
      | inr (inl (m, p)) ↦ ground arith
      | inr (inr (m, p)) ↦ ground arith
    ]

pub burst_pos : (cfg : Settings) → 0 < start_limit_burst cfg
unfolding start_limit_burst
burst_pos cfg = ground arith

-- Whenever `run` is back at its head, with a clock that does not go back, the crash times that it
-- keeps are exactly those since the last stable run that lie within the window before the latest
-- crash, and there are fewer of them than the start limit.
pub run-crashes :
    (cfg : Settings) (r : Runner) (rounds : List Round) {l : Loop}
    → InOrder 0 rounds
    → run cfg r rounds ≡ again l
    → (l.crashes ≡ keep (recent cfg (last_crash 0 rounds)) (history cfg [] rounds))
      × (length l.crashes < start_limit_burst cfg)
unfolding run
run-crashes cfg r rounds {l = l} order h =
    run_from-crashes cfg 0 [] rounds _ {l' = l} refl (burst_pos cfg) order h
