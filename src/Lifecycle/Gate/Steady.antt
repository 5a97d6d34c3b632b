-- ===== src/Lifecycle/Gate/Steady.antt =====
-- What it takes to pass the health gate.
use weaveplatform_agent_core.Base.{
  ℕ, false, Option, none, some, List, [], ◌∷◌, ◌+◌, ◌-◌, ◌≤◌, ◌<◌, ◌≡◌, refl, ◌⊎◌, inl, inr, arith,
  subst, All,
}
use weaveplatform_agent_core.Supervise.{running, healthy}
use weaveplatform_agent_core.Lifecycle.Gate.{
  Poll, Look, refused, since, stable, GateError, look_at, gate_loop, Timing, timeout, stable_window,
  health_gate,
}

-- The poll finds the module running and healthy, before the deadline.
abbrev pub IsGood : ℕ → Poll → Type 0
IsGood deadline p = (p.at < deadline) × (p.status ≡ some (running, some healthy))

-- From `t` on every poll is good, up to one that is seen a whole window after `t`.
abbrev pub SteadyFrom : ℕ → ℕ → ℕ → List Poll → Type 0
SteadyFrom deadline window t [] = ⊥
SteadyFrom deadline window t (p ∷ rest) =
    IsGood deadline p × ((window ≤ p.seen - t) ⊎ SteadyFrom deadline window t rest)

-- Some poll is good, and the polls behind it are steady from it on.
abbrev pub BecomesSteady : ℕ → ℕ → List Poll → Type 0
BecomesSteady deadline window [] = ⊥
BecomesSteady deadline window (p ∷ rest) =
    (IsGood deadline p × SteadyFrom deadline window p.seen rest)
    ⊎ BecomesSteady deadline window rest

abbrev Passing : ℕ → ℕ → Option ℕ → List Poll → Type 0
Passing deadline window none polls = BecomesSteady deadline window polls
Passing deadline window (some t) polls =
    SteadyFrom deadline window t polls ⊎ BecomesSteady deadline window polls

Look-cases :
    (l : Look)
    → ((e : GateError) × (l ≡ refused e)) ⊎ ((t : Option ℕ) × (l ≡ since t)) ⊎ (l ≡ stable)
Look-cases (refused e) = inl (e, refl)
Look-cases (since t) = inr (inl (t, refl))
Look-cases stable = inr (inr refl)

look_stable :
    (window : ℕ) (h : Option ℕ) (p : Poll)
    → look_at window h p ≡ stable
    → (t : ℕ) × (h ≡ some t) × (p.status ≡ some (running, some healthy)) × (window ≤ p.seen - t)
unfolding look_at
look_stable window none p e = ground arith
look_stable window (some t) p e = (t, refl, ground arith, ground arith)

look_since_some :
    (window : ℕ) (h : Option ℕ) (p : Poll) (t : ℕ)
    → look_at window h p ≡ since (some t)
    → (p.status ≡ some (running, some healthy)) × ((h ≡ some t) ⊎ ((h ≡ none) × (t ≡ p.seen)))
unfolding look_at
look_since_some window none p t e = ground arith
look_since_some window (some u) p t e = ground arith

-- A poll in front of a passing tail, when its look leaves the timer at `t`.
pass-since :
    (deadline window : ℕ) (h t : Option ℕ) (p : Poll) (rest : List Poll)
    → p.at < deadline
    → look_at window h p ≡ since t
    → Passing deadline window t rest
    → Passing deadline window h (p ∷ rest)
pass-since deadline window none none p rest lt e k = inr k
pass-since deadline window (some u) none p rest lt e k = inr (inr k)
pass-since deadline window none (some t) p rest lt e (inr k) = inr k
pass-since deadline window (some u) (some t) p rest lt e (inr k) = inr (inr k)
pass-since deadline window none (some t) p rest lt e (inl k) =
    elim (look_since_some window none p t e).1 [
      | inl old ↦ cc
      | inr (_, now) ↦ inl (
        (lt, (look_since_some window none p t e).0),
        subst (λ u. SteadyFrom deadline window u rest) now k,
      )
    ]
pass-since deadline window (some u) (some t) p rest lt e (inl k) =
    elim (look_since_some window (some u) p t e).1 [
      | inl old ↦
          let same : t ≡ u = ground arith in
          inl (
            (lt, (look_since_some window (some u) p t e).0),
            inr (subst (λ u. SteadyFrom deadline window u rest) same k),
          )
      | inr (absent, _) ↦ cc
    ]

pass-stable :
    (deadline window : ℕ) (h : Option ℕ) (p : Poll) (rest : List Poll)
    → p.at < deadline
    → look_at window h p ≡ stable
    → Passing deadline window h (p ∷ rest)
pass-stable deadline window none p rest lt e =
    let (t, absent, _, _) = look_stable window none p e in cc
pass-stable deadline window (some u) p rest lt e =
    let (t, same, good, long) = look_stable window (some u) p e in
    let eq : t ≡ u = ground arith in
    inl ((lt, good), inl (subst (λ v. window ≤ p.seen - v) eq long))

loop-Passing :
    (deadline window : ℕ) (h : Option ℕ) (polls : List Poll)
    → gate_loop deadline window h polls ≡ none
    → Passing deadline window h polls
unfolding gate_loop
loop-Passing deadline window h [] e = cc
loop-Passing deadline window h (p ∷ rest) e =
    let lt : p.at < deadline = ground arith in
    elim (Look-cases (look_at window h p)) [
      | inl (x, l) ↦ ground arith
      | inr (inl (t, l)) ↦
          pass-since deadline window h t p rest lt l
            (loop-Passing deadline window t rest (ground arith))
      | inr (inr l) ↦ pass-stable deadline window h p rest lt l
    ]

-- The gate passes only a module that became steady: some poll before the deadline finds it running
-- and healthy, and so does every later one, up to a poll that is seen a whole window after the first.
pub health_gate-BecomesSteady :
    (t : Timing) (start : ℕ) (polls : List Poll)
    → health_gate t start polls ≡ none
    → BecomesSteady (start + timeout t) (stable_window t) polls
unfolding health_gate
health_gate-BecomesSteady t start polls h = loop-Passing _ _ none polls h

steady_passes :
    (deadline window t : ℕ) (polls : List Poll)
    → SteadyFrom deadline window t polls
    → All (λ p. p.cancelled ≡ false) polls
    → gate_loop deadline window (some t) polls ≡ none
unfolding gate_loop look_at
steady_passes deadline window t [] k free = absurd k
steady_passes deadline window t (p ∷ rest) k free = elim k.1 [
  | inl long ↦ ground arith
  | inr later ↦ ground (arith, steady_passes deadline window t rest later free.1)
]

-- A module that is running and healthy from the first poll on, to one a whole window later, passes,
-- provided that the caller's context lives.
pub health_gate_steady :
    (t : Timing) (start : ℕ) (p : Poll) (rest : List Poll)
    → IsGood (start + timeout t) p
    → SteadyFrom (start + timeout t) (stable_window t) p.seen rest
    → All (λ q. q.cancelled ≡ false) (p ∷ rest)
    → health_gate t start (p ∷ rest) ≡ none
unfolding health_gate gate_loop look_at
health_gate_steady t start p rest good k free =
    ground (arith, steady_passes (start + timeout t) (stable_window t) p.seen rest k free.1)
