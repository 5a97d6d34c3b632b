-- ===== src/Supervise/Monitor/Strikes.antt =====
-- Which answers to health polls make `monitor` kill a module.
use weaveplatform_agent_core.Base.{
  ℕ, suc, ◌-◌, ◌<◌, ◌≤◌, zero, Bool, true, false, ◌&&◌, ◌||◌, Option, some, List, [], ◌∷◌, map, ◌≡◌,
  refl, arith, leb, if◌then◌else◌, Bool-cases, inl, inr, ◌∙◌, sym, ltb,
}
use weaveplatform_agent_core.Supervise.{Settings, Runner, HealthStatus, health_strikes}
use weaveplatform_agent_core.Supervise.Monitor.{
  Reply, failed, replied, tick, Ending, killed_unhealthy, poll_health, monitor_loop, monitor,
}

-- An error or an unhealthy status counts as a strike; degraded, unspecified and nil do not.
abbrev pub is_bad : Reply → Bool
is_bad failed = true
is_bad (replied (some HealthStatus.unhealthy)) = true
is_bad (replied _) = false

-- The list begins with `n` bad replies.
unfoldable pub starts_bad : ℕ → List Reply → Bool
starts_bad zero rs = true
starts_bad (suc n) [] = false
starts_bad (suc n) (r ∷ rs) = is_bad r && starts_bad n rs

-- Somewhere in the list stand `n` bad replies in a row.
unfoldable pub has_streak : ℕ → List Reply → Bool
has_streak n [] = starts_bad n []
has_streak n (r ∷ rs) = starts_bad n (r ∷ rs) || has_streak n rs

abbrev pub killed_for_health : Option Ending → Bool
killed_for_health (some killed_unhealthy) = true
killed_for_health _ = false

starts_bad_fewer :
    (n k : ℕ) (rs : List Reply) → k ≤ n → starts_bad n rs ≡ true → starts_bad k rs ≡ true
unfolding starts_bad
starts_bad_fewer n zero rs le h = refl
starts_bad_fewer zero (suc k) rs le h = absurd (omega arith)
starts_bad_fewer (suc n) (suc k) [] le h = cc
starts_bad_fewer (suc n) (suc k) (r ∷ rs) le h = ground (arith, starts_bad_fewer n k rs)

starts_bad-streak : (n : ℕ) (rs : List Reply) → starts_bad n rs ≡ true → has_streak n rs ≡ true
unfolding has_streak
starts_bad-streak n [] h = h
starts_bad-streak n (r ∷ rs) h = ground arith

poll_bad :
    (cfg : Settings) (reply : Reply) (r : Runner) (s : ℕ)
    → is_bad reply ≡ true
    → (poll_health cfg reply r s).1 ≡ suc s
unfolding poll_health
poll_bad cfg failed r s h = refl
poll_bad cfg (replied h) r s b = ground arith

poll_good :
    (cfg : Settings) (reply : Reply) (r : Runner) (s : ℕ)
    → is_bad reply ≡ false
    → (poll_health cfg reply r s).1 ≡ 0
unfolding poll_health
poll_good cfg failed r s h = cc
poll_good cfg (replied h) r s b = ground arith

poll_restart :
    (cfg : Settings) (reply : Reply) (r : Runner) (s : ℕ)
    → (poll_health cfg reply r s).2 ≡ leb (health_strikes cfg) (poll_health cfg reply r s).1
unfolding poll_health
poll_restart cfg failed r s = refl
poll_restart cfg (replied h) r s = refl

pub strikes_pos : (cfg : Settings) → 0 < health_strikes cfg
unfolding health_strikes
strikes_pos cfg = ground arith

starts_bad_step :
    (n : ℕ) (r : Reply) (rs : List Reply)
    → 0 < n
    → starts_bad n (r ∷ rs) ≡ (is_bad r && starts_bad (n - 1) rs)
unfolding starts_bad
starts_bad_step zero r rs h = absurd (omega arith)
starts_bad_step (suc n) r rs h = let e : suc n - 1 ≡ n = omega arith in rw e

starts_bad_nil : (n : ℕ) → 0 < n → starts_bad n [] ≡ false
unfolding starts_bad
starts_bad_nil zero h = absurd (omega arith)
starts_bad_nil (suc n) h = refl

starts_bad_none : (n : ℕ) (rs : List Reply) → n ≡ 0 → starts_bad n rs ≡ true
starts_bad_none n rs e = rw e (unfold starts_bad in refl)

loop_ticks :
    (cfg : Settings) (rs : List Reply) (r : Runner) (s : ℕ)
    → s < health_strikes cfg
    → killed_for_health (monitor_loop cfg r s (map tick rs)).1
      ≡ (starts_bad (health_strikes cfg - s) rs || has_streak (health_strikes cfg) rs)
unfolding monitor_loop has_streak
loop_ticks cfg [] r s lt =
    rw (starts_bad_nil _ (strikes_pos cfg), starts_bad_nil (health_strikes cfg - s) (omega arith))
loop_ticks cfg (reply ∷ rs) r s lt =
    let limit = health_strikes cfg in
    elim (Bool-cases (is_bad reply)) [
      | inl bad ↦ elim (Bool-cases (leb limit (suc s))) [
        | inl over ↦ ground (
          arith,
          bad,
          poll_restart cfg reply r s,
          poll_bad cfg reply r s bad,
          starts_bad_step (limit - s) reply rs (omega arith),
          starts_bad_none (limit - s - 1) rs (ground arith),
        )
        | inr under ↦ ground (
          arith,
          bad,
          poll_restart cfg reply r s,
          poll_bad cfg reply r s bad,
          starts_bad_step (limit - s) reply rs (omega arith),
          starts_bad_step limit reply rs (strikes_pos cfg),
          loop_ticks cfg rs (poll_health cfg reply r s).0 (poll_health cfg reply r s).1,
          starts_bad_fewer (limit - 1) (limit - s - 1) rs,
        )
      ]
      | inr good ↦ ground (
        arith,
        good,
        poll_restart cfg reply r s,
        poll_good cfg reply r s good,
        starts_bad_step (limit - s) reply rs (omega arith),
        starts_bad_step limit reply rs (strikes_pos cfg),
        loop_ticks cfg rs (poll_health cfg reply r s).0 (poll_health cfg reply r s).1,
        starts_bad-streak limit rs,
        strikes_pos cfg,
      )
    ]

-- When nothing but health polls happens, `monitor` kills the module exactly if the configured number
-- of strikes in a row stands somewhere among the replies, the immediate first poll included: an
-- error or an unhealthy status is a strike, and any other status clears the strikes before it.
pub monitor-has_streak :
    (cfg : Settings) (now : ℕ) (first : Reply) (rs : List Reply) (r : Runner)
    → killed_for_health (monitor cfg now first (map tick rs) r).1
      ≡ has_streak (health_strikes cfg) (first ∷ rs)
unfolding monitor
monitor-has_streak cfg now first rs r =
    let start : Runner =
      (if ltb 0 cfg.watchdog_interval then record r { keepalive = now } else r) in
    loop_ticks cfg (first ∷ rs) start 0 (strikes_pos cfg)
    ∙ (let e : health_strikes cfg - 0 ≡ health_strikes cfg = omega arith in
        rw e (absorb _ _ (starts_bad-streak (health_strikes cfg) (first ∷ rs))))
  where
    absorb : (a b : Bool) → (a ≡ true → b ≡ true) → (a || b) ≡ b
    absorb true b h = sym (h refl)
    absorb false b h = refl
