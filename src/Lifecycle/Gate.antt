-- ===== src/Lifecycle/Gate.antt =====
-- `healthGate` of internal/lifecycle/lifecycle.go. One `Poll` is one pass of its loop.
pub mod Steady
use weaveplatform_agent_core.Base.{
  ℕ, Bool, true, false, not, Option, none, some, List, [], ◌∷◌, ◌+◌, ◌-◌, ◌*◌, ltb, leb,
  if◌then◌else◌, ◌==◌,
}
use weaveplatform_agent_core.Supervise.{
  State, running, start_limited, unsupported_protocol, requirements_unmet, pending, starting,
  backoff, stopped, HealthStatus, healthy, second,
}

-- `at`: the clock at the loop's test. `status`: what `statusOf` finds. `seen`: the clock where the
-- health is judged. `cancelled`: the caller's context ends before the next pass.
pub record Poll : Type 0 where
  pub at : ℕ
  pub status : Option (State × Option HealthStatus)
  pub seen : ℕ
  pub cancelled : Bool

pub data GateError : Type 0 where
  vanished bad_state cancelled timed_out : GateError

-- What one look at the module decides: an error, or the new `healthySince` and whether it passes.
pub data Look : Type 0 where
  refused : GateError → Look
  since : Option ℕ → Look
  stable : Look

abbrev look_healthy : ℕ → ℕ → Option ℕ → Look
look_healthy window now none = since (some now)
look_healthy window now (some t) = if leb window (now - t) then stable else since (some t)

abbrev pub is_healthy : Option HealthStatus → Bool
is_healthy (some HealthStatus.healthy) = true
is_healthy _ = false

-- The `switch st.State`.
unfoldable pub look : ℕ → ℕ → Option ℕ → State → Option HealthStatus → Look
look window now healthy_since running health =
    if is_healthy health then look_healthy window now healthy_since else since none
look window now healthy_since start_limited health = refused bad_state
look window now healthy_since unsupported_protocol health = refused bad_state
look window now healthy_since requirements_unmet health = refused bad_state
look window now healthy_since pending health = since none
look window now healthy_since starting health = since none
look window now healthy_since backoff health = since none
look window now healthy_since stopped health = since none

unfoldable pub look_at : ℕ → Option ℕ → Poll → Look
unfolding look
look_at window healthy_since p = elim p.status [
  | none ↦ refused vanished
  | some (st, health) ↦ look window p.seen healthy_since st health
]

-- The loop; when the polls are used up the clock has reached the deadline. `none` is Go's nil error.
unfoldable pub gate_loop : ℕ → ℕ → Option ℕ → List Poll → Option GateError
gate_loop deadline window healthy_since [] = some timed_out
gate_loop deadline window healthy_since (p ∷ rest) =
    if ltb p.at deadline
    then elim (look_at window healthy_since p) [
      | refused e ↦ some e
      | stable ↦ none
      | since t ↦
          let next = gate_loop deadline window t rest in
          if p.cancelled then some cancelled else next
    ]
    else some timed_out

pub record Timing : Type 0 where
  pub gate_timeout : ℕ
  pub gate_stable : ℕ

unfoldable pub timeout : Timing → ℕ
timeout t = if t.gate_timeout == 0 then 30 * second else t.gate_timeout

unfoldable pub stable_window : Timing → ℕ
stable_window t = if t.gate_stable == 0 then 3 * second else t.gate_stable

unfoldable pub health_gate : Timing → ℕ → List Poll → Option GateError
unfolding gate_loop
health_gate t start polls = gate_loop (start + timeout t) (stable_window t) none polls
