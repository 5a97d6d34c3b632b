-- ===== src/Supervise.antt =====
-- internal/supervise: module processes, their supervision loop and the registry
-- (internal/supervise/supervisor.go, internal/supervise/status.go).
-- A runner's time stamps (`since`) and the surfaces that a module reports are no part of the model.
-- Times and durations are nanoseconds.
pub mod Monitor
pub mod Loop
pub mod Registry
mod Tests
use weaveplatform_agent_core.Base.{ℕ, String, Bool, Option, List, ltb, if◌then◌else◌, ◌*◌}

pub data State : Type 0 where
  pending starting running backoff start_limited unsupported_protocol : State
  requirements_unmet stopped : State

-- `Status.Detail`, with the values that its texts are made of.
pub data Detail : Type 0 where
  empty shutting_down exhausted : Detail
  restarting_after : ℕ → Detail
  missing : List String → Detail

-- agentv1.Health_Status
pub data HealthStatus : Type 0 where
  unspecified healthy degraded unhealthy : HealthStatus

-- The configured fields; 0 stands for "not set", as in the source.
pub record Settings : Type 0 where
  pub start_limit_burst : ℕ
  pub start_limit_window : ℕ
  pub health_strikes : ℕ
  pub stable_after : ℕ
  pub watchdog_interval : ℕ

abbrev pub second : ℕ
second = 1000000000

abbrev or_default : ℕ → ℕ → ℕ
or_default n d = if ltb 0 n then n else d

unfoldable pub start_limit_burst : Settings → ℕ
start_limit_burst s = or_default s.start_limit_burst 5

unfoldable pub start_limit_window : Settings → ℕ
start_limit_window s = or_default s.start_limit_window (600 * second)

unfoldable pub health_strikes : Settings → ℕ
health_strikes s = or_default s.health_strikes 3

unfoldable pub stable_after : Settings → ℕ
stable_after s = or_default s.stable_after (60 * second)

-- What `runner` holds under its lock, and the time of the last watchdog ping.
pub record Runner : Type 0 where
  pub state : State
  pub detail : Detail
  pub pid : ℕ
  pub restarts : ℕ
  pub health : Option HealthStatus
  pub protocol : ℕ
  pub keepalive : ℕ

unfoldable pub set_state : State → Detail → Runner → Runner
set_state st d r = record r { state = st; detail = d }
