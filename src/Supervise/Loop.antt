-- ===== src/Supervise/Loop.antt =====
-- `run` of internal/supervise/supervisor.go: launch, monitor, crash accounting, back-off.
-- Each pass through the loop takes what the environment answers in it from a `Round`.
pub mod Window
pub mod Breaker
pub mod States
use weaveplatform_agent_core.Base.{
  ℕ, suc, Bool, true, false, Option, none, some, List, [], ◌∷◌, ◌++◌, leb, ◌+◌, ◌-◌, ◌%◌, ◌^◌,
  if◌then◌else◌, keep, length,
}
use weaveplatform_agent_core.Supervise.{
  Settings, Runner, Detail, starting, running, backoff, start_limited, unsupported_protocol,
  stopped, empty, shutting_down, exhausted, restarting_after, set_state, start_limit_burst,
  start_limit_window, stable_after,
}
use weaveplatform_agent_core.Supervise.Monitor.{Reply, Signal, Ending, is_clean, monitor}

pub data Launch : Type 0 where
  -- errProtocolUnsupported
  refused : Launch
  -- any other error
  failed : Launch
  -- a process with its pid and protocol
  up : ℕ → ℕ → Launch

-- What happens in one pass. `cancelled_before`, `cancelled_after` and `cancelled_waiting` are the
-- context's state at the loop's head, after a failed launch and during the delay.
pub record Round : Type 0 where
  pub cancelled_before : Bool
  pub launch : Launch
  pub cancelled_after : Bool
  pub started_at : ℕ
  pub first : Reply
  pub signals : List Signal
  pub ended_at : ℕ
  pub crashed_at : ℕ
  pub delay : ℕ
  pub cancelled_waiting : Bool

-- The loop's variables.
pub record Loop : Type 0 where
  pub runner : Runner
  pub crashes : List ℕ
  pub attempt : ℕ

-- `again`: at the loop's head. `waiting`: still in `monitor`. `ended`: `run` has returned.
pub data Progress : Type 0 where
  again : Loop → Progress
  waiting ended : Runner → Progress

-- now.Sub(t) <= startLimitWindow()
unfoldable pub recent : Settings → ℕ → ℕ → Bool
unfolding start_limit_window
recent cfg now t = leb now (t + start_limit_window cfg)

-- The crash times that are kept when another crash happens.
unfoldable pub prune_crashes : Settings → ℕ → List ℕ → List ℕ
prune_crashes cfg now crashes = keep (recent cfg now) (crashes ++ now ∷ [])

abbrev count_restart : Runner → Runner
count_restart r = record r { restarts = (r.restarts + 1) % 2 ^ 32 }

-- The second half of the loop's body: crash accounting, the breaker, the delay.
unfoldable pub account : Settings → Round → Loop → Progress
unfolding set_state
account cfg round l =
    let crashes = prune_crashes cfg round.crashed_at l.crashes in
    let r = count_restart l.runner in
    if leb (start_limit_burst cfg) (length crashes)
    then ended (set_state start_limited exhausted r)
    else if round.cancelled_waiting
    then ended (set_state stopped shutting_down r)
    else again (record {
      runner = set_state backoff (restarting_after round.delay) r;
      crashes = crashes;
      attempt = l.attempt + 1;
    })

-- A crash after a stable run starts the accounting anew.
unfoldable pub forgive : Settings → Round → Loop → Loop
unfolding stable_after
forgive cfg round l =
    if leb (stable_after cfg) (round.ended_at - round.started_at)
    then record l { crashes = []; attempt = 0 }
    else l

-- What follows `monitor`.
unfoldable pub after_monitor : Settings → Round → Loop → Option Ending → Progress
unfolding account forgive set_state is_clean
after_monitor cfg round l none = waiting l.runner
after_monitor cfg round l (some e) =
    if is_clean e
    then ended (set_state stopped empty l.runner)
    else account cfg round (forgive cfg round l)

-- The first half of the loop's body, by the result of `launch`; the runner is already `starting`.
unfoldable pub launched : Settings → Round → Launch → Loop → Progress
unfolding after_monitor account set_state monitor
launched cfg round refused l = ended (set_state unsupported_protocol empty l.runner)
launched cfg round failed l =
    if round.cancelled_after
    then ended (set_state stopped shutting_down l.runner)
    else account cfg round l
launched cfg round (up pid protocol) l =
    let r = record l.runner { pid = pid; protocol = protocol } in
    let (r', ending) =
      monitor cfg round.started_at round.first round.signals (set_state running empty r) in
    after_monitor cfg round (record l { runner = r' }) ending

unfoldable pub pass : Settings → Round → Loop → Progress
unfolding launched set_state
pass cfg round l =
    if round.cancelled_before
    then ended (set_state stopped shutting_down l.runner)
    else launched cfg round round.launch (record l { runner = set_state starting empty l.runner })

-- `run`, from the loop's head, for as many passes as the environment answers.
unfoldable pub run_from : Settings → Loop → List Round → Progress
run_from cfg l [] = again l
run_from cfg l (round ∷ rest) = elim (pass cfg round l) [
  | again l' ↦ run_from cfg l' rest
  | waiting r ↦ waiting r
  | ended r ↦ ended r
]

unfoldable pub run : Settings → Runner → List Round → Progress
unfolding run_from
run cfg r rounds = run_from cfg (record { runner = r; crashes = []; attempt = 0 }) rounds
