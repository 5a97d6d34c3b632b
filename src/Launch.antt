-- ===== src/Launch.antt =====
-- From a module's binary to a started module, and back: internal/supervise/launch.go. The operating
-- system and the module enter as the outcome of each call (`World`); what launch does with processes,
-- listeners and connections is the list of its effects, in order.
pub mod Held
pub mod Checked
pub mod Capture
mod Tests
use weaveplatform_agent_core.Base.{
  ℕ, String, Bool, true, false, not, Option, none, some, List, [], ◌∷◌, ◌++◌, keep, lookup, Dict,
  ◌==◌, if◌then◌else◌,
}
use weaveplatform_agent_core.Capability.{CapabilitySet}
use weaveplatform_agent_core.Store.{Bytes}
use weaveplatform_agent_core.Handshake.{
  Line, Parsed, parsed, rejected, parse, Window, contains, exit_protocol_unsupported,
}

pub data Effect : Type 0 where
  -- the host server is serving, the process runs, it is contained, the connection is open
  served : Effect
  spawned : Effect
  contained : Effect
  connected : Effect
  -- the process has ended by itself, or is killed
  exited : Effect
  killed : Effect
  closed_job : Effect
  stopped_host : Effect
  closed_conn : Effect

-- What the select on the first line, the exit, the timeout and the context yields.
pub data First : Type 0 where
  first_line_is : Bytes → First
  -- with the exit code, where there is a process state
  exited_first : Option ℕ → First
  timed_out : First
  context_done : String → First

-- The module's answer to Init: an error, or the names it requires.
pub data InitAnswer : Type 0 where
  init_failed : String → InitAnswer
  init_requires : List String → InitAnswer

-- The error of each call, `none` where there is none.
pub record World : Type 0 where
  pub verify_error : Option String
  pub remove_error : Option String
  pub mkdir_error : Option String
  pub rand_error : Option String
  pub listen_error : Option String
  pub prepare_error : Option String
  pub privilege_error : Option String
  pub exec_error : Option String
  pub post_spawn_error : Option String
  pub first : First
  pub dial_error : Option String
  pub init_answer : InitAnswer
  pub start_error : Option String

-- The supervisor's window and capabilities.
pub record Harness : Type 0 where
  pub window : Window
  pub caps : CapabilitySet

pub data Verdict : Type 0 where
  launched : Line → Verdict
  launch_failed : String → Verdict
  protocol_unsupported : Verdict

pub record Outcome : Type 0 where
  pub trace : List Effect
  pub verdict : Verdict

abbrev pub perform : Effect → Outcome → Outcome
perform e o = record { trace = e ∷ o.trace; verdict = o.verdict }

abbrev pub give_up : List Effect → String → Outcome
give_up cleanup why = record { trace = cleanup; verdict = launch_failed why }

-- if err != nil { clean up and return }
abbrev pub check : Option String → List Effect → Outcome → Outcome
check none cleanup rest = rest
check (some why) cleanup rest = give_up cleanup why

-- fail, cleanupProc, and cleanupProc after conn.Close. `killed` is the call of killProc, whose error the
-- source ignores, and which does not wait for the process.
abbrev pub fail_cleanup : List Effect
fail_cleanup = stopped_host ∷ []

abbrev pub proc_cleanup : List Effect
proc_cleanup = killed ∷ closed_job ∷ stopped_host ∷ []

abbrev pub conn_cleanup : List Effect
conn_cleanup = closed_conn ∷ proc_cleanup

abbrev pub is_missing : Option (Dict String) → Bool
is_missing none = true
is_missing (some attributes) = false

unfoldable pub missing_caps : CapabilitySet → List String → List String
missing_caps caps names = keep (λ name. is_missing (lookup name caps)) names

abbrev pub start_module : World → Line → List String → Outcome
start_module w line [] =
    check w.start_error conn_cleanup (record { trace = []; verdict = launched line })
start_module w line (name ∷ names) = give_up conn_cleanup "runtime requirements unmet"

abbrev pub after_init : World → Harness → Line → InitAnswer → Outcome
after_init w h line (init_failed why) = give_up conn_cleanup why
after_init w h line (init_requires names) = start_module w line (missing_caps h.caps names)

abbrev pub after_parse : World → Harness → Parsed → Outcome
after_parse w h (rejected why) = give_up proc_cleanup "handshake"
after_parse w h (parsed line) =
    if contains h.window line.protocol
    then check w.dial_error proc_cleanup (perform connected (after_init w h line w.init_answer))
    else give_up proc_cleanup "module claimed protocol outside window"

abbrev pub exit_verdict : Option ℕ → Verdict
exit_verdict none = launch_failed "module exited before handshake"
exit_verdict (some code) =
    if code == exit_protocol_unsupported
    then protocol_unsupported
    else launch_failed "module exited before handshake"

abbrev pub after_first : World → Harness → First → Outcome
after_first w h (first_line_is raw) = after_parse w h (parse raw)
after_first w h (exited_first code) = record {
  trace = exited ∷ closed_job ∷ stopped_host ∷ [];
  verdict = exit_verdict code;
}
after_first w h timed_out = give_up proc_cleanup "timeout waiting for handshake line"
after_first w h (context_done why) = give_up proc_cleanup why

abbrev pub spawn : World → Harness → Outcome
spawn w h = check w.prepare_error fail_cleanup (
    check w.privilege_error fail_cleanup (
      check w.exec_error fail_cleanup (
        perform spawned (
          check w.post_spawn_error (killed ∷ stopped_host ∷ [])
            (perform contained (after_first w h w.first))))))

unfoldable pub launch : World → Harness → Outcome
launch w h = check w.verify_error [] (
    check w.remove_error [] (
      check w.mkdir_error []
        (check w.rand_error [] (check w.listen_error [] (perform served (spawn w h))))))

abbrev pub teardown : List Effect
teardown = closed_conn ∷ stopped_host ∷ closed_job ∷ []

-- `stop`: the module has ended within the grace or is killed; errors of Stop and Shutdown are logged.
unfoldable pub stop : Bool → List Effect
stop in_time = if in_time then exited ∷ teardown else killed ∷ exited ∷ teardown

unfoldable pub kill : List Effect
kill = killed ∷ exited ∷ teardown
