-- ===== src/Launch/Held.antt =====
-- What `launch`, `stop` and `kill` of internal/supervise/launch.go hold when they return.
use weaveplatform_agent_core.Base.{
  String, Bool, true, false, Option, none, some, List, [], ◌∷◌, ◌==◌, if-both, ◌≡◌, refl,
}
use weaveplatform_agent_core.Handshake.{
  Line, Parsed, parsed, rejected, parse, contains, exit_protocol_unsupported,
}
use weaveplatform_agent_core.Launch.{
  Effect, served, spawned, contained, connected, exited, killed, closed_job, stopped_host,
  closed_conn, First, first_line_is, exited_first, timed_out, context_done, InitAnswer, init_failed,
  init_requires, World, Harness, Verdict, launched, launch_failed, protocol_unsupported, Outcome,
  perform, check, fail_cleanup, proc_cleanup, conn_cleanup, missing_caps, start_module, after_init,
  after_parse, after_first, spawn, launch, stop, kill,
}

-- What is running or open.
pub record Resources : Type 0 where
  pub host_server : Bool
  pub process : Bool
  pub job : Bool
  pub connection : Bool

abbrev pub nothing : Resources
nothing = record { host_server = false; process = false; job = false; connection = false }

abbrev pub everything : Resources
everything = record { host_server = true; process = true; job = true; connection = true }

abbrev pub apply_effect : Effect → Resources → Resources
apply_effect served r = record r { host_server = true }
apply_effect spawned r = record r { process = true }
apply_effect contained r = record r { job = true }
apply_effect connected r = record r { connection = true }
apply_effect exited r = record r { process = false }
apply_effect killed r = record r { process = false }
apply_effect closed_job r = record r { job = false }
apply_effect stopped_host r = record r { host_server = false }
apply_effect closed_conn r = record r { connection = false }

unfoldable pub held : List Effect → Resources → Resources
held [] r = r
held (e ∷ es) r = held es (apply_effect e r)

-- All of it if the module is launched, and nothing otherwise.
abbrev pub due : Verdict → Resources
due (launched line) = everything
due (launch_failed why) = nothing
due protocol_unsupported = nothing

Settles : Resources → Outcome → Type 0
Settles r o = held o.trace r ≡ due o.verdict

check-Settles :
    (r : Resources) (error : Option String) (cleanup : List Effect) (o : Outcome)
    → held cleanup r ≡ nothing
    → Settles r o
    → Settles r (check error cleanup o)
unfolding Settles
check-Settles r none cleanup o clean h = h
check-Settles r (some why) cleanup o clean h = clean

abbrev running : Resources
running = record { host_server = true; process = true; job = true; connection = false }

started-Settles :
    (w : World) (line : Line) (names : List String) → Settles everything (start_module w line names)
unfolding Settles held
started-Settles w line [] =
    check-Settles everything w.start_error conn_cleanup
      (record { trace = []; verdict = launched line }) refl refl
started-Settles w line (name ∷ names) = refl

inited-Settles :
    (w : World) (h : Harness) (line : Line) (a : InitAnswer)
    → Settles everything (after_init w h line a)
unfolding Settles held
inited-Settles w h line (init_failed why) = refl
inited-Settles w h line (init_requires names) = started-Settles w line (missing_caps h.caps names)

parsed-Settles : (w : World) (h : Harness) (p : Parsed) → Settles running (after_parse w h p)
unfolding Settles held
parsed-Settles w h (rejected why) = refl
parsed-Settles w h (parsed line) =
    if-both (Settles running) (contains h.window line.protocol) _ _
      (λ inside.
        check-Settles running w.dial_error proc_cleanup
          (perform connected (after_init w h line w.init_answer)) refl
          (inited-Settles w h line w.init_answer))
      (λ outside. refl)

first-Settles : (w : World) (h : Harness) (f : First) → Settles running (after_first w h f)
unfolding Settles held
first-Settles w h (first_line_is raw) = parsed-Settles w h (parse raw)
first-Settles w h (exited_first none) = refl
first-Settles w h (exited_first (some code)) =
    if-both (λ v. nothing ≡ due v) (code == exit_protocol_unsupported) _ _ (λ e. refl) (λ e. refl)
first-Settles w h timed_out = refl
first-Settles w h (context_done why) = refl

-- Whatever fails and whatever the module does: a launch that succeeds holds the host server, the
-- process, its containment and the connection; one that does not, whether it failed or the module
-- refused the protocol, has left none of them running or open. And stopping or killing a launched
-- module leaves none of them, whether or not it ends in time.
pub launch_releases :
    (w : World) (h : Harness) (in_time : Bool)
    → (held (launch w h).trace nothing ≡ due (launch w h).verdict)
      × (held (stop in_time) everything ≡ nothing)
      × (held kill everything ≡ nothing)
unfolding launch Settles held stop kill
launch_releases w h in_time = (begun, stopped in_time, refl)
  where
    hosting : Resources
    hosting = record { host_server = true; process = false; job = false; connection = false }

    alone : Resources
    alone = record { host_server = true; process = true; job = false; connection = false }

    after_host : Settles hosting (spawn w h)
    after_host = check-Settles hosting w.prepare_error fail_cleanup _ refl (
        check-Settles hosting w.privilege_error fail_cleanup _ refl (
          check-Settles hosting w.exec_error fail_cleanup _ refl (
            check-Settles alone w.post_spawn_error (killed ∷ stopped_host ∷ [])
              (perform contained (after_first w h w.first)) refl (first-Settles w h w.first))))

    begun : Settles nothing (launch w h)
    begun = check-Settles nothing w.verify_error [] _ refl (
        check-Settles nothing w.remove_error [] _ refl (
          check-Settles nothing w.mkdir_error [] _ refl (
            check-Settles nothing w.rand_error [] _ refl (
              check-Settles nothing w.listen_error [] (perform served (spawn w h)) refl
                after_host))))

    stopped : (b : Bool) → held (stop b) everything ≡ nothing
    stopped true = refl
    stopped false = refl
