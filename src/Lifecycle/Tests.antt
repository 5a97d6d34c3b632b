-- ===== src/Lifecycle/Tests.antt =====
-- Promotions and rollbacks on concrete trees.
use weaveplatform_agent_core.Base.{
  String, false, none, some, [], ◌∷◌, ◌+◌, ◌≡◌, refl, lookup, insert, remove, arith, inl, inr,
  eq_iff,
}
use weaveplatform_agent_core.Lifecycle.Samples.{
  window, good, passes, fails, at_version, dir_of, installed, answers, flip,
}
use weaveplatform_agent_core.Capability.{has}
use weaveplatform_agent_core.Supervise.{set_state}
use weaveplatform_agent_core.Supervise.Registry.{add, gate, replace, stop_module}
use weaveplatform_agent_core.Lifecycle.Gate.{
  timed_out, timeout, stable_window, look, look_at, gate_loop, health_gate,
}
use weaveplatform_agent_core.Lifecycle.Gate.Steady.{
  BecomesSteady, health_gate-BecomesSteady, health_gate_steady,
}
use weaveplatform_agent_core.Lifecycle.Disk.{
  VersionDir, gate_failed, promote_failed, binary_name, find_binary, settle, swapped, launched,
  activate, prune,
}
use weaveplatform_agent_core.Lifecycle.Disk.Activate.{IsRegular}
use weaveplatform_agent_core.Lifecycle.Promote.{
  Faults, moved, restore, retain, promoted, attempt, promote, rollback,
}
use weaveplatform_agent_core.Lifecycle.Promote.Failed.{SameMarkers, Holds, promote-SameMarkers}
use weaveplatform_agent_core.Lifecycle.Promote.Succeeded.{IsRetained, promote-IsRetained}
use weaveplatform_agent_core.Lifecycle.Promote.Flip.{rollback_twice}
use weaveplatform_agent_core.Lifecycle.Promote.Stopped.{RunsOld, promote-RunsOld}

passes_gate : health_gate window 0 passes.polls ≡ none
unfolding health_gate gate_loop look_at look timeout stable_window
passes_gate = refl

fails_gate : health_gate window 0 fails.polls ≡ some timed_out
unfolding health_gate gate_loop look_at look timeout stable_window
fails_gate = refl

health_gate-BecomesSteady_example :
    BecomesSteady (0 + timeout window) (stable_window window) passes.polls
health_gate-BecomesSteady_example = health_gate-BecomesSteady window 0 passes.polls passes_gate

health_gate_steady_example : health_gate window 0 (good 1 ∷ good 6 ∷ good 11 ∷ []) ≡ none
unfolding timeout stable_window
health_gate_steady_example =
    health_gate_steady window 0 (good 1) (good 6 ∷ good 11 ∷ []) (omega arith, refl)
      ((omega arith, refl), inr ((omega arith, refl), inl (omega arith))) (refl, (refl, (refl, tt)))

installed-IsRegular : IsRegular "sysinfo" installed.tree
unfolding lookup
installed-IsRegular = record {
  at = λ v d mf found m. ground (arith, eq_iff "1.0.0" v, eq_iff "0.9.0" v);
}

dir-Holds : (v : String) → Holds (dir_of v) (at_version v)
dir-Holds v x m = ground arith

upgrade_fails :
    (promote false window (answers fails passes) (at_version "2.0.0") (dir_of "2.0.0") installed).1
    ≡ some (promote_failed (gate_failed timed_out))
unfolding promote attempt promoted restore activate launched swapped settle find_binary binary_name
    replace add gate stop_module has set_state health_gate gate_loop look_at look timeout
    stable_window lookup remove
upgrade_fails = refl

promote-SameMarkers_example :
    SameMarkers
      (promote false window
        (answers fails passes)
        (at_version "2.0.0")
        (dir_of "2.0.0")
        installed).0.tree
      installed.tree
promote-SameMarkers_example =
    promote-SameMarkers false window (answers fails passes) (at_version "2.0.0") (dir_of "2.0.0")
      installed installed-IsRegular (dir-Holds "2.0.0") upgrade_fails

promote-RunsOld_example :
    RunsOld "sysinfo" "2.0.0"
      (some "1.0.0")
      (promote false window
        (answers fails passes)
        (at_version "2.0.0")
        (dir_of "2.0.0")
        installed).0
promote-RunsOld_example =
    promote-RunsOld false window (answers fails passes) (at_version "2.0.0") (dir_of "2.0.0")
      installed installed-IsRegular (dir-Holds "2.0.0") upgrade_fails

-- The current version once more, with other bytes.
abbrev broken : VersionDir
broken = record (dir_of "1.0.0") { binaries = ("sysinfo", 9 ∷ []) ∷ [] }

reinstall_fails :
    (promote false window (answers fails passes) (at_version "1.0.0") broken installed).1
    ≡ some (promote_failed (gate_failed timed_out))
unfolding promote attempt promoted restore retain prune activate launched swapped settle find_binary
    binary_name replace add gate stop_module has set_state health_gate gate_loop look_at look
    timeout stable_window lookup remove insert
reinstall_fails = refl

-- A version that cannot be deleted stays.
abbrev stuck : Faults
stuck = record (answers passes passes) { prune_leaves = λ v d. some d }

upgrade_works :
    (promote false window stuck (at_version "2.0.0") (dir_of "2.0.0") installed).1 ≡ none
unfolding promote attempt promoted restore retain prune activate launched swapped settle find_binary
    binary_name replace add gate stop_module has set_state health_gate gate_loop look_at look
    timeout stable_window lookup remove insert
upgrade_works = refl

promote-IsRetained_example :
    IsRetained
      (λ v d. some d)
      "1.0.0"
      "2.0.0"
      (moved (at_version "2.0.0") (dir_of "2.0.0") installed).tree
      (promote false window stuck (at_version "2.0.0") (dir_of "2.0.0") installed).0.tree
promote-IsRetained_example =
    promote-IsRetained false window stuck (at_version "2.0.0") (dir_of "2.0.0") installed refl refl
      upgrade_works

rollback_works :
    ((rollback false window flip installed).1 ≡ none)
    × ((rollback false window flip (rollback false window flip installed).0).1 ≡ none)
unfolding rollback activate launched swapped settle find_binary binary_name replace add gate
    stop_module has set_state health_gate gate_loop look_at look timeout stable_window lookup remove
    insert
rollback_works = (refl, refl)

rollback_twice_example :
    (rollback false window flip (rollback false window flip installed).0).0.tree ≡ installed.tree
rollback_twice_example =
    rollback_twice false window flip flip "sysinfo" "1.0.0" "0.9.0" installed refl refl
      installed-IsRegular refl refl rollback_works.0 rollback_works.1
