-- ===== src/Lifecycle/Promote/Stopped.antt =====
-- What runs after a promotion whose health gate failed.
use weaveplatform_agent_core.Base.{
  String, Bool, true, false, Option, none, some, lookup, lookup-insert, ◌≡◌, ◌≢◌, refl, sym, ap,
  ◌∙◌, arith, eq_iff, if◌then◌else◌, subst, if-true, if-false,
}
use weaveplatform_agent_core.Manifest.{Manifest}
use weaveplatform_agent_core.Supervise.Registry.{Entry}
use weaveplatform_agent_core.Lifecycle.Gate.{Timing, GateError}
use weaveplatform_agent_core.Lifecycle.Disk.{
  VersionDir, Tree, World, Activation, Error, gate_failed, promote_failed, activate,
}
use weaveplatform_agent_core.Lifecycle.Disk.Activate.{
  IsRegular, TreeAfter, activate_tree, activate_runs, activate_stopped,
}
use weaveplatform_agent_core.Lifecycle.Promote.{
  Faults, text_of, old_version, other, reactivate, restored, restore, finish, moved, attempt,
  promote,
}
use weaveplatform_agent_core.Lifecycle.Promote.Failed.{
  Holds, restore_blind, moved-IsRegular, text-some,
}

-- The module runs nothing but the version that `current` names, which is not `new`.
abbrev pub RunsOld : String → String → Option String → World → Type 0
RunsOld id new current w =
    (e : Entry)
    → lookup id w.supervisor.runners ≡ some e
    → (current ≡ some e.spec.manifest.version) × (e.spec.manifest.version ≢ new)

abbrev IsIdle : String → World → Type 0
IsIdle id w = lookup id w.supervisor.runners ≡ none

restored-RunsOld :
    (windows : Bool) (t : Timing) (act : Activation) (id new v : String) (o : Option VersionDir)
    (w : World)
    → IsRegular id w.tree
    → lookup v w.tree.versions ≡ o
    → v ≢ new
    → IsIdle id w
    → RunsOld id new (some v) (restored windows t act o w)
restored-RunsOld windows t act id new v none w reg found differs idle e h = cc
restored-RunsOld windows t act id new v (some dir) w reg found differs idle e h =
    go dir.manifest refl e h
  where
    go :
        (m : Option Manifest)
        → dir.manifest ≡ m
        → RunsOld id new (some v) (reactivate windows t act dir m w)
    go none eq e h = cc
    go (some x) eq e h =
        let (version, same_id) = reg.at v dir x found eq in
        let runs : e.spec.manifest ≡ x =
          activate_runs windows t act x dir w
            (ap (λ i. lookup i w.supervisor.runners) same_id ∙ idle) e
            (ap (λ i. lookup i (activate windows t act x dir w).0.supervisor.runners) same_id
              ∙ h) in
        let at_v : e.spec.manifest.version ≡ v = ap (λ (y : Manifest). y.version) runs ∙ version in
        (ap some (sym at_v), λ bad. differs (sym at_v ∙ bad))

restore-RunsOld :
    (windows : Bool) (t : Timing) (act : Activation) (id new : String) (w : World)
    → IsRegular id w.tree
    → IsIdle id w
    → RunsOld id new w.tree.current (restore windows t act (text_of w.tree.current) new w)
unfolding restore
restore-RunsOld windows t act id new w reg idle = pick (other old new) refl
  where
    old : String
    old = text_of w.tree.current

    pick :
        (b : Bool)
        → other old new ≡ b
        → RunsOld id new w.tree.current
            (if b then restored windows t act (lookup old w.tree.versions) w else w)
    pick true e x h =
        let cur = text-some w.tree.current old refl (ground arith) in
        subst (λ c. RunsOld id new c (restored windows t act (lookup old w.tree.versions) w))
          (sym cur)
          (restored-RunsOld windows t act id new old _ w reg refl (ground (arith, eq_iff old new))
            idle)
          x h
    pick false e x h = cc

restore_old-RunsOld :
    (windows : Bool) (t : Timing) (act : Activation) (id new : String) (fails : Bool) (w : World)
    → IsRegular id w.tree
    → IsIdle id w
    → RunsOld id new w.tree.current (restore windows t act (old_version fails w.tree.current) new w)
restore_old-RunsOld windows t act id new true w reg idle =
    subst (RunsOld id new w.tree.current) (sym (restore_blind windows t act new w)) (λ e h. cc)
restore_old-RunsOld windows t act id new false w reg idle =
    restore-RunsOld windows t act id new w reg idle

finish-RunsOld :
    (windows : Bool) (t : Timing) (f : Faults) (mf : Manifest) (w : World)
    (r : World × Option Error) {g : GateError}
    → TreeAfter mf w r
    → IsRegular mf.id w.tree
    → (r.1 ≡ some (gate_failed g) → IsIdle mf.id r.0)
    → (finish windows t f (old_version f.read_current_fails w.tree.current) mf r).1
      ≡ some (promote_failed (gate_failed g))
    → RunsOld mf.id mf.version w.tree.current
        (finish windows t f (old_version f.read_current_fails w.tree.current) mf r).0
finish-RunsOld windows t f mf w (w', none) same reg stops h = cc
finish-RunsOld windows t f mf w (w', some x) same reg stops h =
    let idle : IsIdle mf.id w' = stops (ground arith) in
    subst
      (λ (a : Tree).
        RunsOld mf.id mf.version a.current
          (restore windows t f.second (old_version f.read_current_fails a.current) mf.version w'))
      same
      (restore_old-RunsOld windows t f.second mf.id mf.version f.read_current_fails w'
        (subst (IsRegular mf.id) (sym same) reg) idle)

attempt-RunsOld :
    (windows : Bool) (t : Timing) (f : Faults) (mf : Manifest) (dir : VersionDir) (w : World)
    (mkdir : Bool) (removed : Option (Option VersionDir)) (rename : Bool) {g : GateError}
    → IsRegular mf.id w.tree
    → Holds dir mf
    → (attempt windows t f mf dir w mkdir removed rename).1 ≡ some (promote_failed (gate_failed g))
    → RunsOld mf.id mf.version w.tree.current (attempt windows t f mf dir w mkdir removed rename).0
unfolding attempt
attempt-RunsOld windows t f mf dir w true removed rename reg holds h e k = cc
attempt-RunsOld windows t f mf dir w false (some left) rename reg holds h e k = cc
attempt-RunsOld windows t f mf dir w false none true reg holds h e k = cc
attempt-RunsOld windows t f mf dir w false none false {g = g} reg holds h e k =
    finish-RunsOld windows t f mf (moved mf dir w) _ {g = g}
      (activate_tree windows t f.first mf dir _) (moved-IsRegular mf dir w reg holds)
      (activate_stopped windows t f.first mf dir _) h e k

-- A version that fails its health gate does not go on running: after the promotion the supervisor
-- runs no such module at all, or the version that `current` names, and that is another one, in a tree
-- whose version directories hold their own versions of the module.
pub promote-RunsOld :
    (windows : Bool) (t : Timing) (f : Faults) (mf : Manifest) (dir : VersionDir) (w : World)
    {g : GateError}
    → IsRegular mf.id w.tree
    → Holds dir mf
    → (promote windows t f mf dir w).1 ≡ some (promote_failed (gate_failed g))
    → RunsOld mf.id mf.version w.tree.current (promote windows t f mf dir w).0
unfolding promote
promote-RunsOld windows t f mf dir w reg holds h =
    attempt-RunsOld windows t f mf dir w _ _ _ reg holds h

restore_same :
    (windows : Bool) (t : Timing) (act : Activation) (new : String) (fails : Bool) (w : World)
    → w.tree.current ≡ some new
    → restore windows t act (old_version fails w.tree.current) new w ≡ w
unfolding restore
restore_same windows t act new true w cur = restore_blind windows t act new w
restore_same windows t act new false w cur =
    if-false {b = other (text_of w.tree.current) new}
      (restored windows t act (lookup (text_of w.tree.current) w.tree.versions) w) w
      (ground (arith, eq_iff new new))

finish_same_version :
    (windows : Bool) (t : Timing) (f : Faults) (mf : Manifest) (w : World)
    (r : World × Option Error) {e : Error}
    → TreeAfter mf w r
    → w.tree.current ≡ some mf.version
    → (finish windows t f (old_version f.read_current_fails w.tree.current) mf r).1 ≡ some e
    → (finish windows t f (old_version f.read_current_fails w.tree.current) mf r).0.tree ≡ w.tree
unfolding restore
finish_same_version windows t f mf w (w', none) same cur h = cc
finish_same_version windows t f mf w (w', some x) same cur h =
    let cur' : w'.tree.current ≡ some mf.version = ap (λ (a : Tree). a.current) same ∙ cur in
    ap
      (λ (a : Tree).
        (restore windows t f.second (old_version f.read_current_fails a.current) mf.version
          w').tree)
      (sym same)
    ∙ ap (λ (x : World). x.tree)
        (restore_same windows t f.second mf.version f.read_current_fails w' cur')
    ∙ same

attempt_same_version :
    (windows : Bool) (t : Timing) (f : Faults) (mf : Manifest) (dir : VersionDir) (w : World)
    (mkdir : Bool) (removed : Option (Option VersionDir)) (rename : Bool) {e : Error}
    → w.tree.current ≡ some mf.version
    → (attempt windows t f mf dir w mkdir removed rename).1 ≡ some (promote_failed e)
    → (attempt windows t f mf dir w mkdir removed rename).0.tree ≡ (moved mf dir w).tree
unfolding attempt
attempt_same_version windows t f mf dir w true removed rename cur h = cc
attempt_same_version windows t f mf dir w false (some left) rename cur h = cc
attempt_same_version windows t f mf dir w false none true cur h = cc
attempt_same_version windows t f mf dir w false none false cur h =
    finish_same_version windows t f mf (moved mf dir w) _ (activate_tree windows t f.first mf dir _)
      cur h

-- Promoting the version that is already current, with an activation that fails, reports the error
-- and still leaves `current` naming that version, with the directory that failed in its place.
pub promote_same_version :
    (windows : Bool) (t : Timing) (f : Faults) (mf : Manifest) (dir : VersionDir) (w : World)
    {e : Error}
    → w.tree.current ≡ some mf.version
    → (promote windows t f mf dir w).1 ≡ some (promote_failed e)
    → ((promote windows t f mf dir w).0.tree.current ≡ some mf.version)
      × (lookup mf.version (promote windows t f mf dir w).0.tree.versions ≡ some dir)
unfolding promote
promote_same_version windows t f mf dir w cur h =
    let tree = attempt_same_version windows t f mf dir w _ _ _ cur h in
    (
      ap (λ (x : Tree). x.current) tree ∙ cur,
      ap (λ (x : Tree). lookup mf.version x.versions) tree
          ∙ lookup-insert mf.version mf.version dir w.tree.versions
          ∙ if-true _ _ ((eq_iff mf.version mf.version).1 refl),
    )
