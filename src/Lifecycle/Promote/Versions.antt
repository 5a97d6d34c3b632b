-- ===== src/Lifecycle/Promote/Versions.antt =====
-- Which version directories a promotion leaves.
use weaveplatform_agent_core.Base.{
  String, Bool, true, false, ◌||◌, if◌then◌else◌, Option, none, some, Dict, lookup, lookup-insert,
  lookup-remove, ◌===◌, ◌≡◌, refl, sym, ap, ◌∙◌, ◌⊎◌, inl, inr, arith, eq_iff, Bool-cases, if-true,
  if-false, if-both,
}
use weaveplatform_agent_core.Manifest.{Manifest}
use weaveplatform_agent_core.Lifecycle.Gate.{Timing}
use weaveplatform_agent_core.Lifecycle.Disk.{
  VersionDir, Tree, World, Activation, Error, Leavings, activate,
}
use weaveplatform_agent_core.Lifecycle.Disk.Activate.{TreeAfter, activate_tree}
use weaveplatform_agent_core.Lifecycle.Promote.{
  Faults, other, reactivate, restored, restore, retain, finish, moved, attempt, promoted, promote,
}
use weaveplatform_agent_core.Lifecycle.Promote.Succeeded.{left_of, lookup-prune}

-- A version directory after a promotion: as it was, or what a failed deletion left of it.
abbrev pub LeftFrom : Leavings → String → VersionDir → VersionDir → Type 0
LeftFrom leaves v before after = (after ≡ before) ⊎ (leaves v before ≡ some after)

-- `b` has no version directory but those of `a`, or what a failed deletion left of them.
abbrev pub Within : Leavings → Dict VersionDir → Dict VersionDir → Type 0
Within leaves a b =
    (v : String) (d : VersionDir)
    → lookup v b ≡ some d
    → (before : VersionDir) × (lookup v a ≡ some before) × LeftFrom leaves v before d

TreeAfter-Within :
    (mf : Manifest) (w : World) (r : World × Option Error)
    → TreeAfter mf w r
    → r.0.tree.versions ≡ w.tree.versions
TreeAfter-Within mf w (w', none) e = ap (λ (x : Tree). x.versions) e
TreeAfter-Within mf w (w', some x) e = ap (λ (x : Tree). x.versions) e

restored-versions :
    (windows : Bool) (t : Timing) (act : Activation) (o : Option VersionDir) (w : World)
    → (restored windows t act o w).tree.versions ≡ w.tree.versions
restored-versions windows t act none w = refl
restored-versions windows t act (some dir) w = go dir.manifest
  where
    go : (m : Option Manifest) → (reactivate windows t act dir m w).tree.versions ≡ w.tree.versions
    go none = refl
    go (some mf) =
        TreeAfter-Within mf w (activate windows t act mf dir w)
          (activate_tree windows t act mf dir w)

restore-versions :
    (windows : Bool) (t : Timing) (act : Activation) (old new : String) (w : World)
    → (restore windows t act old new w).tree.versions ≡ w.tree.versions
unfolding restore
restore-versions windows t act old new w =
    if-both (λ (x : World). x.tree.versions ≡ w.tree.versions) (other old new) _ w
      (λ _. restored-versions windows t act (lookup old w.tree.versions) w) (λ _. refl)

pruned-Within :
    (leaves : Leavings) (v : String) (d : VersionDir) (b : Bool) (o : Option VersionDir)
    → (if b then o else left_of leaves v o) ≡ some d
    → (before : VersionDir) × (o ≡ some before) × LeftFrom leaves v before d
pruned-Within leaves v d true o h = (d, h, inl refl)
pruned-Within leaves v d false none h = cc
pruned-Within leaves v d false (some before) h = (before, refl, inr h)

retain-Within :
    (f : Faults) (old new : String) (w : World)
    → Within f.prune_leaves w.tree.versions (retain f old new w).tree.versions
unfolding retain
retain-Within f old new w v d h = elim (Bool-cases (other old new)) [
  | inl differs ↦ elim (Bool-cases f.read_versions_fails) [
    | inl fails ↦ (d, ground arith, inl refl)
    | inr works ↦
        pruned-Within f.prune_leaves v d (v === new || v === old) (lookup v w.tree.versions)
          (sym (lookup-prune f.prune_leaves new old v w.tree.versions) ∙ ground arith)
  ]
  | inr same ↦ (d, ground arith, inl refl)
]

finish-Within :
    (windows : Bool) (t : Timing) (f : Faults) (old : String) (mf : Manifest) (w : World)
    (r : World × Option Error)
    → TreeAfter mf w r
    → Within f.prune_leaves w.tree.versions (finish windows t f old mf r).0.tree.versions
finish-Within windows t f old mf w (w', none) after v d h =
    let (before, there, left) = retain-Within f old mf.version w' v d h in
    (before, ap (λ (x : Tree). lookup v x.versions) (sym after) ∙ there, left)
finish-Within windows t f old mf w (w', some x) after v d h = (
  d,
  ap (λ vs. lookup v vs)
        (sym (
          restore-versions windows t f.second old mf.version w'
          ∙ ap (λ (x : Tree). x.versions) after))
      ∙ h,
  inl refl,
)

-- Every entry comes from one of the tree before, or from the promoted directory under its own version.
abbrev pub OldOrNew : Leavings → Manifest → VersionDir → World → World → Type 0
OldOrNew leaves mf dir w w' =
    (v : String) (d : VersionDir)
    → lookup v w'.tree.versions ≡ some d
    → (before : VersionDir) × ((lookup v w.tree.versions ≡ some before)
        ⊎ ((v ≡ mf.version) × (before ≡ dir)))
      × LeftFrom leaves v before d

moved_old_or_new :
    (mf : Manifest) (dir : VersionDir) (w : World) (v : String) (d : VersionDir)
    → lookup v (moved mf dir w).tree.versions ≡ some d
    → (lookup v w.tree.versions ≡ some d) ⊎ ((v ≡ mf.version) × (d ≡ dir))
moved_old_or_new mf dir w v d h = elim (Bool-cases (mf.version === v)) [
  | inl same ↦
      let here : some dir ≡ some d =
        sym (lookup-insert mf.version v dir w.tree.versions ∙ if-true _ _ same) ∙ h in
      inr (sym ((eq_iff mf.version v).0 same), cc)
  | inr differs ↦
      inl (sym (lookup-insert mf.version v dir w.tree.versions ∙ if-false _ _ differs) ∙ h)
]

attempt-OldOrNew :
    (windows : Bool) (t : Timing) (f : Faults) (mf : Manifest) (dir : VersionDir) (w : World)
    (mkdir : Bool) (removed : Option (Option VersionDir)) (rename : Bool)
    → removed ≡ none
    → OldOrNew f.prune_leaves mf dir w (attempt windows t f mf dir w mkdir removed rename).0
unfolding attempt promoted
attempt-OldOrNew windows t f mf dir w true removed rename clean v d h = (d, inl h, inl refl)
attempt-OldOrNew windows t f mf dir w false (some left) rename clean v d h = cc
attempt-OldOrNew windows t f mf dir w false none true clean v d h =
    (d, inl (ground (arith, lookup-remove mf.version v w.tree.versions)), inl refl)
attempt-OldOrNew windows t f mf dir w false none false clean v d h =
    let (before, there, left) =
      finish-Within windows t f _ mf (moved mf dir w) _ (activate_tree windows t f.first mf dir _) v
        d h in
    (before, moved_old_or_new mf dir w v before there, left)

pub promote-OldOrNew :
    (windows : Bool) (t : Timing) (f : Faults) (mf : Manifest) (dir : VersionDir) (w : World)
    → f.remove_fails ≡ none
    → OldOrNew f.prune_leaves mf dir w (promote windows t f mf dir w).0
unfolding promote
promote-OldOrNew windows t f mf dir w clean = attempt-OldOrNew windows t f mf dir w _ _ _ clean
