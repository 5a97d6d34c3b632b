-- ===== src/Lifecycle/Promote/Failed.antt =====
-- What a failed promotion leaves behind.
use weaveplatform_agent_core.Base.{
  String, Bool, true, false, Option, none, some, lookup, lookup-insert, ◌≡◌, refl, sym, ap, ◌∙◌,
  arith, eq_iff, if◌then◌else◌, ◌===◌, Bool-cases, inl, inr, subst, subst₂, if-true, if-false,
}
use weaveplatform_agent_core.Manifest.{Manifest}
use weaveplatform_agent_core.Lifecycle.Gate.{Timing}
use weaveplatform_agent_core.Lifecycle.Disk.{VersionDir, Tree, World, Activation, Error, activate}
use weaveplatform_agent_core.Lifecycle.Disk.Activate.{IsRegular, TreeAfter, activate_tree}
use weaveplatform_agent_core.Lifecycle.Promote.{
  Faults, text_of, old_version, other, reactivate, restored, restore, finish, moved, attempt,
  promote,
}

-- The markers of two trees agree.
abbrev pub SameMarkers : Tree → Tree → Type 0
SameMarkers a b = (a.current ≡ b.current) × (a.previous ≡ b.previous)

pub text-some : (o : Option String) (v : String) → text_of o ≡ v → (v === "") ≡ false → o ≡ some v
text-some none v e h = ground (arith, eq_iff v "")
text-some (some u) v e h = ap some e

reactivate-SameMarkers :
    (windows : Bool) (t : Timing) (act : Activation) (dir : VersionDir) (mf : Manifest) (w : World)
    → w.tree.current ≡ some mf.version
    → SameMarkers (activate windows t act mf dir w).0.tree w.tree
reactivate-SameMarkers windows t act dir mf w cur =
    go (activate windows t act mf dir w) (activate_tree windows t act mf dir w)
  where
    go : (r : World × Option Error) → TreeAfter mf w r → SameMarkers r.0.tree w.tree
    go (w', none) e = (ap (λ (x : Tree). x.current) e ∙ sym cur, ap (λ (x : Tree). x.previous) e)
    go (w', some x) e = (ap (λ (x : Tree). x.current) e, ap (λ (x : Tree). x.previous) e)

restored-SameMarkers :
    (windows : Bool) (t : Timing) (act : Activation) (id v : String) (o : Option VersionDir)
    (w : World)
    → IsRegular id w.tree
    → lookup v w.tree.versions ≡ o
    → w.tree.current ≡ some v
    → SameMarkers (restored windows t act o w).tree w.tree
restored-SameMarkers windows t act id v none w reg found cur = (refl, refl)
restored-SameMarkers windows t act id v (some dir) w reg found cur = manifest dir.manifest refl
  where
    manifest :
        (m : Option Manifest)
        → dir.manifest ≡ m
        → SameMarkers (reactivate windows t act dir m w).tree w.tree
    manifest none e = (refl, refl)
    manifest (some mf) e =
        reactivate-SameMarkers windows t act dir mf w
          (cur ∙ ap some (sym (reg.at v dir mf found e).0))

pub restore_blind :
    (windows : Bool) (t : Timing) (act : Activation) (new : String) (w : World)
    → restore windows t act "" new w ≡ w
unfolding restore
restore_blind windows t act new w =
    if-false {b = other "" new} (restored windows t act (lookup "" w.tree.versions) w) w
      (ground (arith, eq_iff "" ""))

restore-SameMarkers :
    (windows : Bool) (t : Timing) (act : Activation) (id new : String) (w : World)
    → IsRegular id w.tree
    → SameMarkers (restore windows t act (text_of w.tree.current) new w).tree w.tree
unfolding restore
restore-SameMarkers windows t act id new w reg = pick (other (text_of w.tree.current) new) refl
  where
    old : String
    old = text_of w.tree.current

    pick :
        (b : Bool)
        → other old new ≡ b
        → SameMarkers
            (if b then restored windows t act (lookup old w.tree.versions) w else w).tree
            w.tree
    pick true e =
        restored-SameMarkers windows t act id old _ w reg refl
          (text-some w.tree.current old refl (ground arith))
    pick false e = (refl, refl)

restore_old-SameMarkers :
    (windows : Bool) (t : Timing) (act : Activation) (id new : String) (fails : Bool) (w : World)
    → IsRegular id w.tree
    → SameMarkers (restore windows t act (old_version fails w.tree.current) new w).tree w.tree
restore_old-SameMarkers windows t act id new true w reg =
    subst (λ (x : World). SameMarkers x.tree w.tree) (sym (restore_blind windows t act new w))
      (refl, refl)
restore_old-SameMarkers windows t act id new false w reg =
    restore-SameMarkers windows t act id new w reg

finish-SameMarkers :
    (windows : Bool) (t : Timing) (f : Faults) (id : String) (mf : Manifest) (w : World)
    (r : World × Option Error) {e : Error}
    → TreeAfter mf w r
    → IsRegular id w.tree
    → (finish windows t f (old_version f.read_current_fails w.tree.current) mf r).1 ≡ some e
    → SameMarkers
        (finish windows t f (old_version f.read_current_fails w.tree.current) mf r).0.tree
        w.tree
finish-SameMarkers windows t f id mf w (w', none) same reg h = cc
finish-SameMarkers windows t f id mf w (w', some x) same reg h =
    let kept =
      restore_old-SameMarkers windows t f.second id mf.version f.read_current_fails w'
        (subst (IsRegular id) (sym same) reg) in
    let old = ap (λ (a : Tree). old_version f.read_current_fails a.current) same in
    subst₂ (λ o a. SameMarkers (restore windows t f.second o mf.version w').tree a) old same kept

-- A version directory that belongs to the manifest.
abbrev pub Holds : VersionDir → Manifest → Type 0
Holds dir mf = (x : Manifest) → dir.manifest ≡ some x → (x.version ≡ mf.version) × (x.id ≡ mf.id)

pub moved-IsRegular :
    (mf : Manifest) (dir : VersionDir) (w : World)
    → IsRegular mf.id w.tree
    → Holds dir mf
    → IsRegular mf.id (moved mf dir w).tree
moved-IsRegular mf dir w reg holds = record {
  at = λ v d x found e. elim (Bool-cases (mf.version === v)) [
    | inl same ↦
        let here : some dir ≡ some d =
          sym (lookup-insert mf.version v dir w.tree.versions ∙ if-true _ _ same) ∙ found in
        let same_dir : dir ≡ d = cc in
        let (a, b) = holds x (ap (λ (y : VersionDir). y.manifest) same_dir ∙ e) in
        (a ∙ (eq_iff _ _).0 same, b)
    | inr differs ↦
        reg.at v d x
          (sym (lookup-insert mf.version v dir w.tree.versions ∙ if-false _ _ differs) ∙ found) e
  ];
}

attempt-SameMarkers :
    (windows : Bool) (t : Timing) (f : Faults) (mf : Manifest) (dir : VersionDir) (w : World)
    (mkdir : Bool) (removed : Option (Option VersionDir)) (rename : Bool) {e : Error}
    → IsRegular mf.id w.tree
    → Holds dir mf
    → (attempt windows t f mf dir w mkdir removed rename).1 ≡ some e
    → SameMarkers (attempt windows t f mf dir w mkdir removed rename).0.tree w.tree
unfolding attempt
attempt-SameMarkers windows t f mf dir w true removed rename reg holds h = (refl, refl)
attempt-SameMarkers windows t f mf dir w false (some left) rename reg holds h = (refl, refl)
attempt-SameMarkers windows t f mf dir w false none true reg holds h = (refl, refl)
attempt-SameMarkers windows t f mf dir w false none false reg holds h =
    finish-SameMarkers windows t f mf.id mf (moved mf dir w) _
      (activate_tree windows t f.first mf dir _) (moved-IsRegular mf dir w reg holds) h

-- A promotion that reports an error leaves both markers as they were, whichever of its steps failed
-- and whatever became of the attempt to bring the old version back, in a tree whose version
-- directories hold their own versions of the module.
pub promote-SameMarkers :
    (windows : Bool) (t : Timing) (f : Faults) (mf : Manifest) (dir : VersionDir) (w : World)
    {e : Error}
    → IsRegular mf.id w.tree
    → Holds dir mf
    → (promote windows t f mf dir w).1 ≡ some e
    → SameMarkers (promote windows t f mf dir w).0.tree w.tree
unfolding promote
promote-SameMarkers windows t f mf dir w reg holds h =
    attempt-SameMarkers windows t f mf dir w _ _ _ reg holds h
