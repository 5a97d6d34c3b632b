-- ===== src/Lifecycle/Promote/Flip.antt =====
-- Rolling back, and rolling forward again.
use weaveplatform_agent_core.Base.{
  String, Bool, false, Option, none, some, lookup, ◌≡◌, refl, sym, ap, ◌∙◌, arith, subst,
}
use weaveplatform_agent_core.Manifest.{Manifest}
use weaveplatform_agent_core.Lifecycle.Gate.{Timing}
use weaveplatform_agent_core.Lifecycle.Disk.{VersionDir, Tree, World, Error}
use weaveplatform_agent_core.Lifecycle.Disk.Activate.{IsRegular, TreeAfter, activate_tree}
use weaveplatform_agent_core.Lifecycle.Promote.{
  RollbackFaults, text_of, flipped, rollback_to, rollback_dir, rollback,
}

-- A tree with its markers exchanged, `previous` being `v`.
abbrev swap_markers : String → Tree → Tree
swap_markers v t = record t { current = some v; previous = some (text_of t.current) }

abbrev FlippedFrom : String → World → World × Option Error → Type 0
FlippedFrom v w (w', none) = w'.tree ≡ swap_markers v w.tree
FlippedFrom v w (w', some e) = w'.tree ≡ w.tree

to_FlippedFrom :
    (f : RollbackFaults) (v : String) (mf : Manifest) (w : World) (r : World × Option Error)
    → f.write_previous_fails ≡ false
    → mf.version ≡ v
    → TreeAfter mf w r
    → FlippedFrom v w (flipped f (text_of w.tree.current) r)
to_FlippedFrom f v mf w (w', some e) works version after = after
to_FlippedFrom f v mf w (w', none) works version after = ground arith

rollback_dir-FlippedFrom :
    (windows : Bool) (t : Timing) (f : RollbackFaults) (id v : String) (o : Option VersionDir)
    (w : World)
    → f.write_previous_fails ≡ false
    → IsRegular id w.tree
    → lookup v w.tree.versions ≡ o
    → FlippedFrom v w (rollback_dir windows t f o w)
rollback_dir-FlippedFrom windows t f id v none w works reg found = refl
rollback_dir-FlippedFrom windows t f id v (some dir) w works reg found = go dir.manifest refl
  where
    go :
        (m : Option Manifest) → dir.manifest ≡ m → FlippedFrom v w (rollback_to windows t f dir m w)
    go none e = refl
    go (some mf) e =
        to_FlippedFrom f v mf w _ works (reg.at v dir mf found e).0
          (activate_tree windows t f.activation mf dir w)

rollback_from :
    (windows : Bool) (t : Timing) (f : RollbackFaults) (id v : String) (w : World)
    → f.write_previous_fails ≡ false
    → IsRegular id w.tree
    → w.tree.previous ≡ some v
    → FlippedFrom v w (rollback windows t f w)
unfolding rollback
rollback_from windows t f id v w works reg prev =
    subst (λ r. FlippedFrom v w r) (sym (path prev))
      (rollback_dir-FlippedFrom windows t f id v _ w works reg refl)
  where
    path :
        w.tree.previous ≡ some v
        → rollback windows t f w ≡ rollback_dir windows t f (lookup v w.tree.versions) w
    path e = ground arith

-- A rollback exchanges the markers or does nothing to them: where it reports success `current` is
-- the version that `previous` named and `previous` the one that was current, and where it reports an
-- error the tree is unchanged. Writing `previous` works, there is a previous version, and the version
-- directories hold their own versions of the module.
pub rollback_markers :
    (windows : Bool) (t : Timing) (f : RollbackFaults) (id v : String) (w : World)
    → f.write_previous_fails ≡ false
    → IsRegular id w.tree
    → w.tree.previous ≡ some v
    → (((rollback windows t f w).1 ≡ none)
        → (rollback windows t f w).0.tree
          ≡ record w.tree { current = some v; previous = some (text_of w.tree.current) })
      × ((e : Error)
          → (rollback windows t f w).1 ≡ some e
          → (rollback windows t f w).0.tree ≡ w.tree)
rollback_markers windows t f id v w works reg prev =
    go (rollback windows t f w) (rollback_from windows t f id v w works reg prev)
  where
    go :
        (r : World × Option Error)
        → FlippedFrom v w r
        → (r.1 ≡ none → r.0.tree ≡ swap_markers v w.tree)
          × ((e : Error) → r.1 ≡ some e → r.0.tree ≡ w.tree)
    go (w', none) h = (λ _. h, λ e bad. absurd (ground arith))
    go (w', some x) h = (λ bad. absurd (ground arith), λ e _. h)

-- Rolling back and rolling back again, both with success, restores the whole tree: an operator can
-- flip forward to the version that was rolled back from. Both markers are there, writing `previous`
-- works, and the version directories hold their own versions of the module.
pub rollback_twice :
    (windows : Bool) (t : Timing) (f g : RollbackFaults) (id u v : String) (w : World)
    → f.write_previous_fails ≡ false
    → g.write_previous_fails ≡ false
    → IsRegular id w.tree
    → w.tree.current ≡ some u
    → w.tree.previous ≡ some v
    → (rollback windows t f w).1 ≡ none
    → (rollback windows t g (rollback windows t f w).0).1 ≡ none
    → (rollback windows t g (rollback windows t f w).0).0.tree ≡ w.tree
rollback_twice windows t f g id u v w wf wg reg cur prev first second =
    let w' = (rollback windows t f w).0 in
    let once : w'.tree ≡ swap_markers v w.tree =
      (rollback_markers windows t f id v w wf reg prev).0 first in
    let reg' : IsRegular id w'.tree = subst (IsRegular id) (sym once) (record { at = reg.at }) in
    let prev' : w'.tree.previous ≡ some u =
      ap (λ (x : Tree). x.previous) once ∙ ap some (ap text_of cur) in
    let twice : (rollback windows t g w').0.tree ≡ swap_markers u w'.tree =
      (rollback_markers windows t g id u w' wg reg' prev').0 second in
    twice ∙ ap (swap_markers u) once ∙ ground arith
