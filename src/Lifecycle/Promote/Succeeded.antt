-- ===== src/Lifecycle/Promote/Succeeded.antt =====
-- `promote` on its successful branch.
use weaveplatform_agent_core.Base.{
  String, Bool, true, false, not, ◌&&◌, ◌||◌, ◌∙◌, sym, subst, Bool-cases, inl, inr, if-both,
  if-false, Option, none, some, [], ◌∷◌, Dict, lookup, lookup-insert, lookup-remove, ◌≡◌, ap, arith,
  eq_iff, if◌then◌else◌, ◌===◌,
}
use weaveplatform_agent_core.Manifest.{Manifest}
use weaveplatform_agent_core.Lifecycle.Gate.{Timing}
use weaveplatform_agent_core.Lifecycle.Disk.{
  VersionDir, Tree, World, Error, Leavings, put_version, prune,
}
use weaveplatform_agent_core.Lifecycle.Disk.Activate.{TreeAfter, activate_tree}
use weaveplatform_agent_core.Lifecycle.Promote.{
  Faults, old_version, other, retain, finish, moved, attempt, promote,
}

-- What a deletion leaves of a version that is there, or not.
abbrev pub left_of : Leavings → String → Option VersionDir → Option VersionDir
left_of leaves v none = none
left_of leaves v (some d) = leaves v d

lookup-put_version :
    (u v : String) (o : Option VersionDir) (vs : Dict VersionDir)
    → lookup v (put_version u o vs) ≡ (if u === v then o else lookup v vs)
lookup-put_version u v none vs = lookup-remove u v vs
lookup-put_version u v (some d) vs = lookup-insert u v d vs

lookup_other :
    (u v : String) (d : VersionDir) (vs : Dict VersionDir)
    → (u === v) ≡ false
    → lookup v ((u, d) ∷ vs) ≡ lookup v vs
unfolding lookup
lookup_other u v d vs e = ground arith

lookup_same : (u : String) (d : VersionDir) (vs : Dict VersionDir) → lookup u ((u, d) ∷ vs) ≡ some d
unfolding lookup
lookup_same u d vs = ground (arith, eq_iff u u)

-- Pruning treats each entry by itself.
prune_other :
    (leaves : Leavings) (keep prev u v : String) (d : VersionDir) (vs : Dict VersionDir)
    → (u === v) ≡ false
    → lookup v (prune leaves keep prev ((u, d) ∷ vs)) ≡ lookup v (prune leaves keep prev vs)
unfolding prune
prune_other leaves keep prev u v d vs e =
    let kept = prune leaves keep prev vs in
    if-both (λ x. lookup v x ≡ lookup v kept) (not (u === keep) && not (u === prev))
      (put_version u (leaves u d) kept) ((u, d) ∷ kept)
      (λ _. lookup-put_version u v (leaves u d) kept ∙ if-false _ _ e)
      (λ _. lookup_other u v d kept e)

prune_same :
    (leaves : Leavings) (keep prev u : String) (d : VersionDir) (vs : Dict VersionDir)
    → lookup u (prune leaves keep prev ((u, d) ∷ vs))
      ≡ (if u === keep || u === prev then some d else leaves u d)
unfolding prune
prune_same leaves keep prev u d vs =
    let kept = prune leaves keep prev vs in
    ground (arith, lookup-put_version u u (leaves u d) kept, lookup_same u d kept, eq_iff u u)

pub lookup-prune :
    (leaves : Leavings) (keep prev v : String) (vs : Dict VersionDir)
    → lookup v (prune leaves keep prev vs)
      ≡ (if v === keep || v === prev then lookup v vs else left_of leaves v (lookup v vs))
unfolding prune lookup
lookup-prune leaves keep prev v [] = ground arith
lookup-prune leaves keep prev v ((u, d) ∷ vs) = elim (Bool-cases (u === v)) [
  | inl same ↦
      subst
        (λ x. lookup x (prune leaves keep prev ((u, d) ∷ vs)) ≡ (
          if x === keep || x === prev
          then lookup x ((u, d) ∷ vs)
          else left_of leaves x (lookup x ((u, d) ∷ vs))))
        ((eq_iff u v).0 same)
        (prune_same leaves keep prev u d vs
          ∙ ap (λ o. if u === keep || u === prev then o else left_of leaves u o)
              (sym (lookup_same u d vs)))
  | inr differs ↦
      prune_other leaves keep prev u v d vs differs
      ∙ lookup-prune leaves keep prev v vs
      ∙ ap (λ o. if v === keep || v === prev then o else left_of leaves v o)
          (sym (lookup_other u v d vs differs))
]

-- The new version is current; another version that was current before is the retained one, both of
-- these keep their directories, and of every other version the tree holds what its deletion leaves.
pub record IsRetained (leaves : Leavings) (old new : String) (before after : Tree) : Type 0 where
  pub current : after.current ≡ some new
  pub previous : other old new ≡ true → after.previous ≡ some old
  pub unchanged : other old new ≡ false → after.previous ≡ before.previous
  pub versions :
      other old new ≡ true
      → (v : String)
      → lookup v after.versions ≡ (
          if v === new || v === old
          then lookup v before.versions
          else left_of leaves v (lookup v before.versions))

retain-IsRetained :
    (f : Faults) (old new : String) (w : World) (before : Tree)
    → f.write_previous_fails ≡ false
    → f.read_versions_fails ≡ false
    → w.tree ≡ record before { current = some new }
    → IsRetained f.prune_leaves old new before (retain f old new w).tree
unfolding retain
retain-IsRetained f old new w before a b e = record {
  current = ground (arith, ap (λ (x : Tree). x.current) e);
  previous = λ differs. ground arith;
  unchanged = λ same. ground (arith, ap (λ (x : Tree). x.previous) e);
  versions = λ differs v. ground (
    arith,
    ap (λ (x : Tree). x.versions) e,
    lookup-prune f.prune_leaves new old v w.tree.versions,
  );
}

finish-IsRetained :
    (windows : Bool) (t : Timing) (f : Faults) (mf : Manifest) (w : World)
    (r : World × Option Error)
    → TreeAfter mf w r
    → f.write_previous_fails ≡ false
    → f.read_versions_fails ≡ false
    → (finish windows t f (old_version f.read_current_fails w.tree.current) mf r).1 ≡ none
    → IsRetained f.prune_leaves
        (old_version f.read_current_fails w.tree.current)
        mf.version
        w.tree
        (finish windows t f (old_version f.read_current_fails w.tree.current) mf r).0.tree
finish-IsRetained windows t f mf w (w', some x) after a b h = absurd (ground arith)
finish-IsRetained windows t f mf w (w', none) after a b h =
    retain-IsRetained f (old_version f.read_current_fails w.tree.current) mf.version w' w.tree a b
      after

attempt-IsRetained :
    (windows : Bool) (t : Timing) (f : Faults) (mf : Manifest) (dir : VersionDir) (w : World)
    (mkdir : Bool) (removed : Option (Option VersionDir)) (rename : Bool)
    → f.write_previous_fails ≡ false
    → f.read_versions_fails ≡ false
    → (attempt windows t f mf dir w mkdir removed rename).1 ≡ none
    → IsRetained f.prune_leaves
        (old_version f.read_current_fails w.tree.current)
        mf.version
        (moved mf dir w).tree
        (attempt windows t f mf dir w mkdir removed rename).0.tree
unfolding attempt
attempt-IsRetained windows t f mf dir w true removed rename a b h = absurd (ground arith)
attempt-IsRetained windows t f mf dir w false (some left) rename a b h = absurd (ground arith)
attempt-IsRetained windows t f mf dir w false none true a b h = absurd (ground arith)
attempt-IsRetained windows t f mf dir w false none false a b h =
    finish-IsRetained windows t f mf (moved mf dir w) _ (activate_tree windows t f.first mf dir _) a
      b h

-- A promotion that reports success, where writing `previous` and listing the versions work, makes the
-- new version current; if reading `current` gave another version before, that one is recorded as previous, both
-- keep their directories, and of every other version the tree holds what its deletion leaves, which is
-- nothing where the deletion works; otherwise `previous` is unchanged.
pub promote-IsRetained :
    (windows : Bool) (t : Timing) (f : Faults) (mf : Manifest) (dir : VersionDir) (w : World)
    → f.write_previous_fails ≡ false
    → f.read_versions_fails ≡ false
    → (promote windows t f mf dir w).1 ≡ none
    → IsRetained f.prune_leaves
        (old_version f.read_current_fails w.tree.current)
        mf.version
        (moved mf dir w).tree
        (promote windows t f mf dir w).0.tree
unfolding promote
promote-IsRetained windows t f mf dir w a b h = attempt-IsRetained windows t f mf dir w _ _ _ a b h
