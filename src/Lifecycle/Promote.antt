-- ===== src/Lifecycle/Promote.antt =====
-- `promote` and `Rollback` of internal/lifecycle/lifecycle.go.
pub mod Failed
pub mod Stopped
pub mod Succeeded
pub mod Flip
pub mod Versions
use weaveplatform_agent_core.Base.{
  String, Bool, true, false, not, ◌||◌, ◌&&◌, Option, none, some, Dict, lookup, insert, remove,
  if◌then◌else◌, ◌===◌,
}
use weaveplatform_agent_core.Manifest.{Manifest}
use weaveplatform_agent_core.Lifecycle.Gate.{Timing}
use weaveplatform_agent_core.Lifecycle.Disk.{
  VersionDir, Tree, World, Activation, Error, no_manifest, io_failed, no_previous, promote_failed,
  activate, Leavings, put_version, prune,
}

-- The operating system's answers to one `promote`. A failed RemoveAll leaves what it leaves, of an older
-- directory of the promoted version (`remove_fails`) and of a pruned one (`prune_leaves`).
pub record Faults : Type 0 where
  pub mkdir_fails : Bool
  pub remove_fails : Option (Option VersionDir)
  pub rename_fails : Bool
  pub read_current_fails : Bool
  pub first : Activation
  pub second : Activation
  pub write_previous_fails : Bool
  pub read_versions_fails : Bool
  pub prune_leaves : Leavings

abbrev text_of : Option String → String
text_of none = ""
text_of (some v) = v

-- The current version before a promotion, if reading the marker works.
abbrev pub old_version : Bool → Option String → String
old_version fails current = if fails then "" else text_of current

abbrev set_versions : World → Dict VersionDir → World
set_versions w vs = record w { tree = record w.tree { versions = vs } }

-- The version to go back to, if there is another one.
abbrev pub other : String → String → Bool
other old new = not (old === "") && not (old === new)

abbrev reactivate : Bool → Timing → Activation → VersionDir → Option Manifest → World → World
reactivate windows t act dir none w = w
reactivate windows t act dir (some mf) w = (activate windows t act mf dir w).0

abbrev pub restored : Bool → Timing → Activation → Option VersionDir → World → World
restored windows t act none w = w
restored windows t act (some dir) w = reactivate windows t act dir dir.manifest w

-- The branch that a failed activation takes: bring the old version back; its error is only logged.
unfoldable pub restore : Bool → Timing → Activation → String → String → World → World
restore windows t act old new w =
    if other old new then restored windows t act (lookup old w.tree.versions) w else w

abbrev set_previous : Bool → String → World → World
set_previous fails v w =
    if fails then w else record w { tree = record w.tree { previous = some v } }

abbrev prune_tree : Faults → String → String → World → World
prune_tree f keep prev w =
    if f.read_versions_fails
    then w
    else set_versions w (prune f.prune_leaves keep prev w.tree.versions)

-- "Success: retain exactly N-1."
unfoldable pub retain : Faults → String → String → World → World
unfolding prune
retain f old new w =
    if other old new then prune_tree f new old (set_previous f.write_previous_fails old w) else w

abbrev finish :
    Bool → Timing → Faults → String → Manifest → World × Option Error → World × Option Error
finish windows t f old mf (w, none) = (retain f old mf.version w, none)
finish windows t f old mf (w, some e) =
    (restore windows t f.second old mf.version w, some (promote_failed e))

-- The stage has been renamed into the tree as `dir`.
unfoldable pub promoted :
    Bool → Timing → Faults → Manifest → VersionDir → World → World × Option Error
unfolding restore retain
promoted windows t f mf dir w =
    finish windows t f (old_version f.read_current_fails w.tree.current) mf
      (activate windows t f.first mf dir w)

abbrev pub moved : Manifest → VersionDir → World → World
moved mf dir w = record w {
  tree = record w.tree { versions = insert mf.version dir w.tree.versions };
  staging = remove mf.version w.staging;
}

-- The steps before the activation, by the answers to MkdirAll, RemoveAll and Rename.
unfoldable pub attempt :
    Bool
    → Timing
    → Faults
    → Manifest
    → VersionDir
    → World
    → Bool
    → Option (Option VersionDir)
    → Bool
    → World × Option Error
unfolding promoted
attempt windows t f mf dir w true removed rename_fails = (w, some io_failed)
attempt windows t f mf dir w false (some left) rename_fails =
    (set_versions w (put_version mf.version left w.tree.versions), some io_failed)
attempt windows t f mf dir w false none true =
    (set_versions w (remove mf.version w.tree.versions), some io_failed)
attempt windows t f mf dir w false none false = promoted windows t f mf dir (moved mf dir w)

-- `promote` of the staged directory `dir`.
unfoldable pub promote :
    Bool → Timing → Faults → Manifest → VersionDir → World → World × Option Error
unfolding attempt
promote windows t f mf dir w =
    attempt windows t f mf dir w f.mkdir_fails f.remove_fails f.rename_fails

-- The answers to one `Rollback`.
pub record RollbackFaults : Type 0 where
  pub activation : Activation
  pub write_previous_fails : Bool

abbrev flipped : RollbackFaults → String → World × Option Error → World × Option Error
flipped f old (w, some e) = (w, some e)
flipped f old (w, none) = (set_previous f.write_previous_fails old w, none)

abbrev rollback_to :
    Bool → Timing → RollbackFaults → VersionDir → Option Manifest → World → World × Option Error
rollback_to windows t f dir none w = (w, some no_manifest)
rollback_to windows t f dir (some mf) w =
    flipped f (text_of w.tree.current) (activate windows t f.activation mf dir w)

abbrev rollback_dir :
    Bool → Timing → RollbackFaults → Option VersionDir → World → World × Option Error
rollback_dir windows t f none w = (w, some no_manifest)
rollback_dir windows t f (some dir) w = rollback_to windows t f dir dir.manifest w

unfoldable pub rollback : Bool → Timing → RollbackFaults → World → World × Option Error
rollback windows t f w = elim w.tree.previous [
  | none ↦ (w, some no_previous)
  | some v ↦ rollback_dir windows t f (lookup v w.tree.versions) w
]
