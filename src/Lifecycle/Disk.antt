-- ===== src/Lifecycle/Disk.antt =====
-- One module's tree `modules/<id>`, its staging area, and `activate`, `findBinary`, `binaryName`,
-- `writeFileString` and `prune` of internal/lifecycle/lifecycle.go.
pub mod Activate
use Prim.Native.String.{◌++◌ as join}
use weaveplatform_agent_core.Base.{
  ℕ, String, Bool, true, false, not, ◌||◌, ◌&&◌, Option, none, some, List, [], ◌∷◌, Dict, lookup,
  insert, remove, if◌then◌else◌, ◌===◌,
}
use weaveplatform_agent_core.Manifest.{Manifest}
use weaveplatform_agent_core.Supervise.Registry.{Spec, Supervisor, AddError, replace, stop_module}
use weaveplatform_agent_core.Lifecycle.Gate.{Poll, GateError, Timing, health_gate}

abbrev pub Bytes : Type 0
Bytes = List ℕ

-- A version directory: its binaries by file name, what manifest.Load makes of its manifest, and its
-- config.json.
pub record VersionDir : Type 0 where
  pub binaries : Dict Bytes
  pub manifest : Option Manifest
  pub config : Option Bytes

-- `current` and `previous` are the trimmed texts of the markers, `none` where the file is absent.
pub record Tree : Type 0 where
  pub current : Option String
  pub previous : Option String
  pub versions : Dict VersionDir

pub record World : Type 0 where
  pub tree : Tree
  pub staging : Dict VersionDir
  pub supervisor : Supervisor

-- What one run of `activate` meets: the clock and the polls of its health gate, and whether writing
-- the marker fails.
pub record Activation : Type 0 where
  pub start : ℕ
  pub polls : List Poll
  pub write_fails : Bool

pub data Error : Type 0 where
  no_manifest no_binary io_failed not_verified no_previous : Error
  refused : AddError → Error
  gate_failed : GateError → Error
  promote_failed : Error → Error

-- `windows` is `runtime.GOOS == "windows"`.
unfoldable pub binary_name : Bool → String → String
binary_name windows id = if windows then join id ".exe" else id

abbrev first_of : Dict Bytes → List String → Option (String × Bytes)
first_of files [] = none
first_of files (n ∷ names) =
    let rest = first_of files names in elim (lookup n files) [ some b ↦ some (n, b) | none ↦ rest ]

-- The name and the bytes of the file that is run.
unfoldable pub find_binary : Bool → VersionDir → String → Option (String × Bytes)
unfolding binary_name
find_binary windows dir id =
    first_of dir.binaries (binary_name windows id ∷ "module" ∷ "module.exe" ∷ [])

abbrev with_supervisor : World → Supervisor → World
with_supervisor w s = record w { supervisor = s }

abbrev set_current : World → String → World
set_current w v = record w { tree = record w.tree { current = some v } }

-- The end of `activate`, by the gate's verdict: the module is stopped, or the marker is written.
unfoldable pub settle : Activation → Manifest → World → Option GateError → World × Option Error
settle act mf w (some e) =
    (with_supervisor w (stop_module mf.id w.supervisor), some (gate_failed e))
settle act mf w none =
    if act.write_fails then (w, some io_failed) else (set_current w mf.version, none)

-- By the result of `Replace`.
unfoldable pub swapped :
    Timing → Activation → Manifest → World → Supervisor × Option AddError → World × Option Error
unfolding settle
swapped t act mf w (s, some e) = (with_supervisor w s, some (refused e))
swapped t act mf w (s, none) =
    settle act mf (with_supervisor w s) (health_gate t act.start act.polls)

abbrev pub spec_of : Manifest → String → VersionDir → Spec
spec_of mf name dir = record { manifest = mf; bin_path = name; config = dir.config }

-- By the file that `findBinary` finds.
unfoldable pub launched :
    Timing
    → Activation
    → Manifest
    → VersionDir
    → World
    → Option (String × Bytes)
    → World × Option Error
unfolding swapped
launched t act mf dir w none = (w, some no_binary)
launched t act mf dir w (some (name, _)) =
    swapped t act mf w (replace (spec_of mf name dir) w.supervisor)

unfoldable pub activate :
    Bool → Timing → Activation → Manifest → VersionDir → World → World × Option Error
unfolding launched
activate windows t act mf dir w = launched t act mf dir w (find_binary windows dir mf.id)

-- What RemoveAll leaves of a version's directory, `none` where it is deleted.
abbrev pub Leavings : Type 0
Leavings = String → VersionDir → Option VersionDir

abbrev pub put_version : String → Option VersionDir → Dict VersionDir → Dict VersionDir
put_version v none versions = remove v versions
put_version v (some d) versions = insert v d versions

-- Every version but `keep` and `prev` is deleted; an error of a deletion is ignored, and what it leaves
-- of the directory stays.
unfoldable pub prune : Leavings → String → String → Dict VersionDir → Dict VersionDir
prune leaves keep prev [] = []
prune leaves keep prev ((v, d) ∷ rest) =
    let kept = prune leaves keep prev rest in
    if not (v === keep) && not (v === prev) then put_version v (leaves v d) kept else (v, d) ∷ kept
