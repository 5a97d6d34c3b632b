-- ===== src/Lifecycle/Disk/Activate.antt =====
-- What `activate` leaves on disk and in the supervisor.
use weaveplatform_agent_core.Base.{
  String, Bool, true, false, Option, none, some, lookup, lookup-remove, ◌≡◌, refl, ap, arith,
  eq_iff, if◌then◌else◌,
}
use weaveplatform_agent_core.Manifest.{Manifest}
use weaveplatform_agent_core.Supervise.Registry.{
  Spec, Entry, Supervisor, AddError, replace, stop_module,
}
use weaveplatform_agent_core.Supervise.Registry.Laws.{replace-spec}
use weaveplatform_agent_core.Lifecycle.Gate.{Timing, GateError}
use weaveplatform_agent_core.Lifecycle.Disk.{
  VersionDir, Tree, World, Activation, Error, Bytes, gate_failed, io_failed, set_current, settle,
  activate, swapped, launched, spec_of,
}

-- Each version directory holds its own version of the module `id`.
pub record IsRegular (id : String) (t : Tree) : Type 0 where
  pub at :
      (v : String) (d : VersionDir) (mf : Manifest)
      → lookup v t.versions ≡ some d
      → d.manifest ≡ some mf
      → (mf.version ≡ v) × (mf.id ≡ id)

-- Without an error `current` names the version; with one, the markers and versions are unchanged.
abbrev pub TreeAfter : Manifest → World → World × Option Error → Type 0
TreeAfter mf w (w', none) = w'.tree ≡ record w.tree { current = some mf.version }
TreeAfter mf w (w', some e) = w'.tree ≡ w.tree

settle_tree :
    (act : Activation) (mf : Manifest) (w : World) (g : Option GateError)
    → TreeAfter mf w (settle act mf w g)
unfolding settle
settle_tree act mf w (some e) = refl
settle_tree act mf w none = write act.write_fails
  where
    write :
        (fails : Bool)
        → TreeAfter mf w (if fails then (w, some io_failed) else (set_current w mf.version, none))
    write true = refl
    write false = refl

swapped_tree :
    (t : Timing) (act : Activation) (mf : Manifest) (w : World) (r : Supervisor × Option AddError)
    → TreeAfter mf w (swapped t act mf w r)
unfolding swapped
swapped_tree t act mf w (s, some e) = refl
swapped_tree t act mf w (s, none) = settle_tree act mf (record w { supervisor = s }) _

launched_tree :
    (t : Timing) (act : Activation) (mf : Manifest) (dir : VersionDir) (w : World)
    (found : Option (String × Bytes))
    → TreeAfter mf w (launched t act mf dir w found)
unfolding launched
launched_tree t act mf dir w none = refl
launched_tree t act mf dir w (some (name, _)) = swapped_tree t act mf w _

pub activate_tree :
    (windows : Bool) (t : Timing) (act : Activation) (mf : Manifest) (dir : VersionDir) (w : World)
    → TreeAfter mf w (activate windows t act mf dir w)
unfolding activate
activate_tree windows t act mf dir w = launched_tree t act mf dir w _

-- The module runs nothing, or the given manifest.
abbrev pub RunsOnly : Manifest → World → Type 0
RunsOnly mf w = (e : Entry) → lookup mf.id w.supervisor.runners ≡ some e → e.spec.manifest ≡ mf

replace_runs :
    (mf : Manifest) (name : String) (dir : VersionDir) (s : Supervisor) (e : Entry)
    → lookup mf.id (replace (spec_of mf name dir) s).0.runners ≡ some e
    → e.spec.manifest ≡ mf
replace_runs mf name dir s e h =
    ap (λ (x : Spec). x.manifest) (replace-spec (spec_of mf name dir) s e h)

stopped_none : (id : String) (s : Supervisor) → lookup id (stop_module id s).runners ≡ none
unfolding stop_module
stopped_none id s = ground (arith, lookup-remove id id s.runners, eq_iff id id)

settle_runs :
    (act : Activation) (mf : Manifest) (w : World) (g : Option GateError)
    → RunsOnly mf w
    → RunsOnly mf (settle act mf w g).0
unfolding settle
settle_runs act mf w (some e) runs x h = cc (stopped_none mf.id w.supervisor)
settle_runs act mf w none runs x h = write act.write_fails h
  where
    write :
        (fails : Bool)
        → lookup mf.id
            (if◌then◌else◌ {A = World × Option Error} fails
              (w, some io_failed)
              (set_current w mf.version, none)).0.supervisor.runners
          ≡ some x
        → x.spec.manifest ≡ mf
    write true k = runs x k
    write false k = runs x k

swapped_runs :
    (t : Timing) (act : Activation) (mf : Manifest) (w : World) (r : Supervisor × Option AddError)
    → ((e : Entry) → lookup mf.id r.0.runners ≡ some e → e.spec.manifest ≡ mf)
    → RunsOnly mf (swapped t act mf w r).0
unfolding swapped
swapped_runs t act mf w (s, some e) runs = runs
swapped_runs t act mf w (s, none) runs = settle_runs act mf (record w { supervisor = s }) _ runs

launched_runs :
    (t : Timing) (act : Activation) (mf : Manifest) (dir : VersionDir) (w : World)
    (found : Option (String × Bytes))
    → lookup mf.id w.supervisor.runners ≡ none
    → RunsOnly mf (launched t act mf dir w found).0
unfolding launched
launched_runs t act mf dir w none idle e h = cc
launched_runs t act mf dir w (some (name, _)) idle e h =
    swapped_runs t act mf w _ (replace_runs mf name dir w.supervisor) e h

-- From a module that runs nothing, `activate` leaves it running nothing or the given manifest.
pub activate_runs :
    (windows : Bool) (t : Timing) (act : Activation) (mf : Manifest) (dir : VersionDir) (w : World)
    → lookup mf.id w.supervisor.runners ≡ none
    → RunsOnly mf (activate windows t act mf dir w).0
unfolding activate
activate_runs windows t act mf dir w idle = launched_runs t act mf dir w _ idle

settle_stopped :
    (act : Activation) (mf : Manifest) (w : World) (g : Option GateError) {e : GateError}
    → (settle act mf w g).1 ≡ some (gate_failed e)
    → lookup mf.id (settle act mf w g).0.supervisor.runners ≡ none
unfolding settle
settle_stopped act mf w (some e) h = stopped_none mf.id w.supervisor
settle_stopped act mf w none h = ground arith

swapped_stopped :
    (t : Timing) (act : Activation) (mf : Manifest) (w : World) (r : Supervisor × Option AddError)
    {e : GateError}
    → (swapped t act mf w r).1 ≡ some (gate_failed e)
    → lookup mf.id (swapped t act mf w r).0.supervisor.runners ≡ none
unfolding swapped
swapped_stopped t act mf w (s, some e) h = cc
swapped_stopped t act mf w (s, none) h = settle_stopped act mf (record w { supervisor = s }) _ h

launched_stopped :
    (t : Timing) (act : Activation) (mf : Manifest) (dir : VersionDir) (w : World)
    (found : Option (String × Bytes)) {e : GateError}
    → (launched t act mf dir w found).1 ≡ some (gate_failed e)
    → lookup mf.id (launched t act mf dir w found).0.supervisor.runners ≡ none
unfolding launched
launched_stopped t act mf dir w none h = cc
launched_stopped t act mf dir w (some (name, _)) h = swapped_stopped t act mf w _ h

-- A module that fails its gate is stopped and unregistered.
pub activate_stopped :
    (windows : Bool) (t : Timing) (act : Activation) (mf : Manifest) (dir : VersionDir) (w : World)
    {e : GateError}
    → (activate windows t act mf dir w).1 ≡ some (gate_failed e)
    → lookup mf.id (activate windows t act mf dir w).0.supervisor.runners ≡ none
unfolding activate
activate_stopped windows t act mf dir w h = launched_stopped t act mf dir w _ h
