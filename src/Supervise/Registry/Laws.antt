-- ===== src/Supervise/Registry/Laws.antt =====
-- `Add`, `StopModule` and `Replace` of internal/supervise/supervisor.go, seen by their clients.
use weaveplatform_agent_core.Base.{
  String, true, false, none, some, List, [], ◌∷◌, lookup, insert, lookup-insert, lookup-remove, ◌≡◌,
  refl, arith, eq_iff, if◌then◌else◌, ◌===◌, Bool-cases, inl, inr,
}
use weaveplatform_agent_core.Capability.{has}
use weaveplatform_agent_core.Supervise.Registry.{
  Spec, Entry, Supervisor, gate, add, stop_module, replace, no_base_context, already_registered,
}

pub gate-spec : (spec : Spec) (names : List String) → (gate spec names).spec ≡ spec
unfolding gate
gate-spec spec [] = refl
gate-spec spec (n ∷ names) = refl

abbrev pub registered : Spec → Supervisor → Supervisor
registered spec s = record s {
  runners = insert spec.manifest.id (gate spec (has s.caps spec.manifest.capabilities)) s.runners;
}

pub add_new :
    (spec : Spec) (s : Supervisor)
    → s.base_context ≡ true
    → lookup spec.manifest.id s.runners ≡ none
    → add spec s ≡ (registered spec s, none)
unfolding add
add_new spec s set free = ground arith

pub add_unset :
    (spec : Spec) (s : Supervisor) → s.base_context ≡ false → add spec s ≡ (s, some no_base_context)
unfolding add
add_unset spec s unset = ground arith

pub add_taken :
    (spec : Spec) (s : Supervisor) {e : Entry}
    → s.base_context ≡ true
    → lookup spec.manifest.id s.runners ≡ some e
    → add spec s ≡ (s, some already_registered)
unfolding add
add_taken spec s set taken = ground arith

-- After core has set the base context, a replacement is never refused, the module's entry is the
-- new spec's whether or not another stood there, and no other entry changes.
pub replace_installs :
    (spec : Spec) (s : Supervisor) (j : String)
    → s.base_context ≡ true
    → ((replace spec s).1 ≡ none)
      × (lookup j (replace spec s).0.runners ≡ (
          if spec.manifest.id === j
          then some (gate spec (has s.caps spec.manifest.capabilities))
          else lookup j s.runners))
unfolding replace stop_module
replace_installs spec s j set =
    let id = spec.manifest.id in
    let stopped = stop_module id s in
    let free : lookup id stopped.runners ≡ none =
      ground (arith, lookup-remove id id s.runners, eq_iff id id) in
    rw (add_new spec stopped set free) (
      refl,
      ground (
        arith,
        lookup-insert id j (gate spec (has s.caps spec.manifest.capabilities)) stopped.runners,
        lookup-remove id j s.runners,
      ),
    )

-- What stands under the id after a replacement, refused or not, is the new spec or nothing.
pub replace-spec :
    (spec : Spec) (s : Supervisor) (e : Entry)
    → lookup spec.manifest.id (replace spec s).0.runners ≡ some e
    → e.spec ≡ spec
unfolding replace stop_module
replace-spec spec s e h =
    let id = spec.manifest.id in
    elim (Bool-cases s.base_context) [
      | inl set ↦
          let new = gate spec (has s.caps spec.manifest.capabilities) in
          ground (
            arith,
            (replace_installs spec s id set).1,
            eq_iff id id,
            gate-spec spec (has s.caps spec.manifest.capabilities),
          )
      | inr unset ↦ ground (
        arith,
        add_unset spec (stop_module id s) unset,
        lookup-remove id id s.runners,
        eq_iff id id,
      )
    ]
