-- ===== src/Supervise/Registry/Sound.antt =====
-- What a registered module may look like: an invariant of the registry of
-- internal/supervise/supervisor.go under its calls and the passes of the modules' own loops.
use weaveplatform_agent_core.Base.{
  ℕ, String, Bool, true, false, Option, none, some, List, [], ◌∷◌, lookup, insert, lookup-insert,
  lookup-remove, ◌≡◌, refl, ap, arith, eq_iff, if◌then◌else◌, ◌===◌, Bool-cases, Option-cases, inl,
  inr, some-injective, subst, sym, ◌∙◌, if-both,
}
use weaveplatform_agent_core.Capability.{CapabilitySet, has}
use weaveplatform_agent_core.Supervise.{Settings, requirements_unmet, missing, set_state}
use weaveplatform_agent_core.Supervise.Loop.{Round, Progress, again, waiting, ended, run}
use weaveplatform_agent_core.Supervise.Loop.States.{is_active, is_final, Settled, run-Settled}
use weaveplatform_agent_core.Supervise.Registry.{
  Spec, Entry, Supervisor, new_runner, gate, add, stop_module, replace, stamp, keepalive, advanced,
  run_module,
}
use weaveplatform_agent_core.Supervise.Registry.Laws.{gate-spec, add_new, add_unset, add_taken}

-- How an entry stands, against the host's inventory: its loop goes on, or it has ended in a final
-- state, or the entry is gated with the names of the capabilities that the host lacks.
pub data Standing (caps : CapabilitySet) (e : Entry) : Type 0 where
  active :
      e.live ≡ true
      → is_active e.runner.state ≡ true
      → has caps e.spec.manifest.capabilities ≡ []
      → Standing caps e
  final :
      e.live ≡ false
      → is_final e.runner.state ≡ true
      → has caps e.spec.manifest.capabilities ≡ []
      → Standing caps e
  gated :
      (n : String) (names : List String)
      → e.live ≡ false
      → e.runner.state ≡ requirements_unmet
      → e.runner.detail ≡ missing (n ∷ names)
      → has caps e.spec.manifest.capabilities ≡ n ∷ names
      → Standing caps e

-- Every entry stands under its own module's id, in one of these ways.
pub record IsSound (s : Supervisor) : Type 0 where
  pub at_id : (id : String) (e : Entry) → lookup id s.runners ≡ some e → e.spec.manifest.id ≡ id
  pub stands : (id : String) (e : Entry) → lookup id s.runners ≡ some e → Standing s.caps e

gate-Standing :
    (caps : CapabilitySet) (spec : Spec) (names : List String)
    → has caps spec.manifest.capabilities ≡ names
    → Standing caps (gate spec names)
unfolding gate set_state is_active
gate-Standing caps spec [] h = active refl refl h
gate-Standing caps spec (n ∷ names) h = gated n names refl refl refl h

stamp-Standing :
    (caps : CapabilitySet) (now : ℕ) (e : Entry) → Standing caps e → Standing caps (stamp now e)
stamp-Standing caps now e (active l a h) = active l a h
stamp-Standing caps now e (final l a h) = final l a h
stamp-Standing caps now e (gated n names l a d h) = gated n names l a d h

advanced-Standing :
    (caps : CapabilitySet) (e : Entry) (p : Progress)
    → e.live ≡ true
    → has caps e.spec.manifest.capabilities ≡ []
    → Settled p
    → Standing caps (advanced p e)
advanced-Standing caps e (again l) live h settled = active live settled h
advanced-Standing caps e (waiting r) live h settled = active live settled h
advanced-Standing caps e (ended r) live h settled = final refl settled h

live-has :
    (caps : CapabilitySet) (e : Entry)
    → Standing caps e
    → e.live ≡ true
    → has caps e.spec.manifest.capabilities ≡ []
live-has caps e (active l a h) live = h
live-has caps e (final l a h) live = h
live-has caps e (gated n names l a d h) live = cc

-- Writing one entry.
insert-IsSound :
    (s : Supervisor) (id : String) (new : Entry)
    → IsSound s
    → new.spec.manifest.id ≡ id
    → Standing s.caps new
    → IsSound (record s { runners = insert id new s.runners })
insert-IsSound s id new h own standing = record {
  at_id = λ j e p. (split j e p).0;
  stands = λ j e p. (split j e p).1;
}
  where
    split :
        (j : String) (e : Entry)
        → lookup j (insert id new s.runners) ≡ some e
        → (e.spec.manifest.id ≡ j) × Standing s.caps e
    split j e p = go (id === j) refl (sym (lookup-insert id j new s.runners) ∙ p)
      where
        go :
            (b : Bool)
            → (id === j) ≡ b
            → (if b then some new else lookup j s.runners) ≡ some e
            → (e.spec.manifest.id ≡ j) × Standing s.caps e
        go true same q =
            subst (λ (x : Entry). (x.spec.manifest.id ≡ j) × Standing s.caps x)
              (some-injective _ _ q) (own ∙ (eq_iff id j).0 same, standing)
        go false differs q = (h.at_id j e q, h.stands j e q)

pub add-IsSound : (spec : Spec) (s : Supervisor) → IsSound s → IsSound (add spec s).0
add-IsSound spec s h = elim (Bool-cases s.base_context) [
  | inl set ↦ elim (Option-cases (lookup spec.manifest.id s.runners)) [
    | inl free ↦ rw (add_new spec s set free) (
        insert-IsSound s spec.manifest.id _ h (ap (λ (x : Spec). x.manifest.id) (gate-spec spec _))
          (gate-Standing s.caps spec _ refl))
    | inr (_, taken) ↦ rw (add_taken spec s set taken) h
  ]
  | inr unset ↦ rw (add_unset spec s unset) h
]

pub stop_module-IsSound : (id : String) (s : Supervisor) → IsSound s → IsSound (stop_module id s)
unfolding stop_module
stop_module-IsSound id s h = record {
  at_id = λ j e p. h.at_id j e (ground (arith, lookup-remove id j s.runners));
  stands = λ j e p. h.stands j e (ground (arith, lookup-remove id j s.runners));
}

pub replace-IsSound : (spec : Spec) (s : Supervisor) → IsSound s → IsSound (replace spec s).0
unfolding replace
replace-IsSound spec s h = add-IsSound spec _ (stop_module-IsSound spec.manifest.id s h)

pub keepalive-IsSound :
    (id : String) (now : ℕ) (s : Supervisor) → IsSound s → IsSound (keepalive id now s)
unfolding keepalive
keepalive-IsSound id now s h = go (lookup id s.runners) refl
  where
    go :
        (o : Option Entry)
        → lookup id s.runners ≡ o
        → IsSound (elim o [
          | none ↦ s
          | some e ↦ record s { runners = insert id (stamp now e) s.runners }
        ])
    go none found = h
    go (some e) found =
        insert-IsSound s id (stamp now e) h (h.at_id id e found)
          (stamp-Standing s.caps now e (h.stands id e found))

advanced-spec : (p : Progress) (e : Entry) → (advanced p e).spec ≡ e.spec
advanced-spec (again l) e = refl
advanced-spec (waiting r) e = refl
advanced-spec (ended r) e = refl

pub run_module-IsSound :
    (cfg : Settings) (id : String) (rounds : List Round) (s : Supervisor)
    → IsSound s
    → IsSound (run_module cfg id rounds s)
unfolding run_module is_active
run_module-IsSound cfg id rounds s h = go (lookup id s.runners) refl
  where
    p : Progress
    p = run cfg new_runner rounds

    go :
        (o : Option Entry)
        → lookup id s.runners ≡ o
        → IsSound (elim o [
          | none ↦ s
          | some e ↦ if e.live then record s { runners = insert id (advanced p e) s.runners } else s
        ])
    go none found = h
    go (some e) found =
        if-both IsSound e.live _ s
          (λ live.
            insert-IsSound s id (advanced p e) h
              (ap (λ (x : Spec). x.manifest.id) (advanced-spec p e) ∙ h.at_id id e found)
              (advanced-Standing s.caps e p live (live-has s.caps e (h.stands id e found) live)
                (run-Settled cfg new_runner rounds refl)))
          (λ _. h)
