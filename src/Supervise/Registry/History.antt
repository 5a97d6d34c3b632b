-- ===== src/Supervise/Registry/History.antt =====
-- The registry of internal/supervise/supervisor.go over a run of core: any sequence of `Add`,
-- `StopModule`, `Replace` and `Keepalive` calls, and of passes of the modules' own loops.
use weaveplatform_agent_core.Base.{
  ℕ, String, true, false, Option, none, some, List, [], ◌∷◌, lookup, ◌≡◌, refl, ◌∙◌, arith, eq_iff,
  ◌===◌, Bool-cases, Option-cases, inl, inr, ◌⊎◌, if-true, if-false,
}
use weaveplatform_agent_core.Capability.{CapabilitySet, has}
use weaveplatform_agent_core.Supervise.{Settings, pending, requirements_unmet, set_state}
use weaveplatform_agent_core.Supervise.Loop.{Round}
use weaveplatform_agent_core.Supervise.Registry.{
  Spec, Entry, Supervisor, AddError, set_base_context, gate, add, stop_module, replace, keepalive,
  run_module,
}
use weaveplatform_agent_core.Supervise.Registry.Laws.{
  add_new, add_unset, add_taken, replace_installs,
}
use weaveplatform_agent_core.Supervise.Registry.Sound.{
  IsSound, add-IsSound, stop_module-IsSound, replace-IsSound, keepalive-IsSound, run_module-IsSound,
}

pub data Event : Type 0 where
  adds replaces : Spec → Event
  stops : String → Event
  keeps_alive : String → ℕ → Event
  -- a module's loop has gone through these rounds since its registration
  goes : String → List Round → Event

unfoldable pub after : Settings → Event → Supervisor → Supervisor
after cfg (adds spec) s = (add spec s).0
after cfg (replaces spec) s = (replace spec s).0
after cfg (stops id) s = stop_module id s
after cfg (keeps_alive id now) s = keepalive id now s
after cfg (goes id rounds) s = run_module cfg id rounds s

unfoldable pub history : Settings → List Event → Supervisor → Supervisor
unfolding after
history cfg [] s = s
history cfg (e ∷ es) s = history cfg es (after cfg e s)

-- A supervisor of core that has just set its base context.
unfoldable pub started : CapabilitySet → Supervisor
unfolding set_base_context
started caps = set_base_context (record { base_context = false; caps = caps; runners = [] })

add-base_context : (spec : Spec) (s : Supervisor) → (add spec s).0.base_context ≡ s.base_context
add-base_context spec s = elim (Bool-cases s.base_context) [
  | inl set ↦ elim (Option-cases (lookup spec.manifest.id s.runners)) [
    | inl free ↦ rw (add_new spec s set free) refl
    | inr (_, taken) ↦ rw (add_taken spec s set taken) refl
  ]
  | inr unset ↦ rw (add_unset spec s unset) refl
]

after-base_context :
    (cfg : Settings) (e : Event) (s : Supervisor) → (after cfg e s).base_context ≡ s.base_context
unfolding after replace stop_module keepalive run_module
after-base_context cfg (adds spec) s = add-base_context spec s
after-base_context cfg (replaces spec) s = add-base_context spec (stop_module spec.manifest.id s)
after-base_context cfg (stops id) s = refl
after-base_context cfg (keeps_alive id now) s = ground arith
after-base_context cfg (goes id rounds) s = ground arith

after-IsSound : (cfg : Settings) (e : Event) (s : Supervisor) → IsSound s → IsSound (after cfg e s)
unfolding after
after-IsSound cfg (adds spec) s h = add-IsSound spec s h
after-IsSound cfg (replaces spec) s h = replace-IsSound spec s h
after-IsSound cfg (stops id) s h = stop_module-IsSound id s h
after-IsSound cfg (keeps_alive id now) s h = keepalive-IsSound id now s h
after-IsSound cfg (goes id rounds) s h = run_module-IsSound cfg id rounds s h

history-IsSound :
    (cfg : Settings) (es : List Event) (s : Supervisor)
    → s.base_context ≡ true
    → IsSound s
    → ((history cfg es s).base_context ≡ true) × IsSound (history cfg es s)
unfolding history
history-IsSound cfg [] s set h = (set, h)
history-IsSound cfg (e ∷ es) s set h =
    history-IsSound cfg es (after cfg e s) (after-base_context cfg e s ∙ set)
      (after-IsSound cfg e s h)

started-IsSound : (caps : CapabilitySet) → IsSound (started caps)
unfolding started lookup set_base_context
started-IsSound caps = record { at_id = λ j e p. cc; stands = λ j e p. cc }

-- A new entry, with nothing of the incumbent: not launched yet, or gated for want of capabilities.
abbrev pub IsFresh : Spec → Entry → Type 0
IsFresh spec e =
    (e.spec ≡ spec)
    × (e.runner.restarts ≡ 0)
    × (((e.live ≡ true) × (e.runner.state ≡ pending))
        ⊎ ((e.live ≡ false) × (e.runner.state ≡ requirements_unmet)))

-- The result of a replacement in the registry `s`.
pub record Replaced (spec : Spec) (s : Supervisor) (r : Supervisor × Option AddError) : Type 0 where
  pub accepted : r.1 ≡ none
  pub sound : IsSound r.0
  pub fresh : (e : Entry) × (lookup spec.manifest.id r.0.runners ≡ some e) × IsFresh spec e
  pub others :
      (id : String)
      → (spec.manifest.id === id) ≡ false
      → lookup id r.0.runners ≡ lookup id s.runners

gate-IsFresh : (spec : Spec) (names : List String) → IsFresh spec (gate spec names)
unfolding gate set_state
gate-IsFresh spec [] = (refl, refl, inl (refl, refl))
gate-IsFresh spec (n ∷ names) = (refl, refl, inr (refl, refl))

to_Replaced :
    (spec : Spec) (s : Supervisor)
    → s.base_context ≡ true
    → IsSound s
    → Replaced spec s (replace spec s)
to_Replaced spec s set h =
    let id = spec.manifest.id in
    record {
      accepted = (replace_installs spec s id set).0;
      sound = replace-IsSound spec s h;
      fresh = (
        gate spec (has s.caps spec.manifest.capabilities),
        (replace_installs spec s id set).1 ∙ if-true _ _ ((eq_iff id id).1 refl),
        gate-IsFresh spec _,
      );
      others = λ j differs. (replace_installs spec s j set).1 ∙ if-false _ _ differs;
    }

-- After any history of the registry since core set its base context (calls in any order, loops of
-- modules that went on or ended), a replacement is accepted whatever stood under the id: the id has a
-- fresh entry of the new spec, no other entry changes, and every entry of the registry is one whose
-- loop goes on and whose capabilities the host has, one whose loop has ended in a final state, or one
-- that is gated with the names of the capabilities that the host lacks.
pub replace-Replaced :
    (cfg : Settings) (caps : CapabilitySet) (es : List Event) (spec : Spec)
    → Replaced spec (history cfg es (started caps)) (replace spec (history cfg es (started caps)))
unfolding started set_base_context
replace-Replaced cfg caps es spec =
    let (set, sound) = history-IsSound cfg es (started caps) refl (started-IsSound caps) in
    to_Replaced spec (history cfg es (started caps)) set sound
