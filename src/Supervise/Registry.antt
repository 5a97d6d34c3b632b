-- ===== src/Supervise/Registry.antt =====
-- The supervisor's registry: `Add`, `StopModule`, `Replace`, `Keepalive` and `Statuses` of
-- internal/supervise/supervisor.go. A registered module is `live` if a goroutine runs its loop: from
-- `Add` on, unless it is gated, and until `run` returns, which leaves the entry in the registry.
-- `StopModule` waits until that goroutine has wound down; the entry is gone before it waits.
pub mod Laws
pub mod Sound
pub mod History
use weaveplatform_agent_core.Base.{
  ℕ, String, Bool, true, false, Option, none, some, List, [], ◌∷◌, Dict, lookup, insert, remove,
  if◌then◌else◌,
}
use weaveplatform_agent_core.Capability.{CapabilitySet, has}
use weaveplatform_agent_core.Manifest.{Manifest}
use weaveplatform_agent_core.Supervise.{
  State, Settings, Detail, Runner, pending, requirements_unmet, empty, missing, HealthStatus,
  set_state,
}
use weaveplatform_agent_core.Supervise.Loop.{Round, Progress, again, waiting, ended, run}

pub record Spec : Type 0 where
  pub manifest : Manifest
  pub bin_path : String
  pub config : Option (List ℕ)

pub record Entry : Type 0 where
  pub spec : Spec
  pub runner : Runner
  pub live : Bool

pub record Supervisor : Type 0 where
  pub base_context : Bool
  pub caps : CapabilitySet
  pub runners : Dict Entry

pub data AddError : Type 0 where
  no_base_context already_registered : AddError

abbrev pub new_runner : Runner
new_runner = record {
  state = pending;
  detail = empty;
  pid = 0;
  restarts = 0;
  health = none;
  protocol = 0;
  keepalive = 0;
}

unfoldable pub set_base_context : Supervisor → Supervisor
set_base_context s = record s { base_context = true }

-- The gate behind the registration: an entry with missing capabilities is never launched.
unfoldable pub gate : Spec → List String → Entry
unfolding set_state
gate spec [] = record { spec = spec; runner = new_runner; live = true }
gate spec (n ∷ names) = record {
  spec = spec;
  runner = set_state requirements_unmet (missing (n ∷ names)) new_runner;
  live = false;
}

unfoldable pub add : Spec → Supervisor → Supervisor × Option AddError
add spec s =
    if s.base_context
    then elim (lookup spec.manifest.id s.runners) [
      | some _ ↦ (s, some already_registered)
      | none ↦ (
        record s {
          runners =
              insert spec.manifest.id (gate spec (has s.caps spec.manifest.capabilities)) s.runners;
        },
        none,
      )
    ]
    else (s, some no_base_context)

unfoldable pub stop_module : String → Supervisor → Supervisor
stop_module id s = record s { runners = remove id s.runners }

unfoldable pub replace : Spec → Supervisor → Supervisor × Option AddError
unfolding add stop_module
replace spec s = add spec (stop_module spec.manifest.id s)

abbrev pub stamp : ℕ → Entry → Entry
stamp now e = record e { runner = record e.runner { keepalive = now } }

unfoldable pub keepalive : String → ℕ → Supervisor → Supervisor
keepalive id now s = elim (lookup id s.runners) [
  | none ↦ s
  | some e ↦ record s { runners = insert id (stamp now e) s.runners }
]

-- The entry, once its goroutine has taken `run` so far.
abbrev pub advanced : Progress → Entry → Entry
advanced (again l) e = record e { runner = l.runner }
advanced (waiting r) e = record e { runner = r }
advanced (ended r) e = record e { runner = r; live = false }

-- The goroutine of a live entry goes through `rounds`, which are all that it met since `Add`.
unfoldable pub run_module : Settings → String → List Round → Supervisor → Supervisor
run_module cfg id rounds s = elim (lookup id s.runners) [
  | none ↦ s
  | some e ↦
      if e.live
      then record s { runners = insert id (advanced (run cfg new_runner rounds) e) s.runners }
      else s
]

pub record Status : Type 0 where
  pub id : String
  pub version : String
  pub state : State
  pub detail : Detail
  pub restarts : ℕ
  pub health : Option HealthStatus

unfoldable pub status : Entry → Status
status e = record {
  id = e.spec.manifest.id;
  version = e.spec.manifest.version;
  state = e.runner.state;
  detail = e.runner.detail;
  restarts = e.runner.restarts;
  health = e.runner.health;
}

unfoldable pub statuses : Dict Entry → List Status
unfolding status
statuses [] = []
statuses ((id, e) ∷ rest) = status e ∷ statuses rest
