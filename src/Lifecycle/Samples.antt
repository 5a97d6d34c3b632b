-- ===== src/Lifecycle/Samples.antt =====
-- A tree with two versions of one module, and what its promotions meet.
use weaveplatform_agent_core.Base.{ℕ, String, true, false, none, some, [], ◌∷◌}
use weaveplatform_agent_core.Manifest.{Manifest}
use weaveplatform_agent_core.Manifest.Samples.{sysinfo}
use weaveplatform_agent_core.Supervise.{running, HealthStatus}
use weaveplatform_agent_core.Lifecycle.Gate.{Poll, Timing}
use weaveplatform_agent_core.Lifecycle.Disk.{VersionDir, World, Activation}
use weaveplatform_agent_core.Lifecycle.Promote.{Faults, RollbackFaults}

abbrev pub window : Timing
window = record { gate_timeout = 100; gate_stable = 10 }

abbrev pub good : ℕ → Poll
good t = record {
  at = t;
  status = some (running, some HealthStatus.healthy);
  seen = t;
  cancelled = false;
}

abbrev pub sick : ℕ → Poll
sick t = record {
  at = t;
  status = some (running, some HealthStatus.degraded);
  seen = t;
  cancelled = false;
}

abbrev pub passes : Activation
passes = record { start = 0; polls = good 1 ∷ good 6 ∷ good 11 ∷ []; write_fails = false }

abbrev pub fails : Activation
fails = record { start = 0; polls = good 1 ∷ sick 6 ∷ good 12 ∷ []; write_fails = false }

-- The module under another version.
abbrev pub at_version : String → Manifest
at_version v = record sysinfo { version = v }

abbrev pub dir_of : String → VersionDir
dir_of v = record {
  binaries = ("sysinfo", 1 ∷ []) ∷ [];
  manifest = some (at_version v);
  config = none;
}

abbrev pub installed : World
installed = record {
  tree = record {
    current = some "1.0.0";
    previous = some "0.9.0";
    versions = ("1.0.0", dir_of "1.0.0") ∷ ("0.9.0", dir_of "0.9.0") ∷ [];
  };
  staging = [];
  supervisor = record { base_context = true; caps = []; runners = [] };
}

abbrev pub answers : Activation → Activation → Faults
answers a b = record {
  mkdir_fails = false;
  remove_fails = none;
  rename_fails = false;
  read_current_fails = false;
  first = a;
  second = b;
  write_previous_fails = false;
  read_versions_fails = false;
  prune_leaves = λ v d. none;
}

abbrev pub flip : RollbackFaults
flip = record { activation = passes; write_previous_fails = false }
