-- ===== src/Lifecycle/Install/Tests.antt =====
-- Installs into a concrete tree.
use weaveplatform_agent_core.Base.{
  true, false, none, some, [], ◌∷◌, ◌≡◌, refl, lookup, ap, ◌∙◌, some-injective, arith, eq_iff,
  eq_bytes,
}
use weaveplatform_agent_core.Verify.Samples.{zeros, toy}
use weaveplatform_agent_core.Lifecycle.Disk.{find_binary, binary_name, VersionDir}
use weaveplatform_agent_core.Lifecycle.Fetch.{Fetch}
use weaveplatform_agent_core.Lifecycle.Samples.{
  window, passes, at_version, dir_of, installed, answers,
}
use weaveplatform_agent_core.Lifecycle.Install.{Verifier, InstallFaults, Request, install}
use weaveplatform_agent_core.Lifecycle.Install.Verified.{
  IsVerified, LeavesNothingNew, install-IsVerified,
}

-- Accepts one file.
abbrev one_only : Verifier
one_only binary mf = eq_bytes binary (1 ∷ [])

abbrev quiet : InstallFaults
quiet = record { staging_fails = none; promotion = answers passes passes }

installed-IsVerified : IsVerified one_only false installed.tree.versions
unfolding lookup find_binary binary_name eq_bytes
installed-IsVerified = record {
  at = λ v name d mf binary found m bin.
      ground (arith, eq_iff "1.0.0" v, eq_iff "0.9.0" v, eq_iff "sysinfo" "sysinfo");
}

-- A version that cannot be deleted stays.
abbrev stuck : InstallFaults
stuck = record quiet { promotion = record quiet.promotion { prune_leaves = λ v d. some d } }

stuck-LeavesNothingNew : LeavesNothingNew false stuck.promotion.prune_leaves
stuck-LeavesNothingNew = record {
  manifests =
      λ v before d mf left m. ap (λ (y : VersionDir). y.manifest) (some-injective _ _ left) ∙ m;
  binaries = λ v id name before d binary left found.
      ap (λ (y : VersionDir). find_binary false y id) (some-injective _ _ left) ∙ found;
}

abbrev from_channel : Fetch
from_channel = record {
  manifest = some (4 ∷ []);
  manifest_sig = some (3 ∷ []);
  signing_key = some (2 ∷ []);
  signing_key_sig = some (1 ∷ []);
  now = 0;
  read_fails = false;
  put_fails = false;
}

abbrev wanted : Request
wanted = record {
  module_id = "sysinfo";
  version = "";
  os = "linux";
  arch = "amd64";
  body = some (1 ∷ 2 ∷ 3 ∷ []);
}

install-IsVerified_example :
    IsVerified one_only false
      (install toy one_only false window stuck
        (some (zeros 32))
        true
        from_channel
        wanted
        none
        installed).1.tree.versions
install-IsVerified_example =
    install-IsVerified toy one_only false window stuck (some (zeros 32)) true from_channel wanted
      none installed refl stuck-LeavesNothingNew installed-IsVerified

abbrev tampered : VersionDir
tampered = record (dir_of "2.0.0") { binaries = ("sysinfo", 2 ∷ []) ∷ [] }

tampered_found : find_binary false tampered "sysinfo" ≡ some ("sysinfo", 2 ∷ [])
unfolding find_binary binary_name lookup
tampered_found = refl

tampered_refused : one_only (2 ∷ []) (at_version "2.0.0") ≡ false
unfolding eq_bytes
tampered_refused = refl
