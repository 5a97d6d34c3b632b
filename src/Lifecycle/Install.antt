-- ===== src/Lifecycle/Install.antt =====
-- `stageFiles`, `InstallLocal` and `Install` of internal/lifecycle/lifecycle.go. The verifier is the
-- interface `supervise.Verifier`: a function of the staged bytes and the manifest.
pub mod Verified
mod Tests
use weaveplatform_agent_core.Base.{
  ℕ, String, Bool, true, false, not, ◌&&◌, Option, none, some, List, [], ◌∷◌, Dict, lookup, insert,
  remove, if◌then◌else◌, ◌===◌,
}
use weaveplatform_agent_core.Manifest.{
  Manifest, ChannelModule, ChannelManifest, ChannelArtifact, validate, module_of, artifact_for,
  module_manifest, Invalid,
}
use weaveplatform_agent_core.Verify.{Bytes, Crypto}
use weaveplatform_agent_core.Lifecycle.Gate.{Timing}
use weaveplatform_agent_core.Lifecycle.Disk.{
  put_version, VersionDir, World, Error, no_manifest, no_binary, io_failed, not_verified,
  binary_name, find_binary,
}
use weaveplatform_agent_core.Lifecycle.Promote.{Faults, promote}
use weaveplatform_agent_core.Lifecycle.Fetch.{
  Fetch, FetchError, Fetched, got, failed, fetch_channel, DownloadError, Downloaded, saved,
  rejected, download,
}

abbrev pub Verifier : Type 0
Verifier = Bytes → Manifest → Bool

-- manifest.Load of a manifest that core has written.
abbrev pub loaded : Manifest → Option Manifest
loaded mf = elim (validate mf) [ none ↦ some mf | some _ ↦ none ]

-- The directory that staging builds: the binary under the name that `findBinary` looks for first.
abbrev pub staged_dir : Bool → Manifest → Bytes → Option Bytes → VersionDir
staged_dir windows mf binary config = record {
  binaries = (binary_name windows mf.id, binary) ∷ [];
  manifest = loaded mf;
  config = config;
}

-- What the operating system answers to one install: an I/O error while staging, with what it leaves
-- in the staging area, and the answers to the promotion.
pub record InstallFaults : Type 0 where
  pub staging_fails : Option (Option VersionDir)
  pub promotion : Faults

abbrev pub set_staging : World → Dict VersionDir → World
set_staging w s = record w { staging = s }

pub data InstallError : Type 0 where
  invalid_manifest : Invalid → InstallError
  no_source not_in_channel other_version no_artifact : InstallError
  fetch_failed : FetchError → InstallError
  download_failed : DownloadError → InstallError
  failed_at : Error → InstallError

abbrev pub at_error : World × Option Error → World × Option InstallError
at_error (w, none) = (w, none)
at_error (w, some e) = (w, some (failed_at e))

-- What `stageFiles` comes to, by the I/O error and the verifier's answer; then `promote`.
abbrev pub staged :
    Bool
    → Timing
    → InstallFaults
    → Manifest
    → Bytes
    → Option Bytes
    → Option (Option VersionDir)
    → Bool
    → World
    → World × Option InstallError
staged windows t f mf binary config (some left) accepted w =
    (set_staging w (put_version mf.version left w.staging), some (failed_at io_failed))
staged windows t f mf binary config none false w =
    (set_staging w (remove mf.version w.staging), some (failed_at not_verified))
staged windows t f mf binary config none true w = at_error (
    promote windows t f.promotion mf (staged_dir windows mf binary config)
      (set_staging w (insert mf.version (staged_dir windows mf binary config) w.staging)))

-- `stageFiles`, then `promote` of what was staged.
unfoldable pub stage_and_promote :
    Verifier
    → Bool
    → Timing
    → InstallFaults
    → Manifest
    → Bytes
    → Option Bytes
    → World
    → World × Option InstallError
stage_and_promote verifies windows t f mf binary config w =
    staged windows t f mf binary config f.staging_fails (verifies binary mf) w

abbrev pub install_found :
    Verifier
    → Bool
    → Timing
    → InstallFaults
    → Manifest
    → Option Bytes
    → Option (String × Bytes)
    → World
    → World × Option InstallError
install_found verifies windows t f mf config none w = (w, some (failed_at no_binary))
install_found verifies windows t f mf config (some (_, binary)) w =
    stage_and_promote verifies windows t f mf binary config w

abbrev pub install_loaded :
    Verifier
    → Bool
    → Timing
    → InstallFaults
    → VersionDir
    → Option Manifest
    → World
    → World × Option InstallError
install_loaded verifies windows t f src none w = (w, some (failed_at no_manifest))
install_loaded verifies windows t f src (some mf) w =
    install_found verifies windows t f mf src.config (find_binary windows src mf.id) w

-- `InstallLocal` from the directory `src`.
unfoldable pub install_local :
    Verifier → Bool → Timing → InstallFaults → VersionDir → World → World × Option InstallError
install_local verifies windows t f src w = install_loaded verifies windows t f src src.manifest w

-- What a channel install is asked for, and where it runs.
pub record Request : Type 0 where
  pub module_id : String
  pub version : String
  pub os : String
  pub arch : String
  pub body : Option Bytes

abbrev pub install_valid :
    Verifier
    → Bool
    → Timing
    → InstallFaults
    → Manifest
    → Bytes
    → Option Invalid
    → World
    → World × Option InstallError
install_valid verifies windows t f mf binary (some e) w = (w, some (invalid_manifest e))
install_valid verifies windows t f mf binary none w =
    stage_and_promote verifies windows t f mf binary none w

abbrev pub install_downloaded :
    Verifier
    → Bool
    → Timing
    → InstallFaults
    → Manifest
    → Downloaded
    → World
    → World × Option InstallError
install_downloaded verifies windows t f mf (rejected e) w = (w, some (download_failed e))
install_downloaded verifies windows t f mf (saved binary) w =
    install_valid verifies windows t f mf binary (validate mf) w

abbrev pub install_artifact :
    Crypto
    → Verifier
    → Bool
    → Timing
    → InstallFaults
    → Request
    → ChannelModule
    → Option ChannelArtifact
    → World
    → World × Option InstallError
install_artifact c verifies windows t f q cm none w = (w, some no_artifact)
install_artifact c verifies windows t f q cm (some a) w =
    install_downloaded verifies windows t f
      (module_manifest cm (record { os = q.os; arch = q.arch } ∷ []))
      (download c q.body a.size a.digest) w

abbrev pub install_entry :
    Crypto
    → Verifier
    → Bool
    → Timing
    → InstallFaults
    → Request
    → Option ChannelModule
    → World
    → World × Option InstallError
install_entry c verifies windows t f q none w = (w, some not_in_channel)
install_entry c verifies windows t f q (some cm) w =
    if not (q.version === "") && not (cm.version === q.version)
    then (w, some other_version)
    else install_artifact c verifies windows t f q cm (artifact_for q.os q.arch cm.artifacts) w

abbrev pub install_fetched :
    Crypto
    → Verifier
    → Bool
    → Timing
    → InstallFaults
    → Request
    → Fetched
    → World
    → World × Option InstallError
install_fetched c verifies windows t f q (failed e) w = (w, some (fetch_failed e))
install_fetched c verifies windows t f q (got ch) w =
    install_entry c verifies windows t f q (module_of q.module_id ch.modules) w

-- `Install`, with the channel's state: `root` is `none` where no manifest source is configured, and
-- `has_store` is false where the Manager has no SeqStore.
unfoldable pub install :
    Crypto
    → Verifier
    → Bool
    → Timing
    → InstallFaults
    → Option Bytes
    → Bool
    → Fetch
    → Request
    → Option ℕ
    → World
    → Option ℕ × World × Option InstallError
install c verifies windows t f none has_store fetch q stored w = (stored, w, some no_source)
install c verifies windows t f (some root) has_store fetch q stored w =
    let (r, stored') = fetch_channel c root has_store fetch stored in
    let (w', e) = install_fetched c verifies windows t f q r w in (stored', w', e)
