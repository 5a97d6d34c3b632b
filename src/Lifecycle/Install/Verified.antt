-- ===== src/Lifecycle/Install/Verified.antt =====
-- The install tree and the verifier of staged binaries.
use weaveplatform_agent_core.Base.{
  ℕ, String, Bool, true, false, Option, none, some, Dict, lookup, ◌≡◌, refl, sym, ap, ◌∙◌, inl, inr,
  arith, eq_iff, subst, subst₂,
}
use weaveplatform_agent_core.Manifest.{
  Manifest, ChannelModule, ChannelArtifact, Invalid, validate, artifact_for,
}
use weaveplatform_agent_core.Verify.{Bytes, Crypto}
use weaveplatform_agent_core.Lifecycle.Gate.{Timing}
use weaveplatform_agent_core.Lifecycle.Disk.{
  VersionDir, World, Error, Leavings, not_verified, binary_name, find_binary,
}
use weaveplatform_agent_core.Lifecycle.Promote.{Faults, promote}
use weaveplatform_agent_core.Lifecycle.Promote.Versions.{LeftFrom, promote-OldOrNew}
use weaveplatform_agent_core.Lifecycle.Fetch.{
  Fetch, Fetched, got, failed, Downloaded, saved, rejected,
}
use weaveplatform_agent_core.Lifecycle.Install.{
  Verifier, loaded, staged_dir, InstallFaults, InstallError, failed_at, at_error, stage_and_promote,
  install_found, install_loaded, install_local, Request, install_valid, install_downloaded,
  install_artifact, install_entry, install_fetched, install, staged, set_staging,
}

-- Whatever `activate` would find to run in a version directory has been accepted by the verifier,
-- with the manifest that stands beside it.
pub record IsVerified (verifies : Verifier) (windows : Bool) (vs : Dict VersionDir) : Type 0 where
  pub at :
      (v name : String) (d : VersionDir) (mf : Manifest) (binary : Bytes)
      → lookup v vs ≡ some d
      → d.manifest ≡ some mf
      → find_binary windows d mf.id ≡ some (name, binary)
      → verifies binary mf ≡ true

-- What a failed deletion leaves of a version's directory: no manifest, and no binary that `activate`
-- would find, that was not found in the directory before.
pub record LeavesNothingNew (windows : Bool) (leaves : Leavings) : Type 0 where
  pub manifests :
      (v : String) (before d : VersionDir) (mf : Manifest)
      → leaves v before ≡ some d
      → d.manifest ≡ some mf
      → before.manifest ≡ some mf
  pub binaries :
      (v id name : String) (before d : VersionDir) (binary : Bytes)
      → leaves v before ≡ some d
      → find_binary windows d id ≡ some (name, binary)
      → find_binary windows before id ≡ some (name, binary)

found_before :
    (windows : Bool) (leaves : Leavings) (v name : String) (before d : VersionDir) (mf : Manifest)
    (binary : Bytes)
    → LeavesNothingNew windows leaves
    → LeftFrom leaves v before d
    → d.manifest ≡ some mf
    → find_binary windows d mf.id ≡ some (name, binary)
    → (before.manifest ≡ some mf) × (find_binary windows before mf.id ≡ some (name, binary))
found_before windows leaves v name before d mf binary calm (inl same) m found = (
  ap (λ (y : VersionDir). y.manifest) (sym same) ∙ m,
  ap (λ (y : VersionDir). find_binary windows y mf.id) (sym same) ∙ found,
)
found_before windows leaves v name before d mf binary calm (inr left) m found =
    (calm.manifests v before d mf left m, calm.binaries v mf.id name before d binary left found)

loaded-some : (mf : Manifest) {x : Manifest} → loaded mf ≡ some x → mf ≡ x
loaded-some mf h = ground arith

staged-binary :
    (windows : Bool) (mf : Manifest) (binary : Bytes) (config : Option Bytes) {name : String}
    {b : Bytes}
    → find_binary windows (staged_dir windows mf binary config) mf.id ≡ some (name, b)
    → b ≡ binary
unfolding find_binary lookup
staged-binary windows mf binary config h =
    ground (arith, eq_iff (binary_name windows mf.id) (binary_name windows mf.id))

promoted-IsVerified :
    (verifies : Verifier) (windows : Bool) (t : Timing) (f : Faults) (mf : Manifest)
    (binary : Bytes) (config : Option Bytes) (w : World)
    → f.remove_fails ≡ none
    → LeavesNothingNew windows f.prune_leaves
    → verifies binary mf ≡ true
    → IsVerified verifies windows w.tree.versions
    → IsVerified verifies windows
        (promote windows t f mf (staged_dir windows mf binary config) w).0.tree.versions
promoted-IsVerified verifies windows t f mf binary config w clean calm accepted ok = record {
  at = λ v name d x b found m bin.
      let (before, origin, left) =
        promote-OldOrNew windows t f mf (staged_dir windows mf binary config) w clean v d found in
      let (m', bin') = found_before windows f.prune_leaves v name before d x b calm left m bin in
      elim origin [
        | inl old ↦ ok.at v name before x b old m' bin'
        | inr (_, same) ↦
            let is_mf : mf ≡ x =
              loaded-some mf (ap (λ (y : VersionDir). y.manifest) (sym same) ∙ m') in
            let found_in_stage =
              ap (λ (y : VersionDir). find_binary windows y mf.id) (sym same)
              ∙ ap (λ (y : Manifest). find_binary windows before y.id) is_mf
              ∙ bin' in
            subst₂ (λ y z. verifies y z ≡ true)
              (sym (staged-binary windows mf binary config found_in_stage)) is_mf accepted
      ];
}

module _ (verifies : Verifier) (windows : Bool) (t : Timing) (f : InstallFaults)
    (clean : f.promotion.remove_fails ≡ none)
    (calm : LeavesNothingNew windows f.promotion.prune_leaves) where
  abbrev Kept : World → World × Option InstallError → Type 0
  Kept w r =
      IsVerified verifies windows w.tree.versions → IsVerified verifies windows r.0.tree.versions

  at_error-world : (r : World × Option Error) → (at_error r).0 ≡ r.0
  at_error-world (w, none) = refl
  at_error-world (w, some e) = refl

  stage-Kept :
      (mf : Manifest) (binary : Bytes) (config : Option Bytes) (w : World)
      → Kept w (stage_and_promote verifies windows t f mf binary config w)
  unfolding stage_and_promote
  stage-Kept mf binary config w = go f.staging_fails (verifies binary mf) refl
    where
      go :
          (s : Option (Option VersionDir)) (b : Bool)
          → verifies binary mf ≡ b
          → Kept w (staged windows t f mf binary config s b w)
      go (some left) b e ok = ok
      go none false e ok = ok
      go none true e ok =
          subst (λ (y : World). IsVerified verifies windows y.tree.versions)
            (sym (at_error-world _))
            (promoted-IsVerified verifies windows t f.promotion mf binary config (set_staging w _)
              clean calm e ok)

  install_loaded-Kept :
      (src : VersionDir) (m : Option Manifest) (w : World)
      → Kept w (install_loaded verifies windows t f src m w)
  install_loaded-Kept src none w ok = ok
  install_loaded-Kept src (some mf) w ok = go (find_binary windows src mf.id) ok
    where
      go :
          (b : Option (String × Bytes))
          → Kept w (install_found verifies windows t f mf src.config b w)
      go none ok = ok
      go (some (_, binary)) kept = stage-Kept mf binary src.config w kept

  install_downloaded-Kept :
      (mf : Manifest) (r : Downloaded) (w : World)
      → Kept w (install_downloaded verifies windows t f mf r w)
  install_downloaded-Kept mf (rejected e) w ok = ok
  install_downloaded-Kept mf (saved binary) w ok = go (validate mf) ok
    where
      go : (e : Option Invalid) → Kept w (install_valid verifies windows t f mf binary e w)
      go (some e) ok = ok
      go none kept = stage-Kept mf binary none w kept

  install_artifact-Kept :
      (c : Crypto) (q : Request) (cm : ChannelModule) (a : Option ChannelArtifact) (w : World)
      → Kept w (install_artifact c verifies windows t f q cm a w)
  install_artifact-Kept c q cm none w ok = ok
  install_artifact-Kept c q cm (some a) w ok = install_downloaded-Kept _ _ w ok

  install_entry-Kept :
      (c : Crypto) (q : Request) (cm : Option ChannelModule) (w : World)
      → Kept w (install_entry c verifies windows t f q cm w)
  install_entry-Kept c q none w ok = ok
  install_entry-Kept c q (some cm) w ok =
      ground (arith, install_artifact-Kept c q cm (artifact_for q.os q.arch cm.artifacts) w ok)

  install_fetched-Kept :
      (c : Crypto) (q : Request) (r : Fetched) (w : World)
      → Kept w (install_fetched c verifies windows t f q r w)
  install_fetched-Kept c q (failed e) w ok = ok
  install_fetched-Kept c q (got ch) w ok = install_entry-Kept c q _ w ok

-- A local install keeps the install tree verified, however it ends, provided that deleting an older
-- directory of the same version works, and that what a failed deletion leaves of a pruned version has
-- no manifest and no binary to run that the directory had not before: if everything that could be run from the versions directory was
-- accepted by the verifier, with its manifest, it still is.
pub install_local-IsVerified :
    (verifies : Verifier) (windows : Bool) (t : Timing) (f : InstallFaults) (src : VersionDir)
    (w : World)
    → f.promotion.remove_fails ≡ none
    → LeavesNothingNew windows f.promotion.prune_leaves
    → IsVerified verifies windows w.tree.versions
    → IsVerified verifies windows (install_local verifies windows t f src w).0.tree.versions
unfolding install_local
install_local-IsVerified verifies windows t f src w clean calm =
    install_loaded-Kept verifies windows t f clean calm src src.manifest w

-- A channel install keeps the install tree verified, however it ends: if everything that could be run
-- from the versions directory was accepted by the verifier, with its manifest, it still is, whatever the
-- fetcher, the stored sequence, the download and the supervisor answer, provided that deleting an older
-- directory of the same version works, and that what a failed deletion leaves of a pruned version has
-- no manifest and no binary to run that the directory had not before.
pub install-IsVerified :
    (c : Crypto) (verifies : Verifier) (windows : Bool) (t : Timing) (f : InstallFaults)
    (root : Option Bytes) (has_store : Bool) (fetch : Fetch) (q : Request) (stored : Option ℕ)
    (w : World)
    → f.promotion.remove_fails ≡ none
    → LeavesNothingNew windows f.promotion.prune_leaves
    → IsVerified verifies windows w.tree.versions
    → IsVerified verifies windows
        (install c verifies windows t f root has_store fetch q stored w).1.tree.versions
unfolding install
install-IsVerified c verifies windows t f none has_store fetch q stored w clean calm ok = ok
install-IsVerified c verifies windows t f (some root) has_store fetch q stored w clean calm ok =
    install_fetched-Kept verifies windows t f clean calm c q _ w ok

abbrev pub IsRefused : World → World × Option InstallError → Type 0
IsRefused w r =
    (r.1 ≡ some (failed_at not_verified)) × (r.0.tree ≡ w.tree) × (r.0.supervisor ≡ w.supervisor)

-- A binary that the verifier refuses is never promoted: where the directory holds a manifest and a
-- binary and staging meets no I/O error, the local install reports the refusal, and leaves the install
-- tree and the supervisor as they were.
pub install_local-IsRefused :
    (verifies : Verifier) (windows : Bool) (t : Timing) (f : InstallFaults) (src : VersionDir)
    (w : World) (mf : Manifest) (name : String) (binary : Bytes)
    → src.manifest ≡ some mf
    → find_binary windows src mf.id ≡ some (name, binary)
    → verifies binary mf ≡ false
    → f.staging_fails ≡ none
    → IsRefused w (install_local verifies windows t f src w)
unfolding install_local stage_and_promote
install_local-IsRefused verifies windows t f src w mf name binary m b refused calm =
    subst (λ y. IsRefused w (install_loaded verifies windows t f src y w)) (sym m)
      (subst (λ y. IsRefused w (install_found verifies windows t f mf src.config y w)) (sym b)
        (subst₂ (λ y z. IsRefused w (staged windows t f mf binary src.config y z w)) (sym calm)
          (sym refused) (refl, refl, refl)))
