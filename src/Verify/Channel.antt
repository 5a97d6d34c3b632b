-- ===== src/Verify/Channel.antt =====
-- `NewChannel` of internal/verify/channel.go: the verifier that a signed channel anchors.
-- The binary is read by the caller: `binary` is `none` where os.Open or the copy fails.
pub mod Grants
use weaveplatform_agent_core.Base.{
  ℕ, String, Bool, true, false, not, Option, none, some, List, [], ◌∷◌, ◌++◌, if◌then◌else◌, ◌==◌,
  ◌===◌, any, Dict, lookup, insert, codes, eq_bytes,
}
use weaveplatform_agent_core.Manifest.{
  Manifest, ChannelModule, ChannelArtifact, ChannelManifest, artifact_for,
}
use weaveplatform_agent_core.Verify.{Bytes, Crypto}

pub data Refusal : Type 0 where
  no_manifest not_signed wrong_version wrong_privilege wrong_session wrong_protocol no_artifact :
      Refusal
  unreadable wrong_digest : Refusal
  not_granted : String → Refusal

-- The loop that fills `signed`: a later entry replaces an earlier one of the same id.
unfoldable pub index : List ChannelModule → Dict ChannelModule → Dict ChannelModule
index [] signed = signed
index (m ∷ ms) signed = index ms (insert m.id m signed)

-- slices.Contains
unfoldable pub contains : List String → String → Bool
contains [] w = false
contains (g ∷ gs) w = if g === w then true else contains gs w

-- `notGranted`; `none` is the empty text.
unfoldable pub first_not_granted : List String → List String → Option String
first_not_granted [] granted = none
first_not_granted (w ∷ ws) granted =
    let rest = first_not_granted ws granted in if contains granted w then rest else some w

-- The empty text for "nothing extra": a wanted capability that is itself empty passes unseen.
unfoldable pub not_granted_text : List String → List String → String
not_granted_text want granted = elim (first_not_granted want granted) [ none ↦ "" | some w ↦ w ]

unfoldable pub matches_signed_grants : Manifest → ChannelModule → Option Refusal
matches_signed_grants on_disk entry =
    if not (on_disk.privilege === entry.privilege)
    then some wrong_privilege
    else if not (on_disk.session === entry.session)
    then some wrong_session
    else if not (on_disk.protocol == entry.protocol)
    then some wrong_protocol
    else let extra = not_granted_text on_disk.capabilities entry.capabilities in
      if not (extra === "") then some (not_granted extra) else none

unfoldable pub digest_matches : Crypto → Option Bytes → String → Option Refusal
digest_matches c none want = some unreadable
digest_matches c (some binary) want =
    if eq_bytes (codes "sha256:" ++ c.sha256_hex binary) (codes want)
    then none
    else some wrong_digest

abbrev check_artifact : Crypto → Option Bytes → Option ChannelArtifact → Option Refusal
check_artifact c binary none = some no_artifact
check_artifact c binary (some a) = digest_matches c binary a.digest

abbrev check_entry :
    Crypto → String → String → Option Bytes → Manifest → ChannelModule → Option Refusal
check_entry c os arch binary on_disk entry =
    if not (entry.version === on_disk.version)
    then some wrong_version
    else elim (matches_signed_grants on_disk entry) [
      | some r ↦ some r
      | none ↦ check_artifact c binary (artifact_for os arch entry.artifacts)
    ]

-- The verifier on the host `os`/`arch`, for the manifest that accompanies the binary, if one does; the
-- result `none` is Go's nil error.
unfoldable pub verify_module :
    Crypto → String → String → ChannelManifest → Option Bytes → Option Manifest → Option Refusal
unfolding index
verify_module c os arch channel binary none = some no_manifest
verify_module c os arch channel binary (some on_disk) =
    elim (lookup on_disk.id (index channel.modules [])) [
      | none ↦ some not_signed
      | some entry ↦ check_entry c os arch binary on_disk entry
    ]
