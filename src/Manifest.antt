-- ===== src/Manifest.antt =====
-- sdk/manifest: the module manifest, the channel manifest, and what they are checked for
-- (sdk/manifest/manifest.go, sdk/manifest/channel.go).
-- `json.Unmarshal` is no part of this model: the records stand for decoded documents.
pub mod Pattern
pub mod Safety
pub mod Samples
mod Tests
use weaveplatform_agent_core.Base.{
  ℕ, String, Bool, true, false, ◌||◌, ◌&&◌, Option, none, some, List, [], ◌∷◌, if◌then◌else◌, ◌==◌,
  ◌===◌, ltb, not, codes, ◌≡◌,
}
use Pattern.{id_matches, version_matches, digest_matches}

pub record Platform : Type 0 where
  pub os : String
  pub arch : String

pub record Artifact : Type 0 where
  pub os : String
  pub arch : String
  pub digest : String
  pub size : ℕ

-- The fields that core's decisions read; `Signing` is read by the OS verifiers only.
pub record Manifest : Type 0 where
  pub schema : ℕ
  pub id : String
  pub version : String
  pub protocol : ℕ
  pub zone : String
  pub privilege : String
  pub session : String
  pub platforms : List Platform
  pub capabilities : List String
  pub subscribes : List String
  pub artifacts : List Artifact

pub data Invalid : Type 0 where
  unsupported_schema invalid_id reserved_id invalid_version bad_protocol invalid_zone : Invalid
  invalid_privilege invalid_session no_platform invalid_os invalid_arch invalid_digest : Invalid
  bad_window : Invalid

-- The id that the hypervisor channel keeps for its own frames.
abbrev pub control_module : String
control_module = "hvchannel"

unfoldable pub os_arch : String → String → Option Invalid
os_arch o a =
    if not (o === "darwin" || (o === "windows" || o === "linux"))
    then some invalid_os
    else if not (a === "arm64" || a === "amd64")
    then some invalid_arch
    else none

unfoldable pub check_platforms : List Platform → Option Invalid
check_platforms [] = none
check_platforms (p ∷ ps) =
    let rest = check_platforms ps in elim (os_arch p.os p.arch) [ some e ↦ some e | none ↦ rest ]

unfoldable pub check_artifacts : List Artifact → Option Invalid
check_artifacts [] = none
check_artifacts (a ∷ as') =
    let rest = check_artifacts as' in
    elim (os_arch a.os a.arch) [
      | some e ↦ some e
      | none ↦ if digest_matches (codes a.digest) then rest else some invalid_digest
    ]

abbrev is_empty {ℓ} : {A : Type ℓ} → List A → Bool
is_empty [] = true
is_empty (_ ∷ _) = false

abbrev pub known_zone : String → Bool
known_zone z = z === "A" || (z === "B" || z === "C")

abbrev pub known_privilege : String → Bool
known_privilege p = p === "system" || (p === "service" || p === "user")

abbrev pub known_session : String → Bool
known_session s = s === "system" || (s === "per-user-console" || s === "per-user-all")

-- The two loops at the end of `Validate`.
unfoldable pub check_lists : Manifest → Option Invalid
check_lists m = elim (check_platforms m.platforms) [
  | some e ↦ some e
  | none ↦ check_artifacts m.artifacts
]

-- `none` is Go's nil error.
unfoldable pub validate : Manifest → Option Invalid
validate m =
    if not (m.schema == 1)
    then some unsupported_schema
    else if not (id_matches (codes m.id))
    then some invalid_id
    else if m.id === control_module
    then some reserved_id
    else if not (version_matches (codes m.version))
    then some invalid_version
    else if ltb m.protocol 1
    then some bad_protocol
    else if not (known_zone m.zone)
    then some invalid_zone
    else if not (known_privilege m.privilege)
    then some invalid_privilege
    else if not (known_session m.session)
    then some invalid_session
    else if is_empty m.platforms
    then some no_platform
    else check_lists m

-- One downloadable binary of a channel. `size` is the bit pattern's value when it is not negative.
pub record ChannelArtifact : Type 0 where
  pub os : String
  pub arch : String
  pub url : String
  pub digest : String
  pub size : ℕ

pub record ChannelModule : Type 0 where
  pub id : String
  pub version : String
  pub protocol : ℕ
  pub privilege : String
  pub session : String
  pub capabilities : List String
  pub subscribes : List String
  pub artifacts : List ChannelArtifact

-- `expires` is the time that `time.Parse` makes of the field: `absent` for the empty text.
pub data Expiry : Type 0 where
  absent unparseable : Expiry
  at : ℕ → Expiry

pub record ChannelManifest : Type 0 where
  pub schema : ℕ
  pub channel : String
  pub sequence : ℕ
  pub expires : Expiry
  pub protocol_min : ℕ
  pub protocol_max : ℕ
  pub modules : List ChannelModule

unfoldable pub expired : ChannelManifest → ℕ → Bool
expired c now = elim c.expires [ absent ↦ false | unparseable ↦ true | at t ↦ ltb t now ]

unfoldable pub check_modules : List ChannelModule → Option Invalid
check_modules [] = none
check_modules (m ∷ ms) =
    let rest = check_modules ms in
    if not (id_matches (codes m.id))
    then some invalid_id
    else if not (version_matches (codes m.version))
    then some invalid_version
    else rest

-- `ParseChannel` after the decoder.
unfoldable pub check_channel : ChannelManifest → Option Invalid
check_channel c =
    if not (c.schema == 1)
    then some unsupported_schema
    else if c.channel === "" || (c.protocol_min == 0 || ltb c.protocol_max c.protocol_min)
    then some bad_window
    else check_modules c.modules

-- (*ChannelManifest).Module: the first entry with the id.
unfoldable pub module_of : String → List ChannelModule → Option ChannelModule
module_of id [] = none
module_of id (m ∷ ms) = if m.id === id then some m else module_of id ms

-- ArtifactForHost, on the host `os`/`arch`.
unfoldable pub artifact_for : String → String → List ChannelArtifact → Option ChannelArtifact
artifact_for os arch [] = none
artifact_for os arch (a ∷ as') =
    if a.os === os && a.arch === arch then some a else artifact_for os arch as'

unfoldable pub module_manifest : ChannelModule → List Platform → Manifest
module_manifest cm ps = record {
  schema = 1;
  id = cm.id;
  version = cm.version;
  protocol = cm.protocol;
  zone = "A";
  privilege = cm.privilege;
  session = cm.session;
  platforms = ps;
  capabilities = cm.capabilities;
  subscribes = cm.subscribes;
  artifacts = [];
}
