-- ===== src/Verify/Channel/Grants.antt =====
-- The signed grants that the verifier of internal/verify/channel.go compares with.
use weaveplatform_agent_core.Base.{
  String, true, false, Option, none, some, List, [], ◌∷◌, ◌++◌, if◌then◌else◌, ◌===◌, Dict, lookup,
  insert, lookup-insert, codes, eq_of_eq_bytes, All, ◌≡◌, ◌≢◌, refl, arith, eq_iff, Bool-cases,
  Option-cases, inl, inr,
}
use weaveplatform_agent_core.Manifest.{
  Manifest, ChannelModule, ChannelArtifact, ChannelManifest, artifact_for,
}
use weaveplatform_agent_core.Verify.{Bytes, Crypto}
use weaveplatform_agent_core.Verify.Channel.{
  index, contains, first_not_granted, not_granted_text, matches_signed_grants, digest_matches,
  check_artifact, check_entry, verify_module,
}

-- The last entry with the id.
abbrev pub last_of : String → List ChannelModule → Option ChannelModule
last_of id [] = none
last_of id (m ∷ ms) =
    let rest = last_of id ms in
    elim rest [ some n ↦ some n | none ↦ if m.id === id then some m else none ]

index-last :
    (id : String) (ms : List ChannelModule) (d : Dict ChannelModule)
    → lookup id (index ms d) ≡ (elim (last_of id ms) [ some m ↦ some m | none ↦ lookup id d ])
unfolding index
index-last id [] d = refl
index-last id (m ∷ ms) d =
    ground (arith, index-last id ms (insert m.id m d), lookup-insert m.id id m d)

-- No more than the signed entry grants, and the signed bytes. `None of the capabilities is the empty
-- text` is the premise under which the list of capabilities is covered.
pub record IsGranted (c : Crypto) (os arch : String) (binary : Option Bytes) (m : Manifest)
    (entry : ChannelModule) : Type 0 where
  pub version : entry.version ≡ m.version
  pub privilege : m.privilege ≡ entry.privilege
  pub session : m.session ≡ entry.session
  pub protocol : m.protocol ≡ entry.protocol
  pub capabilities :
      All (λ w. w ≢ "") m.capabilities
      → All (λ w. contains entry.capabilities w ≡ true) m.capabilities
  pub artifact : ChannelArtifact
  pub bytes : Bytes
  pub for_host : artifact_for os arch entry.artifacts ≡ some artifact
  pub read : binary ≡ some bytes
  pub digest : codes "sha256:" ++ c.sha256_hex bytes ≡ codes artifact.digest

covered :
    (ws granted : List String)
    → not_granted_text ws granted ≡ ""
    → All (λ w. w ≢ "") ws
    → All (λ w. contains granted w ≡ true) ws
unfolding not_granted_text first_not_granted
covered [] granted h n = tt
covered (w ∷ ws) granted h n = elim (Bool-cases (contains granted w)) [
  | inl in_list ↦ (in_list, covered ws granted (ground arith) n.1)
  | inr extra ↦ absurd (n.0 (ground arith))
]

grants_sound :
    (m : Manifest) (entry : ChannelModule)
    → matches_signed_grants m entry ≡ none
    → (m.privilege ≡ entry.privilege)
      × (m.session ≡ entry.session)
      × (m.protocol ≡ entry.protocol)
      × (not_granted_text m.capabilities entry.capabilities ≡ "")
unfolding matches_signed_grants
grants_sound m entry h = ground (
  arith,
  eq_iff m.privilege entry.privilege,
  eq_iff m.session entry.session,
  eq_iff (not_granted_text m.capabilities entry.capabilities) "",
)

digest_sound :
    (c : Crypto) (binary : Option Bytes) (want : String)
    → digest_matches c binary want ≡ none
    → (b : Bytes) × (binary ≡ some b) × (codes "sha256:" ++ c.sha256_hex b ≡ codes want)
unfolding digest_matches
digest_sound c none want h = cc
digest_sound c (some b) want h =
    (b, refl, eq_of_eq_bytes (codes "sha256:" ++ c.sha256_hex b) (codes want) (ground arith))

artifact_sound :
    (c : Crypto) (binary : Option Bytes) (o : Option ChannelArtifact)
    → check_artifact c binary o ≡ none
    → (a : ChannelArtifact) × (o ≡ some a) × (digest_matches c binary a.digest ≡ none)
artifact_sound c binary none h = cc
artifact_sound c binary (some a) h = (a, refl, h)

entry_parts :
    (c : Crypto) (os arch : String) (binary : Option Bytes) (m : Manifest) (entry : ChannelModule)
    → check_entry c os arch binary m entry ≡ none
    → (entry.version ≡ m.version)
      × (matches_signed_grants m entry ≡ none)
      × (check_artifact c binary (artifact_for os arch entry.artifacts) ≡ none)
entry_parts c os arch binary m entry h = ground (arith, eq_iff entry.version m.version)

entry_sound :
    (c : Crypto) (os arch : String) (binary : Option Bytes) (m : Manifest) (entry : ChannelModule)
    → check_entry c os arch binary m entry ≡ none
    → IsGranted c os arch binary m entry
entry_sound c os arch binary m entry h =
    let (version, grants, artifact) = entry_parts c os arch binary m entry h in
    let (privilege, session, protocol, caps) = grants_sound m entry grants in
    let (a, found, matches) = artifact_sound c binary _ artifact in
    let (b, read, digest) = digest_sound c binary a.digest matches in
    record {
      version = version;
      privilege = privilege;
      session = session;
      protocol = protocol;
      capabilities = covered m.capabilities entry.capabilities caps;
      artifact = a;
      bytes = b;
      for_host = found;
      read = read;
      digest = digest;
    }

-- A module that the verifier accepts has a manifest and is the last entry of its id in the signed
-- channel: it has the signed version, privilege, session and protocol, its bytes have the signed digest
-- for this host, and every capability that it asks for is granted, provided none that it asks for is
-- empty.
pub verify_module-IsGranted :
    (c : Crypto) (os arch : String) (channel : ChannelManifest) (binary : Option Bytes)
    (on_disk : Option Manifest)
    → verify_module c os arch channel binary on_disk ≡ none
    → (m : Manifest) × (on_disk ≡ some m)
      × (entry : ChannelModule) × (last_of m.id channel.modules ≡ some entry)
      × IsGranted c os arch binary m entry
unfolding verify_module lookup
verify_module-IsGranted c os arch channel binary none h = cc
verify_module-IsGranted c os arch channel binary (some m) h =
    elim (Option-cases (lookup m.id (index channel.modules []))) [
      | inl absent ↦ ground arith
      | inr (entry, found) ↦ (
        m,
        refl,
        entry,
        ground (arith, index-last m.id channel.modules []),
        entry_sound c os arch binary m entry (rw (found, verify_module) at h),
      )
    ]

text_blind :
    (ws granted : List String)
    → contains granted "" ≡ false
    → not_granted_text ("" ∷ ws) granted ≡ ""
unfolding not_granted_text first_not_granted
text_blind ws granted missing = ground arith

-- An empty capability that is not granted hides every capability behind it: `notGranted` answers
-- with the first that is missing, and its caller takes the empty text for "none is missing".
pub matches_signed_grants_blind :
    (m : Manifest) (entry : ChannelModule) (ws : List String)
    → m.privilege ≡ entry.privilege
    → m.session ≡ entry.session
    → m.protocol ≡ entry.protocol
    → contains entry.capabilities "" ≡ false
    → matches_signed_grants (record m { capabilities = "" ∷ ws }) entry ≡ none
unfolding matches_signed_grants
matches_signed_grants_blind m entry ws p s q missing =
    let granted = entry.capabilities in
    ground (
      arith,
      eq_iff m.privilege entry.privilege,
      eq_iff m.session entry.session,
      text_blind ws granted missing,
      eq_iff (not_granted_text ("" ∷ ws) granted) "",
    )
