-- ===== src/Verify/Tests.antt =====
-- The chain and the verifier on concrete files.
use weaveplatform_agent_core.Base.{
  false, none, some, [], ◌∷◌, ◌≡◌, refl, eq_bytes, lookup, insert, ◌↔◌,
}
use weaveplatform_agent_core.Manifest.{
  Manifest, ChannelModule, check_channel, check_modules, artifact_for,
}
use weaveplatform_agent_core.Manifest.Pattern.{id_matches, version_matches}
use weaveplatform_agent_core.Manifest.Samples.{sysinfo, sysinfo_entry, stable}
use weaveplatform_agent_core.Verify.Samples.{zeros, toy, bundle}
use weaveplatform_agent_core.Verify.{
  ok, err, not_root, verify, parse_key, parse_public_key, parse_signature, parse_channel,
}
use weaveplatform_agent_core.Verify.Chain.{IsChained, verify-IsChained}
use weaveplatform_agent_core.Verify.Channel.{
  index, contains, first_not_granted, not_granted_text, matches_signed_grants, digest_matches,
  verify_module,
}
use weaveplatform_agent_core.Verify.Channel.Grants.{last_of, IsGranted, verify_module-IsGranted}

bundle_accepted : verify toy (zeros 32) bundle ≡ ok stable
unfolding verify parse_key parse_public_key parse_signature parse_channel check_channel
    check_modules id_matches version_matches
bundle_accepted = refl

wrong_endorser : verify toy (zeros 32) (record bundle { signing_key_sig = 3 ∷ [] }) ≡ err not_root
unfolding verify parse_key parse_signature
wrong_endorser = refl

verify-IsChained_example :
    (verify toy (zeros 32) bundle ≡ ok stable) ↔ IsChained toy (zeros 32) bundle stable
verify-IsChained_example = verify-IsChained toy (zeros 32) bundle stable

sysinfo_accepted :
    verify_module toy "linux" "amd64" stable (some (7 ∷ 8 ∷ 9 ∷ [])) (some sysinfo) ≡ none
unfolding verify_module matches_signed_grants not_granted_text first_not_granted digest_matches
    lookup insert artifact_for eq_bytes index
sysinfo_accepted = refl

verify_module-IsGranted_example :
    (m : Manifest) × (some sysinfo ≡ some m)
    × (entry : ChannelModule) × (last_of m.id stable.modules ≡ some entry)
    × IsGranted toy "linux" "amd64" (some (7 ∷ 8 ∷ 9 ∷ [])) m entry
verify_module-IsGranted_example =
    verify_module-IsGranted toy "linux" "amd64" stable (some (7 ∷ 8 ∷ 9 ∷ [])) (some sysinfo)
      sysinfo_accepted

nothing_granted : contains sysinfo_entry.capabilities "" ≡ false
unfolding contains
nothing_granted = refl
