-- ===== src/Manifest/Tests.antt =====
-- Validation on concrete manifests.
use weaveplatform_agent_core.Base.{true, false, none, some, ◌≡◌, refl, codes, has_prefix}
use weaveplatform_agent_core.Manifest.{
  validate, check_channel, check_modules, module_of, check_lists, check_platforms, check_artifacts,
  os_arch, invalid_id, reserved_id,
}
use weaveplatform_agent_core.Manifest.Pattern.{id_matches, version_matches, digest_matches}
use weaveplatform_agent_core.Manifest.Safety.{IsComponent, validate-IsComponent}
use weaveplatform_agent_core.Manifest.Samples.{sysinfo, sysinfo_entry, stable, digest}

sysinfo_valid : validate sysinfo ≡ none
unfolding validate id_matches version_matches check_lists check_platforms check_artifacts os_arch
sysinfo_valid = refl

evil_refused :
    (validate (record sysinfo { id = "../evil" }) ≡ some invalid_id)
    × (validate (record sysinfo { id = "hvchannel" }) ≡ some reserved_id)
unfolding validate id_matches version_matches check_lists
evil_refused = (refl, refl)

patterns :
    (version_matches (codes "1.20.3") ≡ true)
    × (version_matches (codes "1.2.3-") ≡ false)
    × (version_matches (codes "1.2") ≡ false)
    × (version_matches (codes "1.2.3-a/b") ≡ false)
    × (digest_matches (codes digest) ≡ true)
unfolding version_matches digest_matches has_prefix
patterns = (refl, refl, refl, refl, refl)

validate-IsComponent_example : IsComponent (codes "sysinfo") × IsComponent (codes "1.2.3-rc.1")
validate-IsComponent_example = validate-IsComponent sysinfo sysinfo_valid

stable_valid : check_channel stable ≡ none
unfolding check_channel check_modules id_matches version_matches
stable_valid = refl

stable_module : module_of "sysinfo" stable.modules ≡ some sysinfo_entry
unfolding module_of
stable_module = refl
