-- ===== src/Lifecycle/Fetch/Tests.antt =====
-- Fetches of concrete channels.
use weaveplatform_agent_core.Base.{true, false, some, [], ◌∷◌, ◌≡◌, refl, eq_bytes}
use weaveplatform_agent_core.Manifest.{check_channel, check_modules, expired}
use weaveplatform_agent_core.Manifest.Pattern.{id_matches, version_matches}
use weaveplatform_agent_core.Manifest.Samples.{stable, digest}
use weaveplatform_agent_core.Verify.{
  ok, verify, parse_key, parse_public_key, parse_signature, parse_channel,
}
use weaveplatform_agent_core.Verify.Samples.{zeros, toy, bundle}
use weaveplatform_agent_core.Lifecycle.Fetch.{
  Fetch, failed, rolled_back, fetch_channel, accept, check_sequence, last_sequence, fetch_all,
  download, saved, limit_read,
}
use weaveplatform_agent_core.Lifecycle.Fetch.Order.{Ascends, fetch_all-Ascends}

abbrev good_fetch : Fetch
good_fetch = record {
  manifest = some (4 ∷ []);
  manifest_sig = some (3 ∷ []);
  signing_key = some (2 ∷ []);
  signing_key_sig = some (1 ∷ []);
  now = 0;
  read_fails = false;
  put_fails = false;
}

bundle_ok : verify toy (zeros 32) bundle ≡ ok stable
unfolding verify parse_key parse_public_key parse_signature parse_channel check_channel
    check_modules id_matches version_matches
bundle_ok = refl

older_refused : (fetch_channel toy (zeros 32) true good_fetch (some 9)).0 ≡ failed rolled_back
unfolding fetch_channel accept check_sequence last_sequence expired verify parse_key
    parse_public_key parse_signature parse_channel check_channel check_modules id_matches
    version_matches
older_refused = refl

fetch_all-Ascends_example :
    Ascends 3 (fetch_all toy (zeros 32) (good_fetch ∷ good_fetch ∷ []) (some 3)).0
fetch_all-Ascends_example =
    fetch_all-Ascends toy (zeros 32) (good_fetch ∷ good_fetch ∷ []) (some 3)
      ((refl, refl), ((refl, refl), tt))

body_saved : download toy (some (7 ∷ 8 ∷ 9 ∷ [])) 3 digest ≡ saved (7 ∷ 8 ∷ 9 ∷ [])
unfolding download limit_read eq_bytes
body_saved = refl
