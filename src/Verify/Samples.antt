-- ===== src/Verify/Samples.antt =====
-- Files of a chain, and toy functions in the place of the cryptography.
use weaveplatform_agent_core.Base.{
  ℕ, zero, suc, String, Option, none, some, [], ◌∷◌, ◌==◌, ◌===◌, codes, length, if◌then◌else◌,
}
use weaveplatform_agent_core.Manifest.{ChannelManifest}
use weaveplatform_agent_core.Manifest.Samples.{stable}
use weaveplatform_agent_core.Verify.{Bytes, KeyFile, Crypto, Bundle}

abbrev pub zeros : ℕ → Bytes
zeros zero = []
zeros (suc n) = 0 ∷ zeros n

abbrev key_file : String → String → KeyFile
key_file id value = record { schema = 1; key_id = id; value = value }

abbrev decode_key : Bytes → Option KeyFile
decode_key [] = none
decode_key (n ∷ _) =
    if n == 1
    then some (key_file "root" "sig")
    else if n == 2
    then some (key_file "k1" "key")
    else if n == 3
    then some (key_file "k1" "sig")
    else none

abbrev decode_channel : Bytes → Option ChannelManifest
decode_channel [] = none
decode_channel (n ∷ _) = if n == 4 then some stable else none

abbrev decode_base64 : String → Option Bytes
decode_base64 text = if text === "sig" then some (zeros 64) else some (zeros 32)

abbrev pub toy : Crypto
toy = record {
  ed25519_verify = λ key message sig. length sig == 64;
  sha256_hex = λ file. codes "0123456789abcdef0123456789abcdef0123456789abcdef0123456789abcdef";
  base64 = decode_base64;
  json_key = decode_key;
  json_channel = decode_channel;
}

abbrev pub bundle : Bundle
bundle = record {
  manifest = 4 ∷ [];
  manifest_sig = 3 ∷ [];
  signing_key = 2 ∷ [];
  signing_key_sig = 1 ∷ [];
}
