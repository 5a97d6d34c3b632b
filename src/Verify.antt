-- ===== src/Verify.antt =====
-- The signing chain of a channel manifest and the verifier of module binaries
-- (sdk/manifest/sig.go, internal/manifestverify/verify.go, internal/verify/channel.go).
-- Ed25519, SHA-256, base64 and JSON are not the repository's code: they are the fields of `Crypto`,
-- used as the functions that they are and with no law assumed.
pub mod Chain
pub mod Channel
pub mod Samples
mod Tests
use weaveplatform_agent_core.Base.{
  ℕ, String, Bool, true, false, not, ◌||◌, ◌&&◌, Option, none, some, List, [], ◌∷◌, ◌++◌,
  if◌then◌else◌, ◌==◌, ◌===◌, codes, length, eq_bytes,
}
use weaveplatform_agent_core.Manifest.{ChannelManifest, Invalid, check_channel}

abbrev pub Bytes : Type 0
Bytes = List ℕ

-- A `.sig` or `.pub` file, decoded from JSON.
pub record KeyFile : Type 0 where
  pub schema : ℕ
  pub key_id : String
  pub value : String

pub record Crypto : Type 0 where
  -- ed25519.Verify: public key, message, signature
  pub ed25519_verify : Bytes → Bytes → Bytes → Bool
  -- hex.EncodeToString of the SHA-256 sum
  pub sha256_hex : Bytes → Bytes
  -- base64.StdEncoding.DecodeString
  pub base64 : String → Option Bytes
  -- json.Unmarshal into Signature and PublicKey, and into ChannelManifest
  pub json_key : Bytes → Option KeyFile
  pub json_channel : Bytes → Option ChannelManifest

pub data ChainError : Type 0 where
  bad_endorsement not_root endorsement_invalid bad_signing_key bad_signature : ChainError
  key_mismatch manifest_signature_invalid malformed : ChainError
  invalid : Invalid → ChainError

pub data Result {ℓ} (A : Type ℓ) : Type ℓ where
  ok : A → Result A
  err : ChainError → Result A

-- Go's `if err != nil { return nil, err }`, and the same for a failed test.
infixl 5 ◌>>=◌ ◌>>◌
abbrev pub ◌>>=◌ {ℓ κ} : {A : Type ℓ} {B : Type κ} → Result A → (A → Result B) → Result B
err reason >>= next = err reason
ok value >>= next = next value

abbrev pub guard : Bool → ChainError → Result (Unit {0})
guard false reason = err reason
guard true reason = ok tt

abbrev pub ◌>>◌ {ℓ} : {B : Type ℓ} → Result (Unit {0}) → Result B → Result B
test >> next = test >>= λ _. next

abbrev pub from_option {ℓ} : {A : Type ℓ} → Option A → ChainError → Result A
from_option none e = err e
from_option (some a) e = ok a

-- The context, a NUL, the file's bytes.
unfoldable pub signing_message : String → Bytes → Bytes
signing_message context file = codes context ++ (0 ∷ file)

abbrev pub endorse_context : String
endorse_context = "weave-endorse-v1"

abbrev pub manifest_context : String
manifest_context = "weave-manifest-v1"

-- A key id with raw bytes.
pub record Keyed : Type 0 where
  pub key_id : String
  pub raw : Bytes

abbrev sized : KeyFile → ℕ → Bytes → Option Keyed
sized f size raw =
    if length raw == size then some (record { key_id = f.key_id; raw = raw }) else none

abbrev raw_key : Crypto → ℕ → KeyFile → Option Keyed
raw_key c size f =
    if not (f.schema == 1) || f.key_id === ""
    then none
    else elim (c.base64 f.value) [ none ↦ none | some raw ↦ sized f size raw ]

unfoldable pub parse_key : Crypto → ℕ → Bytes → Option Keyed
parse_key c size file = elim (c.json_key file) [ none ↦ none | some f ↦ raw_key c size f ]

-- ParsePublicKey and ParseSignature: the same checks, for 32 and for 64 bytes.
unfoldable pub parse_public_key : Crypto → Bytes → Option Keyed
unfolding parse_key
parse_public_key c file = parse_key c 32 file

unfoldable pub parse_signature : Crypto → Bytes → Option Keyed
unfolding parse_key
parse_signature c file = parse_key c 64 file

pub record Bundle : Type 0 where
  pub manifest : Bytes
  pub manifest_sig : Bytes
  pub signing_key : Bytes
  pub signing_key_sig : Bytes

abbrev checked : ChannelManifest → Option Invalid → Result ChannelManifest
checked m none = ok m
checked m (some e) = err (invalid e)

unfoldable pub parse_channel : Crypto → Bytes → Result ChannelManifest
parse_channel c file = elim (c.json_channel file) [
  | none ↦ err malformed
  | some m ↦ checked m (check_channel m)
]

-- manifestverify.Verify
unfoldable pub verify : Crypto → Bytes → Bundle → Result ChannelManifest
verify c root b = do
  endorsement ← from_option (parse_signature c b.signing_key_sig) bad_endorsement
  guard (endorsement.key_id === "root") not_root
  guard (c.ed25519_verify root (signing_message endorse_context b.signing_key) endorsement.raw)
      endorsement_invalid
  signing_key ← from_option (parse_public_key c b.signing_key) bad_signing_key
  sig ← from_option (parse_signature c b.manifest_sig) bad_signature
  guard (sig.key_id === signing_key.key_id) key_mismatch
  guard (c.ed25519_verify signing_key.raw (signing_message manifest_context b.manifest) sig.raw)
      manifest_signature_invalid
  parse_channel c b.manifest
