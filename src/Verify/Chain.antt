-- ===== src/Verify/Chain.antt =====
-- The chain of trust behind `Verify` of internal/manifestverify/verify.go, and the signed message.
use weaveplatform_agent_core.Base.{
  String, Bool, true, false, Option, none, some, [], ◌∷◌, ◌++◌, ◌≡◌, ◌≢◌, refl, arith, codes,
  eq_iff, ◌↔◌,
}
use weaveplatform_agent_core.Manifest.{ChannelManifest, check_channel}
use weaveplatform_agent_core.Verify.{
  Bytes, Crypto, Keyed, Bundle, Result, ok, ChainError, from_option, guard, ◌>>◌, verify,
  parse_channel, parse_public_key, parse_signature, signing_message, endorse_context,
  manifest_context, ◌>>=◌,
}

-- The chain of trust behind a parsed manifest.
pub record IsChained (c : Crypto) (root : Bytes) (b : Bundle) (m : ChannelManifest) : Type 0 where
  pub endorsement : Keyed
  pub signing_key : Keyed
  pub signature : Keyed
  pub endorsement_file : parse_signature c b.signing_key_sig ≡ some endorsement
  pub by_root : endorsement.key_id ≡ "root"
  pub endorsed :
      c.ed25519_verify root (signing_message endorse_context b.signing_key) endorsement.raw ≡ true
  pub key_file : parse_public_key c b.signing_key ≡ some signing_key
  pub signature_file : parse_signature c b.manifest_sig ≡ some signature
  pub same_key : signature.key_id ≡ signing_key.key_id
  pub signed :
      c.ed25519_verify signing_key.raw (signing_message manifest_context b.manifest) signature.raw
      ≡ true
  pub decoded : c.json_channel b.manifest ≡ some m
  pub well_formed : check_channel m ≡ none

parse_channel_ok :
    (c : Crypto) (file : Bytes) (m : ChannelManifest)
    → parse_channel c file ≡ ok m
    → (c.json_channel file ≡ some m) × (check_channel m ≡ none)
unfolding parse_channel
parse_channel_ok c file m h = ground arith

from_option_ok {ℓ κ} :
    {A : Type ℓ} {B : Type κ} (o : Option A) (e : ChainError) (f : A → Result B) {b : B}
    → (from_option o e >>= f) ≡ ok b
    → (a : A) × (o ≡ some a) × (f a ≡ ok b)
from_option_ok none e f h = cc
from_option_ok (some a) e f h = (a, refl, h)

guard_ok {ℓ} :
    {B : Type ℓ} (t : Bool) (e : ChainError) (k : Result B) {b : B}
    → (guard t e >> k) ≡ ok b
    → (t ≡ true) × (k ≡ ok b)
guard_ok true e k h = (refl, h)
guard_ok false e k h = cc

verify_sound :
    (c : Crypto) (root : Bytes) (b : Bundle) (m : ChannelManifest)
    → verify c root b ≡ ok m
    → IsChained c root b m
unfolding verify
verify_sound c root b m h =
    let (endorsement, e, h1) = from_option_ok _ _ _ h in
    let (is_root, h2) = guard_ok _ _ _ h1 in
    let (endorsed, h3) = guard_ok _ _ _ h2 in
    let (key, k, h4) = from_option_ok _ _ _ h3 in
    let (sig, s, h5) = from_option_ok _ _ _ h4 in
    let (same, h6) = guard_ok _ _ _ h5 in
    let (signed, h7) = guard_ok _ _ _ h6 in
    let (decoded, checks) = parse_channel_ok c b.manifest m h7 in
    record {
      endorsement = endorsement;
      signing_key = key;
      signature = sig;
      endorsement_file = e;
      by_root = (eq_iff _ _).0 is_root;
      endorsed = endorsed;
      key_file = k;
      signature_file = s;
      same_key = (eq_iff _ _).0 same;
      signed = signed;
      decoded = decoded;
      well_formed = checks;
    }

parse_channel_of :
    (c : Crypto) (file : Bytes) (m : ChannelManifest)
    → c.json_channel file ≡ some m
    → check_channel m ≡ none
    → parse_channel c file ≡ ok m
unfolding parse_channel
parse_channel_of c file m d h = ground arith

verify_complete :
    (c : Crypto) (root : Bytes) (b : Bundle) (m : ChannelManifest)
    → IsChained c root b m
    → verify c root b ≡ ok m
unfolding verify
verify_complete c root b m t =
    rw
      (
        t.endorsement_file,
        (eq_iff _ _).1 t.by_root,
        t.endorsed,
        t.key_file,
        t.signature_file,
        (eq_iff _ _).1 t.same_key,
        t.signed,
      )
      (parse_channel_of c b.manifest m t.decoded t.well_formed)

-- A bundle is accepted exactly with the whole chain: the root key signed the signing key's file in
-- the endorsement role under the id "root", that key, under its own id, signed the manifest's bytes
-- in the manifest role, and those bytes decode to the manifest returned, which passes its checks.
pub verify-IsChained :
    (c : Crypto) (root : Bytes) (b : Bundle) (m : ChannelManifest)
    → (verify c root b ≡ ok m) ↔ IsChained c root b m
verify-IsChained c root b m = (verify_sound c root b m, verify_complete c root b m)

append_cancel : (p s t : Bytes) → p ++ s ≡ p ++ t → s ≡ t
append_cancel [] s t h = h
append_cancel (x ∷ p) s t h = append_cancel p s t (ground arith)

roles_apart : (s t : Bytes) → signing_message endorse_context s ≢ signing_message manifest_context t
unfolding signing_message
roles_apart s t h = cc h

-- The message that is signed fixes the role and the file: an endorsement and a manifest signature
-- are never over the same message, and in one role different files have different messages.
pub signing_message_separates :
    (s t : Bytes) (context : String)
    → (signing_message endorse_context s ≢ signing_message manifest_context t)
      × (signing_message context s ≡ signing_message context t → s ≡ t)
unfolding signing_message
signing_message_separates s t context =
    (roles_apart s t, λ h. ground (arith, append_cancel (codes context) (0 ∷ s) (0 ∷ t)))
