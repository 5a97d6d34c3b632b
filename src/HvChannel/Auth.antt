-- ===== src/HvChannel/Auth.antt =====
-- Authentication of the channel: sdk/hvchannel/auth.go and `channelAuth` of
-- internal/transport/hypervisor_auth.go. Ed25519 and JSON are not the repository's code: they are the
-- fields of `Wire` and of `Host`. A nonce that is consumed is Go's nil slice, the empty byte string.
pub mod Handshake
use weaveplatform_agent_core.Base.{
  ℕ, String, Bool, true, false, not, ◌||◌, Option, none, some, List, [], ◌∷◌, ◌++◌, length, ◌==◌,
  ◌===◌, eq_bytes, codes, has_prefix, if◌then◌else◌,
}
use weaveplatform_agent_core.HvChannel.Frame.{Bytes}

abbrev pub begin_kind : String
begin_kind = "auth.begin"

abbrev pub response_kind : String
response_kind = "auth.response"

abbrev pub pre_auth_kind : String
pre_auth_kind = "guestweave.presence.hello"

unfoldable pub allowed_before_auth : String → Bool
allowed_before_auth kind = has_prefix (codes kind) (codes pre_auth_kind)

abbrev pub nonce_size : ℕ
nonce_size = 32

pub record AuthResponse : Type 0 where
  pub public_key : Bytes
  pub signature : Bytes

pub data Reply : Type 0 where
  challenge : Bytes → Reply
  result : Bool → String → Reply

pub record Wire : Type 0 where
  -- ed25519.Verify: public key, message, signature
  pub ed25519_verify : Bytes → Bytes → Bytes → Bool
  -- json.Unmarshal into AuthResponse
  pub json_response : Bytes → Option AuthResponse

-- The host's side of the cryptography.
pub record Host : Type 0 where
  -- priv.Public()
  pub public_of : Bytes → Bytes
  -- ed25519.Sign
  pub ed25519_sign : Bytes → Bytes → Bytes
  -- json.Marshal of an AuthResponse
  pub marshal : AuthResponse → Bytes

-- The domain, with its NUL, then the nonce.
unfoldable pub signing_message : Bytes → Bytes
signing_message nonce = codes "weave-hvchannel-auth" ++ (0 ∷ nonce)

-- `Sign`; `none` is an error.
unfoldable pub sign : Host → Bytes → Bytes → Option AuthResponse
sign h priv nonce =
    if not (length priv == 64)
    then none
    else if not (length nonce == nonce_size)
    then none
    else some (record {
      public_key = h.public_of priv;
      signature = h.ed25519_sign priv (signing_message nonce);
    })

-- `Verify`: the reason of the refusal, `none` where possession is proved.
unfoldable pub verify : Wire → Bytes → Bytes → AuthResponse → Option String
verify w trusted nonce resp =
    if not (length trusted == 32)
    then some "no trusted key configured"
    else if not (length nonce == nonce_size)
    then some "no outstanding challenge"
    else if not (eq_bytes resp.public_key trusted)
    then some "response offers a different public key than this guest trusts"
    else if not (w.ed25519_verify trusted (signing_message nonce) resp.signature)
    then some "signature does not match the challenge"
    else none

pub record ChannelAuth : Type 0 where
  pub trusted : Bytes
  pub nonce : Bytes
  pub ok : Bool

-- A new connection; without a usable key file `trusted` is empty.
unfoldable pub new_channel_auth : Option Bytes → ChannelAuth
new_channel_auth none = record { trusted = []; nonce = []; ok = false }
new_channel_auth (some key) = record { trusted = key; nonce = []; ok = false }

-- `loadChannelKey`: `file` is what reading and base64 give.
unfoldable pub load_channel_key : Option Bytes → Option Bytes
load_channel_key none = none
load_channel_key (some key) = if length key == 32 then some key else none

unfoldable pub allows : ChannelAuth → String → Bool
unfolding allowed_before_auth
allows a kind = allowed_before_auth kind || a.ok

-- auth.begin, by what NewNonce gives.
abbrev pub begin : ChannelAuth → Option Bytes → ChannelAuth × Option Reply
begin a none = (a, some (result false "no challenge available"))
begin a (some nonce) = (record a { nonce = nonce }, some (challenge nonce))

abbrev pub verdict : ChannelAuth → Option String → ChannelAuth × Option Reply
verdict a (some reason) = (a, some (result false reason))
verdict a none = (record a { ok = true }, some (result true ""))

-- auth.response, by what decoding gives: the nonce is consumed before it is used.
abbrev pub respond : Wire → ChannelAuth → Option AuthResponse → ChannelAuth × Option Reply
respond w a none = (a, some (result false "malformed response"))
respond w a (some resp) = verdict (record a { nonce = [] }) (verify w a.trusted a.nonce resp)

-- What a control frame asks for.
pub data Control : Type 0 where
  begins responds unknown : Control

unfoldable pub control : String → Control
control kind =
    if kind === begin_kind then begins else if kind === response_kind then responds else unknown

abbrev pub handle_as :
    Wire → ChannelAuth → Control → Bytes → Option Bytes → ChannelAuth × Option Reply
handle_as w a begins body fresh = begin a fresh
handle_as w a responds body fresh = respond w a (w.json_response body)
handle_as w a unknown body fresh = (a, none)

-- `handle`; `fresh` is the nonce that the random source would give.
unfoldable pub handle :
    Wire → ChannelAuth → String → Bytes → Option Bytes → ChannelAuth × Option Reply
unfolding control
handle w a kind body fresh = handle_as w a (control kind) body fresh
