-- ===== src/HvChannel/Auth/Handshake.antt =====
-- The handshake between the two ends: sdk/hvchannel/auth.go against `handle`.
use weaveplatform_agent_core.Base.{
  String, Bool, true, false, Option, none, some, List, [], ◌∷◌, All, length, eq_bytes_refl, ◌===◌,
  ◌≡◌, refl, ap, ◌∙◌, arith,
}
use weaveplatform_agent_core.HvChannel.Frame.{Bytes}
use weaveplatform_agent_core.HvChannel.Auth.{
  begin_kind, response_kind, AuthResponse, challenge, result, Wire, Host, signing_message, sign,
  verify, ChannelAuth, respond, verdict, Control, begins, responds, unknown, control, handle_as,
  handle,
}

-- What the two ends rely on, for one key pair: a signature by the private key verifies under the
-- public one, which has 32 bytes, and a response survives its JSON.
pub record KeyPair (w : Wire) (h : Host) (priv : Bytes) : Type 0 where
  pub size : length priv ≡ 64
  pub public_size : length (h.public_of priv) ≡ 32
  pub signs : (m : Bytes) → w.ed25519_verify (h.public_of priv) m (h.ed25519_sign priv m) ≡ true
  pub decodes : (r : AuthResponse) → w.json_response (h.marshal r) ≡ some r

-- The host's answer to a challenge, as it crosses the wire.
abbrev pub answer_to : Host → Bytes → Bytes → Option Bytes
answer_to h priv nonce = elim (sign h priv nonce) [ none ↦ none | some r ↦ some (h.marshal r) ]

abbrev signed : Host → Bytes → Bytes → AuthResponse
signed h priv nonce = record {
  public_key = h.public_of priv;
  signature = h.ed25519_sign priv (signing_message nonce);
}

sign_size :
    (h : Host) (priv nonce : Bytes)
    → length priv ≡ 64
    → length nonce ≡ 32
    → sign h priv nonce ≡ some (signed h priv nonce)
unfolding sign
sign_size h priv nonce a b = ground arith

verify_signed :
    (w : Wire) (h : Host) (priv nonce : Bytes)
    → KeyPair w h priv
    → length nonce ≡ 32
    → verify w (h.public_of priv) nonce (signed h priv nonce) ≡ none
unfolding verify
verify_signed w h priv nonce k b =
    ground (arith, k.public_size, k.signs (signing_message nonce), eq_bytes_refl (h.public_of priv))

-- The handshake succeeds: on a guest that trusts the host's key a begin is answered with the fresh
-- challenge of 32 bytes, the host signs it, and its response authenticates the connection, whatever
-- the state before, for a key pair whose signatures verify and responses that survive their JSON.
pub handshake_authenticates :
    (w : Wire) (h : Host) (priv fresh unused : Bytes) (nonce : Bytes) (before : Bool)
    → KeyPair w h priv
    → length fresh ≡ 32
    → (r : Bytes) × (answer_to h priv fresh ≡ some r)
      × (handle w
            (record { trusted = h.public_of priv; nonce = nonce; ok = before })
            begin_kind
            unused
            (some fresh)
          ≡ (
            record { trusted = h.public_of priv; nonce = fresh; ok = before },
            some (challenge fresh),
          ))
      × (handle w
            (record { trusted = h.public_of priv; nonce = fresh; ok = before })
            response_kind
            r
            none
          ≡ (record { trusted = h.public_of priv; nonce = []; ok = true }, some (result true "")))
unfolding handle control
handshake_authenticates w h priv fresh unused nonce before k size = (
  h.marshal (signed h priv fresh),
  ap to_wire (sign_size h priv fresh k.size size),
  refl,
  ap (respond w a) (k.decodes (signed h priv fresh))
      ∙ ap (verdict (record a { nonce = [] })) (verify_signed w h priv fresh k size),
)
  where
    a : ChannelAuth
    a = record { trusted = h.public_of priv; nonce = fresh; ok = before }

    to_wire : Option AuthResponse → Option Bytes
    to_wire o = elim o [ none ↦ none | some r ↦ some (h.marshal r) ]

-- A control frame as it arrives: its kind, its body, and the nonce the random source would give.
abbrev pub ControlFrame : Type 0
ControlFrame = String × Bytes × Option Bytes

unfoldable pub handle_all : Wire → ChannelAuth → List ControlFrame → ChannelAuth
handle_all w a [] = a
handle_all w a ((kind, body, fresh) ∷ rest) = handle_all w (handle w a kind body fresh).0 rest

abbrev pub NoBegin : List ControlFrame → Type 0
NoBegin frames = All (λ (x : ControlFrame). (x.0 === begin_kind) ≡ false) frames

no_challenge :
    (w : Wire) (a : ChannelAuth) (d : Option AuthResponse) → a.nonce ≡ [] → (respond w a d).0 ≡ a
no_challenge w a none e = refl
no_challenge w a (some r) e = go (verify w a.trusted a.nonce r) refl
  where
    go :
        (v : Option String)
        → verify w a.trusted a.nonce r ≡ v
        → (verdict (record a { nonce = [] }) v).0 ≡ a
    go (some reason) f = ground arith
    go none f = absurd (unfold verify in ground arith)

handle_unchallenged :
    (w : Wire) (a : ChannelAuth) (kind : String) (body : Bytes) (fresh : Option Bytes)
    → (kind === begin_kind) ≡ false
    → a.nonce ≡ []
    → (handle w a kind body fresh).0 ≡ a
unfolding handle
handle_unchallenged w a kind body fresh other e = go (control kind) refl
  where
    go : (c : Control) → control kind ≡ c → (handle_as w a c body fresh).0 ≡ a
    go begins f = absurd (unfold control in ground arith)
    go responds f = no_challenge w a (w.json_response body) e
    go unknown f = refl

handle_all_unchallenged :
    (w : Wire) (a : ChannelAuth) (frames : List ControlFrame)
    → NoBegin frames
    → a.nonce ≡ []
    → handle_all w a frames ≡ a
unfolding handle_all
handle_all_unchallenged w a [] none_begins e = refl
handle_all_unchallenged w a ((kind, body, fresh) ∷ rest) (other, none_begins) e =
    let same = handle_unchallenged w a kind body fresh other e in
    ap (λ b. handle_all w b rest) same ∙ handle_all_unchallenged w a rest none_begins e

consumed : (w : Wire) (a : ChannelAuth) (r : AuthResponse) → (respond w a (some r)).0.nonce ≡ []
consumed w a r = go (verify w a.trusted a.nonce r)
  where
    go : (v : Option String) → (verdict (record a { nonce = [] }) v).0.nonce ≡ []
    go (some reason) = refl
    go none = refl

-- A challenge is answered once: after a response that could be read, accepted or refused, no
-- challenge is outstanding, and no sequence of control frames without a begin, whatever responses are
-- among them, readable or not, changes the state of the authentication.
pub handle_no_replay :
    (w : Wire) (a : ChannelAuth) (first : Bytes) (r : AuthResponse) (f : Option Bytes)
    (later : List ControlFrame)
    → w.json_response first ≡ some r
    → NoBegin later
    → ((handle w a response_kind first f).0.nonce ≡ [])
      × (handle_all w (handle w a response_kind first f).0 later
          ≡ (handle w a response_kind first f).0)
unfolding handle control
handle_no_replay w a first r f later d none_begins =
    let used : (respond w a (w.json_response first)).0.nonce ≡ [] =
      ap (λ o. (respond w a o).0.nonce) d ∙ consumed w a r in
    (used, handle_all_unchallenged w _ later none_begins used)
