-- ===== src/Identity.antt =====
-- The device's identity and its enrolment: internal/identity/identity.go. HTTP, JSON, base64 and
-- Ed25519 are parameters; the state is kept in a backend of the store. The provider's lock is released
-- between the first check and the last step of Enroll; the model runs one Enroll at a time.
pub mod Binding
pub mod Restart
mod Tests
use weaveplatform_agent_core.Base.{
  ℕ, String, Bool, true, false, not, ◌&&◌, ◌||◌, Option, none, some, List, [], ◌∷◌, length, codes,
  ltb, ◌==◌, eq_bytes, if◌then◌else◌,
}
use weaveplatform_agent_core.Store.{Bytes, Op, get, put, Call, Reply, value, done, keys, error}
use weaveplatform_agent_core.Store.Contract.{Backend}

abbrev pub identity_namespace : Bytes
identity_namespace = codes "core.identity"

abbrev pub state_key : Bytes
state_key = codes "state"

pub record EnrolmentState : Type 0 where
  pub device_id : Bytes
  pub tenant : Bytes
  pub private_key : Bytes

pub record Assignment : Type 0 where
  pub device_id : Bytes
  pub tenant : Bytes

-- The code that is not the repository's.
pub record Wire : Type 0 where
  -- json.Marshal, and json.Unmarshal with the base64 of the key
  pub marshal_state : EnrolmentState → Option Bytes
  pub unmarshal_state : Bytes → Option EnrolmentState
  -- json.Unmarshal of a signed assignment
  pub unmarshal_assignment : Bytes → Option Assignment
  pub decode_base64 : Bytes → Option Bytes
  -- ed25519.Verify: key, message, signature; priv.Public(); ed25519.Sign: key, message
  pub ed25519_verify : Bytes → Bytes → Bytes → Bool
  pub public_of : Bytes → Bytes
  pub ed25519_sign : Bytes → Bytes → Bytes

-- The server's reply to the enrolment.
pub record Response : Type 0 where
  pub device_id : Bytes
  pub tenant : Bytes
  pub assignment : Bytes
  pub assignment_sig : Bytes

-- One exchange: the nonce of the challenge to a public key, and the response to the key, the nonce
-- and its signature; `none` for an error of HTTP, a status other than 200 or a body that does not
-- decode.
pub record Server : Type 0 where
  pub challenge : Bytes → Option Bytes
  pub reply : Bytes → Bytes → Bytes → Option Response

pub record Provider (S : Type 0) : Type 0 where
  pub store : S
  pub enroll_url : Bytes
  -- url.Parse's scheme of it, `none` where it is no URL
  pub url_scheme : Option Bytes
  pub server_pub : Bytes
  pub allow_insecure_enroll : Bool
  pub priv : Bytes
  pub device_id : Bytes
  pub tenant : Bytes
  pub ephemeral : Bytes

abbrev pub is_blank : Bytes → Bool
is_blank [] = true
is_blank (c ∷ s) = false

module _ {S : Type 0} where
  -- `checkEnrolTransport`: the error, if any.
  abbrev pub check_scheme : Provider S → Option Bytes → Option String
  check_scheme p none = some "bad enrol URL"
  check_scheme p (some scheme) =
      if not (eq_bytes scheme (codes "https")) && not p.allow_insecure_enroll
      then some "enrolment requires https"
      else if is_blank p.server_pub && not p.allow_insecure_enroll
      then some "no pinned enrolment server key; refusing to enrol"
      else none

  unfoldable pub check_enrol_transport : Provider S → Option String
  check_enrol_transport p = check_scheme p p.url_scheme

  module _ (w : Wire) (p : Provider S) where
    abbrev pub check_bound : Bytes → Bytes → Option Assignment → Option String
    check_bound device tenant none = some "signed assignment unparseable"
    check_bound device tenant (some signed) =
        if not (eq_bytes signed.device_id device) || not (eq_bytes signed.tenant tenant)
        then some "signed assignment does not match returned device_id/tenant"
        else none

    abbrev pub check_signature : Bytes → Bytes → Option Bytes → Option Bytes → Option String
    check_signature device tenant none sig = some "assignment not base64"
    check_signature device tenant (some message) none = some "assignment signature invalid"
    check_signature device tenant (some message) (some sig) =
        if not (length sig == 64)
        then some "assignment signature invalid"
        else if not (w.ed25519_verify p.server_pub message sig)
        then some "enrolment assignment not signed by the pinned server key"
        else check_bound device tenant (w.unmarshal_assignment message)

    -- `verifyAssignment`: the error, if any.
    unfoldable pub verify_assignment : Response → Option String
    verify_assignment r =
        if is_blank p.server_pub
        then if p.allow_insecure_enroll then none else some "no pinned enrolment server key"
        else check_signature r.device_id r.tenant (w.decode_base64 r.assignment)
            (w.decode_base64 r.assignment_sig)

module _ {S : Type 0} (b : Backend S) (w : Wire) where
  unfoldable pub ask_identity : Option (ℕ → ℕ) → Op → S → S × Reply
  ask_identity entropy op s =
      b.step (record { ended = none; entropy = entropy; module_id = identity_namespace; op = op }) s

  abbrev pub saved_with : Provider S → S × Reply → Provider S × Option String
  saved_with p (s, error why) = (record p { store = s }, some why)
  saved_with p (s, value v) = (record p { store = s }, none)
  saved_with p (s, done) = (record p { store = s }, none)
  saved_with p (s, keys ks) = (record p { store = s }, none)

  abbrev pub save_raw : Option (ℕ → ℕ) → Provider S → Option Bytes → Provider S × Option String
  save_raw entropy p none = (p, some "marshal")
  save_raw entropy p (some raw) = saved_with p (ask_identity entropy (put state_key raw) p.store)

  -- `saveLocked`: the provider and the error, if any.
  unfoldable pub save : Option (ℕ → ℕ) → Provider S → Provider S × Option String
  save entropy p = save_raw entropy p (
      w.marshal_state (record { device_id = p.device_id; tenant = p.tenant; private_key = p.priv }))

  -- A new keypair, `none` where GenerateKey fails.
  abbrev pub create_key : Option (ℕ → ℕ) → Option Bytes → Provider S → Provider S × Option String
  create_key entropy none p = (p, some "generate key")
  create_key entropy (some priv) p = save entropy (record p { priv = priv })

  abbrev pub load_state :
      Option (ℕ → ℕ)
      → Option Bytes
      → Provider S
      → Option EnrolmentState
      → Provider S × Option String
  load_state entropy fresh p none = create_key entropy fresh p
  load_state entropy fresh p (some st) =
      if length st.private_key == 64
      then (record p { priv = st.private_key; device_id = st.device_id; tenant = st.tenant }, none)
      else create_key entropy fresh p

  abbrev pub init_from :
      Option (ℕ → ℕ) → Option Bytes → Provider S → Reply → Provider S × Option String
  init_from entropy fresh p (error why) = (p, some why)
  init_from entropy fresh p (value none) = create_key entropy fresh p
  init_from entropy fresh p (value (some raw)) = load_state entropy fresh p (w.unmarshal_state raw)
  init_from entropy fresh p done = create_key entropy fresh p
  init_from entropy fresh p (keys ks) = create_key entropy fresh p

  -- `Init`, with the ephemeral id that it mints.
  unfoldable pub init :
      Option (ℕ → ℕ) → Option Bytes → Bytes → Provider S → Provider S × Option String
  init entropy fresh ephemeral p =
      let r = ask_identity none (get state_key) p.store in
      init_from entropy fresh (record p { store = r.0; ephemeral = ephemeral }) r.1

  abbrev pub assigned :
      Option (ℕ → ℕ) → Provider S → Response → Option String → Provider S × Option String
  assigned entropy p r (some why) = (p, some why)
  assigned entropy p r none = save entropy (record p { device_id = r.device_id; tenant = r.tenant })

  abbrev pub enrol_reply :
      Option (ℕ → ℕ) → Provider S → Option Response → Provider S × Option String
  enrol_reply entropy p none = (p, some "enrolment")
  enrol_reply entropy p (some r) =
      if is_blank r.device_id
      then (p, some "malformed enrolment response")
      else assigned entropy p r (verify_assignment w p r)

  abbrev pub enrol_nonce :
      Option (ℕ → ℕ) → Provider S → Server → Bytes → Option Bytes → Provider S × Option String
  enrol_nonce entropy p server nonce_b64 none = (p, some "enrolment nonce invalid")
  enrol_nonce entropy p server nonce_b64 (some nonce) =
      if ltb (length nonce) 16
      then (p, some "enrolment nonce invalid")
      else enrol_reply entropy p
          (server.reply (w.public_of p.priv) nonce_b64 (w.ed25519_sign p.priv nonce))

  abbrev pub enrol_challenge :
      Option (ℕ → ℕ) → Provider S → Server → Option Bytes → Provider S × Option String
  enrol_challenge entropy p server none = (p, some "enrolment challenge")
  enrol_challenge entropy p server (some nonce_b64) =
      if is_blank nonce_b64
      then (p, some "malformed enrolment challenge")
      else enrol_nonce entropy p server nonce_b64 (w.decode_base64 nonce_b64)

  abbrev pub enrol_checked :
      Option (ℕ → ℕ) → Provider S → Server → Option String → Provider S × Option String
  enrol_checked entropy p server (some why) = (p, some why)
  enrol_checked entropy p server none =
      enrol_challenge entropy p server (server.challenge (w.public_of p.priv))

  -- `Enroll`
  unfoldable pub enroll : Option (ℕ → ℕ) → Server → Provider S → Provider S × Option String
  enroll entropy server p =
      if not (is_blank p.device_id) || is_blank p.enroll_url
      then (p, none)
      else enrol_checked entropy p server (check_enrol_transport p)

module _ {S : Type 0} where
  -- `WhoAmI`: the id, whether it is ephemeral, and the tenant.
  unfoldable pub who_am_i : Provider S → Bytes × Bool × Bytes
  who_am_i p =
      if not (is_blank p.device_id) then (p.device_id, false, p.tenant) else (p.ephemeral, true, [])

  -- `Enrolled`
  unfoldable pub enrolled : Provider S → Bool
  enrolled p = not (is_blank p.device_id)
