-- ===== src/HvChannel/Peer/Proved.antt =====
-- The traffic on the channel, and when the read loop opens the gate.
use weaveplatform_agent_core.Base.{
  String, Bool, true, false, Option, none, some, List, [], ◌∷◌, length, ◌===◌, eq_of_eq_bytes,
  if◌then◌else◌, All, ◌≡◌, refl, subst₂, ◌⊎◌, inl, inr, arith, Bool-cases, eq_iff,
}
use weaveplatform_agent_core.HvChannel.Frame.{Bytes}
use weaveplatform_agent_core.HvChannel.Auth.{
  Wire, ChannelAuth, AuthResponse, Reply, allowed_before_auth, signing_message, verify, allows,
  respond, verdict, control, Control, begins, responds, unknown, handle_as, handle,
}
use weaveplatform_agent_core.HvChannel.Peer.{
  Envelope, Incoming, received, undecodable, Output, delivered, replied, control_module, answered,
  dispatch, step, read_loop,
}

-- A response that proves possession of the trusted key: it offers that key, and its signature is
-- over the nonce.
pub record Proves (w : Wire) (trusted nonce body : Bytes) : Type 0 where
  pub resp : AuthResponse
  pub decodes : w.json_response body ≡ some resp
  pub a_key : length trusted ≡ 32
  pub fresh : length nonce ≡ 32
  pub same_key : resp.public_key ≡ trusted
  pub signed : w.ed25519_verify trusted (signing_message nonce) resp.signature ≡ true

-- The challenge that is outstanding after a control frame: a begin replaces it, a response that
-- decodes uses it up.
abbrev pub nonce_after : Wire → Bytes → Control → Bytes → Option Bytes → Bytes
nonce_after w nonce begins body none = nonce
nonce_after w nonce begins body (some fresh) = fresh
nonce_after w nonce responds body fresh = elim (w.json_response body) [ none ↦ nonce | some _ ↦ [] ]
nonce_after w nonce unknown body fresh = nonce

abbrev pub outstanding : Wire → Bytes → Incoming → Bytes
outstanding w nonce undecodable = nonce
outstanding w nonce (received e fresh) =
    if e.module_id === control_module
    then nonce_after w nonce (control e.kind) e.body fresh
    else nonce

abbrev pub IsProof : Wire → Bytes → Bytes → Incoming → Type 0
IsProof w trusted nonce undecodable = ⊥
IsProof w trusted nonce (received e fresh) =
    (e.module_id ≡ control_module) × (control e.kind ≡ responds) × Proves w trusted nonce e.body

-- Somewhere in the traffic the outstanding challenge is answered with the trusted key.
abbrev pub Proved : Wire → Bytes → Bytes → List Incoming → Type 0
Proved w trusted nonce [] = ⊥
Proved w trusted nonce (i ∷ is) =
    IsProof w trusted nonce i ⊎ Proved w trusted (outstanding w nonce i) is

verify_sound :
    (w : Wire) (trusted nonce body : Bytes) (resp : AuthResponse)
    → w.json_response body ≡ some resp
    → verify w trusted nonce resp ≡ none
    → Proves w trusted nonce body
unfolding verify
verify_sound w trusted nonce body resp d h = record {
  resp = resp;
  decodes = d;
  a_key = ground arith;
  fresh = ground arith;
  same_key = eq_of_eq_bytes resp.public_key trusted (ground arith);
  signed = ground arith;
}

-- What one control frame does to the state.
pub record Handled (w : Wire) (a b : ChannelAuth) (k : Control) (body : Bytes)
    (fresh : Option Bytes) : Type 0 where
  pub trusted : b.trusted ≡ a.trusted
  pub nonce : b.nonce ≡ nonce_after w a.nonce k body fresh
  pub opened : b.ok ≡ true → (a.ok ≡ true) ⊎ ((k ≡ responds) × Proves w a.trusted a.nonce body)
  pub stays : a.ok ≡ true → b.ok ≡ true

respond-Handled :
    (w : Wire) (a : ChannelAuth) (body : Bytes) (fresh : Option Bytes) (d : Option AuthResponse)
    → w.json_response body ≡ d
    → Handled w a (respond w a d).0 responds body fresh
respond-Handled w a body fresh none e = record {
  trusted = refl;
  nonce = ground arith;
  opened = λ h. inl h;
  stays = λ h. h;
}
respond-Handled w a body fresh (some resp) e = go (verify w a.trusted a.nonce resp) refl
  where
    go :
        (v : Option String)
        → verify w a.trusted a.nonce resp ≡ v
        → Handled w a (verdict (record a { nonce = [] }) v).0 responds body fresh
    go (some reason) f = record {
      trusted = refl;
      nonce = ground arith;
      opened = λ h. inl h;
      stays = λ h. h;
    }
    go none f = record {
      trusted = refl;
      nonce = ground arith;
      opened = λ h. inr (refl, verify_sound w a.trusted a.nonce body resp e f);
      stays = λ h. refl;
    }

handle_as-Handled :
    (w : Wire) (a : ChannelAuth) (k : Control) (body : Bytes) (fresh : Option Bytes)
    → Handled w a (handle_as w a k body fresh).0 k body fresh
handle_as-Handled w a begins body none = record {
  trusted = refl;
  nonce = refl;
  opened = λ h. inl h;
  stays = λ h. h;
}
handle_as-Handled w a begins body (some n) = record {
  trusted = refl;
  nonce = refl;
  opened = λ h. inl h;
  stays = λ h. h;
}
handle_as-Handled w a responds body fresh = respond-Handled w a body fresh _ refl
handle_as-Handled w a unknown body fresh = record {
  trusted = refl;
  nonce = refl;
  opened = λ h. inl h;
  stays = λ h. h;
}

-- An output that may precede authentication: the greeting, or a reply of the channel itself.
abbrev pub Greeting : Output → Type 0
Greeting (delivered e) = allowed_before_auth e.kind ≡ true
Greeting (replied r) = Unit

record Stepped (w : Wire) (a : ChannelAuth) (i : Incoming) (r : ChannelAuth × List Output)
    : Type 0 where
  trusted : r.0.trusted ≡ a.trusted
  nonce : r.0.nonce ≡ outstanding w a.nonce i
  opened : r.0.ok ≡ true → (a.ok ≡ true) ⊎ IsProof w a.trusted a.nonce i
  stays : a.ok ≡ true → r.0.ok ≡ true
  greets : r.0.ok ≡ false → All Greeting r.1

answered-Stepped :
    (w : Wire) (a : ChannelAuth) (e : Envelope) (fresh : Option Bytes)
    (r : ChannelAuth × Option Reply)
    → e.module_id ≡ control_module
    → Handled w a r.0 (control e.kind) e.body fresh
    → Stepped w a (received e fresh) (answered r)
answered-Stepped w a e fresh (b, none) own h = record {
  trusted = h.trusted;
  nonce = ground (arith, h.nonce, eq_iff e.module_id control_module);
  opened = λ o. elim (h.opened o) [ inl x ↦ inl x | inr (k, p) ↦ inr (own, k, p) ];
  stays = h.stays;
  greets = λ _. tt;
}
answered-Stepped w a e fresh (b, some x) own h = record {
  trusted = h.trusted;
  nonce = ground (arith, h.nonce, eq_iff e.module_id control_module);
  opened = λ o. elim (h.opened o) [ inl x ↦ inl x | inr (k, p) ↦ inr (own, k, p) ];
  stays = h.stays;
  greets = λ _. (tt, tt);
}

allows_closed :
    (a : ChannelAuth) (kind : String)
    → allows a kind ≡ true
    → a.ok ≡ false
    → allowed_before_auth kind ≡ true
unfolding allows
allows_closed a kind gate h = ground arith

dispatch-Stepped :
    (w : Wire) (a : ChannelAuth) (e : Envelope) (fresh : Option Bytes) (own passes : Bool)
    → (e.module_id === control_module) ≡ own
    → allows a e.kind ≡ passes
    → Stepped w a (received e fresh) (dispatch w a e fresh own passes)
unfolding handle
dispatch-Stepped w a e fresh true passes own gate =
    answered-Stepped w a e fresh _ ((eq_iff e.module_id control_module).0 own)
      (handle_as-Handled w a (control e.kind) e.body fresh)
dispatch-Stepped w a e fresh false true own gate = record {
  trusted = refl;
  nonce = ground arith;
  opened = λ h. inl h;
  stays = λ h. h;
  greets = λ h. (allows_closed a e.kind gate h, tt);
}
dispatch-Stepped w a e fresh false false own gate = record {
  trusted = refl;
  nonce = ground arith;
  opened = λ h. inl h;
  stays = λ h. h;
  greets = λ h. (tt, tt);
}

step-Stepped : (w : Wire) (a : ChannelAuth) (i : Incoming) → Stepped w a i (step w a i)
unfolding step
step-Stepped w a undecodable = record {
  trusted = refl;
  nonce = refl;
  opened = λ h. inl h;
  stays = λ h. h;
  greets = λ _. tt;
}
step-Stepped w a (received e fresh) = dispatch-Stepped w a e fresh _ _ refl refl

loop-Proved :
    (w : Wire) (a : ChannelAuth) (is : List Incoming)
    → a.ok ≡ false
    → (read_loop w a is).0.ok ≡ true
    → Proved w a.trusted a.nonce is
unfolding read_loop
loop-Proved w a [] closed opens = absurd (ground arith)
loop-Proved w a (i ∷ is) closed opens =
    let s = step-Stepped w a i in
    let b = (step w a i).0 in
    elim (Bool-cases b.ok) [
      | inl now ↦ elim (s.opened now) [ inl before ↦ absurd (ground arith) | inr p ↦ inl p ]
      | inr still ↦
          inr (subst₂ (λ t n. Proved w t n is) s.trusted s.nonce (loop-Proved w b is still opens))
    ]

loop_stays :
    (w : Wire) (a : ChannelAuth) (is : List Incoming) → a.ok ≡ true → (read_loop w a is).0.ok ≡ true
unfolding read_loop
loop_stays w a [] h = h
loop_stays w a (i ∷ is) h = loop_stays w (step w a i).0 is ((step-Stepped w a i).stays h)

loop_greets :
    (w : Wire) (a : ChannelAuth) (is : List Incoming)
    → (read_loop w a is).0.ok ≡ false
    → All (All Greeting) (read_loop w a is).1
unfolding read_loop
loop_greets w a [] h = tt
loop_greets w a (i ∷ is) h =
    let b = (step w a i).0 in
    elim (Bool-cases b.ok) [
      | inl now ↦ absurd (ground (arith, loop_stays w b is now))
      | inr still ↦ ((step-Stepped w a i).greets still, loop_greets w b is h)
    ]

-- The channel is opened by proof alone. On a connection that is not authenticated, whatever arrives:
-- either the outstanding challenge is answered somewhere with a signature by the trusted key over
-- that challenge, or everything that the loop delivers to a module is the greeting that may cross
-- beforehand, and afterwards the peer still sends nothing but that.
pub read_loop-Proved :
    (w : Wire) (a : ChannelAuth) (is : List Incoming)
    → a.ok ≡ false
    → Proved w a.trusted a.nonce is
      ⊎ (All (All Greeting) (read_loop w a is).1
          × ((kind : String) → allows (read_loop w a is).0 kind ≡ allowed_before_auth kind))
read_loop-Proved w a is closed =
    let b = (read_loop w a is).0 in
    elim (Bool-cases b.ok) [
      | inl opens ↦ inl (loop-Proved w a is closed opens)
      | inr h ↦ inr (loop_greets w a is h, λ kind. unfold allows in ground arith)
    ]
