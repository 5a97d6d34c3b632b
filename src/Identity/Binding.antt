-- ===== src/Identity/Binding.antt =====
-- To whom a device can be bound: Enroll and verifyAssignment of internal/identity/identity.go.
use weaveplatform_agent_core.Base.{
  ℕ, String, true, false, not, ◌&&◌, ◌||◌, Option, none, some, length, codes, ltb, ◌==◌, eq_bytes,
  eq_bytes_iff, if-both, ◌≡◌, refl, sym, ap, ◌∙◌, subst₂, arith,
}
use weaveplatform_agent_core.Store.{Bytes, put, Reply, value, done, keys, error}
use weaveplatform_agent_core.Store.Contract.{Backend}
use weaveplatform_agent_core.Identity.{
  Assignment, Wire, Response, Server, Provider, state_key, is_blank, check_scheme,
  check_enrol_transport, check_bound, check_signature, verify_assignment, ask_identity, saved_with,
  save_raw, save, assigned, enrol_reply, enrol_nonce, enrol_challenge, enrol_checked, enroll,
}

module _ {S : Type 0} (w : Wire) (p : Provider S) where
  -- The pinned key signed the bytes that name the device and the tenant.
  pub record IsSigned (device tenant : Bytes) : Type 0 where
    pub message : Bytes
    pub sig : Bytes
    pub sized : length sig ≡ 64
    pub verified : w.ed25519_verify p.server_pub message sig ≡ true
    pub binds :
        w.unmarshal_assignment message ≡ some (record { device_id = device; tenant = tenant })

  bound-IsSigned :
      (device tenant message sig : Bytes) (o : Option Assignment)
      → length sig ≡ 64
      → w.ed25519_verify p.server_pub message sig ≡ true
      → w.unmarshal_assignment message ≡ o
      → check_bound w p device tenant o ≡ none
      → IsSigned device tenant
  bound-IsSigned device tenant message sig none n v u e = ground arith
  bound-IsSigned device tenant message sig (some signed) n v u e =
      if-both (λ o. o ≡ none → IsSigned device tenant)
        (not (eq_bytes signed.device_id device) || not (eq_bytes signed.tenant tenant)) _ _
        (λ differs f. ground arith)
        (λ same f. record {
          message = message;
          sig = sig;
          sized = n;
          verified = v;
          binds =
              u
              ∙ ap some (
                  subst₂ (λ x y. signed ≡ record { device_id = x; tenant = y })
                    ((eq_bytes_iff signed.device_id device).0 (ground arith))
                    ((eq_bytes_iff signed.tenant tenant).0 (ground arith)) refl);
        })
        e

  signature-IsSigned :
      (device tenant : Bytes) (message sig : Option Bytes)
      → check_signature w p device tenant message sig ≡ none
      → IsSigned device tenant
  signature-IsSigned device tenant none sig e = ground arith
  signature-IsSigned device tenant (some message) none e = ground arith
  signature-IsSigned device tenant (some message) (some sig) e =
      if-both (λ o. o ≡ none → IsSigned device tenant) (not (length sig == 64)) _ _
        (λ wrong f. ground arith)
        (λ sized.
          if-both (λ o. o ≡ none → IsSigned device tenant)
            (not (w.ed25519_verify p.server_pub message sig)) _ _ (λ forged f. ground arith)
            (λ good f.
              bound-IsSigned device tenant message sig (w.unmarshal_assignment message)
                (ground arith) (ground arith) refl f))
        e

  assignment-IsSigned :
      (r : Response)
      → p.allow_insecure_enroll ≡ false
      → verify_assignment w p r ≡ none
      → IsSigned r.device_id r.tenant
  unfolding verify_assignment
  assignment-IsSigned r release e =
      if-both (λ o. o ≡ none → IsSigned r.device_id r.tenant) (is_blank p.server_pub) _ _
        (λ unpinned f. ground arith)
        (λ pinned f.
          signature-IsSigned r.device_id r.tenant (w.decode_base64 r.assignment)
            (w.decode_base64 r.assignment_sig) f)
        e

module _ {S : Type 0} (b : Backend S) (w : Wire) where
  -- Saving changes neither the id nor the tenant.
  save_keeps :
      (entropy : Option (ℕ → ℕ)) (q : Provider S)
      → ((save b w entropy q).0.device_id ≡ q.device_id)
        × ((save b w entropy q).0.tenant ≡ q.tenant)
  unfolding save
  save_keeps entropy q = go (
      w.marshal_state (record { device_id = q.device_id; tenant = q.tenant; private_key = q.priv }))
    where
      put_keeps :
          (r : S × Reply)
          → ((saved_with b w q r).0.device_id ≡ q.device_id)
            × ((saved_with b w q r).0.tenant ≡ q.tenant)
      put_keeps (s, error why) = (refl, refl)
      put_keeps (s, value v) = (refl, refl)
      put_keeps (s, done) = (refl, refl)
      put_keeps (s, keys ks) = (refl, refl)

      go :
          (o : Option Bytes)
          → ((save_raw b w entropy q o).0.device_id ≡ q.device_id)
            × ((save_raw b w entropy q o).0.tenant ≡ q.tenant)
      go none = (refl, refl)
      go (some raw) = put_keeps (ask_identity b w entropy (put state_key raw) q.store)

  module _ (entropy : Option (ℕ → ℕ)) (server : Server) (p : Provider S) where
    -- A result that binds the device binds it as it should.
    abbrev Fine : Provider S × Option String → Type 0
    Fine r =
        is_blank r.0.device_id ≡ false
        → (p.url_scheme ≡ some (codes "https")) × IsSigned w p r.0.device_id r.0.tenant

    module _ (unenrolled : is_blank p.device_id ≡ true) (release : p.allow_insecure_enroll ≡ false)
        (secure : p.url_scheme ≡ some (codes "https")) where
      assigned-Fine :
          (r : Response) (o : Option String)
          → verify_assignment w p r ≡ o
          → Fine (assigned b w entropy p r o)
      assigned-Fine r (some why) e = λ bound. ground arith
      assigned-Fine r none e = λ bound.
          let q = record p { device_id = r.device_id; tenant = r.tenant } in
          (
            secure,
            subst₂ (IsSigned w p) (sym (save_keeps entropy q).0) (sym (save_keeps entropy q).1)
                (assignment-IsSigned w p r release e),
          )

      reply-Fine : (o : Option Response) → Fine (enrol_reply b w entropy p o)
      reply-Fine none = λ bound. ground arith
      reply-Fine (some r) =
          if-both Fine (is_blank r.device_id) _ _ (λ blank bound. ground arith)
            (λ named. assigned-Fine r (verify_assignment w p r) refl)

      nonce-Fine :
          (text : Bytes) (o : Option Bytes) → Fine (enrol_nonce b w entropy p server text o)
      nonce-Fine text none = λ bound. ground arith
      nonce-Fine text (some nonce) =
          if-both Fine (ltb (length nonce) 16) _ _ (λ short bound. ground arith)
            (λ long.
              reply-Fine (server.reply (w.public_of p.priv) text (w.ed25519_sign p.priv nonce)))

      challenge-Fine : (o : Option Bytes) → Fine (enrol_challenge b w entropy p server o)
      challenge-Fine none = λ bound. ground arith
      challenge-Fine (some nonce) =
          if-both Fine (is_blank nonce) _ _ (λ blank bound. ground arith)
            (λ full. nonce-Fine nonce (w.decode_base64 nonce))

    transport_secure :
        p.allow_insecure_enroll ≡ false
        → (o : Option Bytes) → p.url_scheme ≡ o
        → check_scheme p o ≡ none
        → p.url_scheme ≡ some (codes "https")
    transport_secure release none u e = ground arith
    transport_secure release (some scheme) u e =
        if-both (λ o. o ≡ none → p.url_scheme ≡ some (codes "https"))
          (not (eq_bytes scheme (codes "https")) && not p.allow_insecure_enroll) _ _
          (λ insecure f. ground arith)
          (λ secure f. u ∙ ap some ((eq_bytes_iff scheme (codes "https")).0 (ground arith))) e

    -- A device that is not enrolled, in a build that does not allow insecure enrolment: if Enroll,
    -- whatever the server sends and whichever write fails, leaves it with a device id, then the
    -- enrolment URL is https, and the pinned server key signed an assignment of exactly that device id
    -- and tenant.
    pub enroll_binds :
        is_blank p.device_id ≡ true
        → p.allow_insecure_enroll ≡ false
        → is_blank (enroll b w entropy server p).0.device_id ≡ false
        → (p.url_scheme ≡ some (codes "https"))
          × IsSigned w p
              (enroll b w entropy server p).0.device_id
              (enroll b w entropy server p).0.tenant
    unfolding enroll check_enrol_transport
    enroll_binds unenrolled release =
        if-both Fine (not (is_blank p.device_id) || is_blank p.enroll_url) _ _
          (λ skip bound. ground arith) (λ starts. go (check_scheme p p.url_scheme) refl)
      where
        go :
            (o : Option String)
            → check_scheme p p.url_scheme ≡ o
            → Fine (enrol_checked b w entropy p server o)
        go (some why) e = λ bound. ground arith
        go none e =
            challenge-Fine unenrolled release (transport_secure release p.url_scheme refl e)
              (server.challenge (w.public_of p.priv))
