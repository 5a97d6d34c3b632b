-- ===== src/Identity/Restart.antt =====
-- An enrolment that Enroll of internal/identity/identity.go reports, after the next start.
use weaveplatform_agent_core.Base.{
  ℕ, String, Option, none, some, length, ◌==◌, eq_bytes_refl, if-both, if-true, ◌≡◌, ◌⊎◌, inl, inr,
  refl, sym, ap, ◌∙◌, subst, arith,
}
use weaveplatform_agent_core.Store.{Bytes, Call, get, put, Reply, value}
use weaveplatform_agent_core.Store.Contract.{
  Contents, effect, same_slot, Answers, Allowed, carried_out, refused, Backend, Implements,
}
use weaveplatform_agent_core.Identity.{
  identity_namespace, state_key, EnrolmentState, Wire, Provider, ask_identity, saved_with, save_raw,
  save, init, init_from, load_state,
}

module _ {S : Type 0} where
  abbrev pub state_of : Provider S → EnrolmentState
  state_of p = record { device_id = p.device_id; tenant = p.tenant; private_key = p.priv }

-- What a state that is marshalled is unmarshalled to.
abbrev pub ReadsBack : Wire → Type 0
ReadsBack w =
    (st : EnrolmentState) (raw : Bytes)
    → w.marshal_state st ≡ some raw
    → w.unmarshal_state raw ≡ some st

module _ {S : Type 0} (b : Backend S) (i : Implements b) (w : Wire) (reads : ReadsBack w) where
  -- What is stored once a save reports no error.
  Stored : S → Provider S → Type 0
  Stored s p =
      (raw : Bytes) × (w.marshal_state (state_of p) ≡ some raw)
      × (b.contents s identity_namespace state_key ≡ some raw)
      × b.Sound s

  put-Stored :
      (p : Provider S) (raw : Bytes) (s : S) (r : Reply)
      → w.marshal_state (state_of p) ≡ some raw
      → Allowed (b.contents p.store) (b.contents s) identity_namespace (put state_key raw) r
      → b.Sound s
      → (saved_with b w p (s, r)).1 ≡ none
      → Stored (saved_with b w p (s, r)).0.store p
  unfolding effect Answers Stored
  put-Stored p raw s r m (carried_out a e) sound none_so_far =
      subst (λ q. Stored (saved_with b w p (s, q)).0.store p) (sym a)
        (
          raw,
          m,
          e identity_namespace state_key
              ∙ if-true {b = same_slot identity_namespace state_key identity_namespace state_key} _
                  _ (ground (arith, eq_bytes_refl identity_namespace, eq_bytes_refl state_key)),
          sound,
        )
  put-Stored p raw s r m (refused why a e) sound none_so_far = ground arith

  save-Stored :
      (entropy : Option (ℕ → ℕ)) (p : Provider S)
      → b.Sound p.store
      → (save b w entropy p).1 ≡ none
      → Stored (save b w entropy p).0.store p
  unfolding save ask_identity
  save-Stored entropy p sound = go (w.marshal_state (state_of p)) refl
    where
      go :
          (o : Option Bytes)
          → w.marshal_state (state_of p) ≡ o
          → (save_raw b w entropy p o).1 ≡ none
          → Stored (save_raw b w entropy p o).0.store p
      go none e f = ground arith
      go (some raw) e f =
          let call : Call = record {
            ended = none;
            entropy = entropy;
            module_id = identity_namespace;
            op = put state_key raw;
          } in
          put-Stored p raw (b.step call p.store).0 (b.step call p.store).1 e
            (i.step-Allowed call p.store sound) (i.step-Sound call p.store sound) f

  -- The state is found, or the store cannot be read.
  Found : Provider S → Provider S × Option String → Type 0
  Found p r = ((why : String) × (r.1 ≡ some why)) ⊎ ((state_of r.0 ≡ state_of p) × (r.1 ≡ none))

  init-Found :
      (entropy : Option (ℕ → ℕ)) (fresh : Option Bytes) (p q : Provider S) (raw : Bytes) (s : S)
      → (r : Reply) → length p.priv ≡ 64
      → w.marshal_state (state_of p) ≡ some raw
      → b.contents s identity_namespace state_key ≡ some raw
      → (c' : Contents) → Allowed (b.contents s) c' identity_namespace (get state_key) r
      → Found p (init_from b w entropy fresh q r)
  unfolding Answers Found
  init-Found entropy fresh p q raw s r sized m held c' (carried_out a e) =
      subst (λ t. Found p (init_from b w entropy fresh q t)) (sym (a ∙ ap value held))
        (subst (λ o. Found p (load_state b w entropy fresh q o)) (sym (reads (state_of p) raw m))
          (if-both (Found p) (length p.priv == 64) _ _ (λ whole. inr (refl, refl))
            (λ short. ground arith)))
  init-Found entropy fresh p q raw s r sized m held c' (refused why a e) =
      subst (λ t. Found p (init_from b w entropy fresh q t)) (sym a) (inl (why, refl))

  -- Whatever is saved without an error, by Enroll or at a first start, is what the next start on that
  -- store finds, whatever new key and ephemeral id it is given: over a backend that implements the
  -- store's contract and was sound, with a codec that reads back what it marshals and a key of 64
  -- bytes, Init ends with the same key, device id and tenant and no error, or with an error.
  pub save_survives :
      (entropy entropy' : Option (ℕ → ℕ)) (fresh : Option Bytes) (ephemeral : Bytes)
      → (p booting : Provider S) → b.Sound p.store
      → length p.priv ≡ 64
      → (save b w entropy p).1 ≡ none
      → booting.store ≡ (save b w entropy p).0.store
      → ((why : String) × ((init b w entropy' fresh ephemeral booting).1 ≡ some why))
        ⊎ ((state_of (init b w entropy' fresh ephemeral booting).0 ≡ state_of p)
            × ((init b w entropy' fresh ephemeral booting).1 ≡ none))
  unfolding init ask_identity Found Stored
  save_survives entropy entropy' fresh ephemeral p booting sound sized saved same =
      let stored = subst (λ s. Stored s p) (sym same) (save-Stored entropy p sound saved) in
      let call : Call = record {
        ended = none;
        entropy = none;
        module_id = identity_namespace;
        op = get state_key;
      } in
      init-Found entropy' fresh p
        (record booting { store = (b.step call booting.store).0; ephemeral = ephemeral }) stored.0
        booting.store (b.step call booting.store).1 sized stored.1 stored.2
        (b.contents (b.step call booting.store).0) (i.step-Allowed call booting.store stored.3)
