-- ===== src/Identity/Tests.antt =====
-- An enrolment against a toy server.
use weaveplatform_agent_core.Base.{
  String, false, Option, none, some, some-injective, subst, [], ◌∷◌, ◌++◌, codes, length, take,
  drop, eq_bytes, ◌≡◌, ◌⊎◌, refl, arith,
}
use weaveplatform_agent_core.HvChannel.Frame.Stream.{take-append, drop-append}
use weaveplatform_agent_core.Verify.Samples.{zeros}
use weaveplatform_agent_core.Store.{Bytes}
use weaveplatform_agent_core.Store.Memory.{MemStore, mem_store, mem_step, mem_store-Implements}
use weaveplatform_agent_core.Identity.{
  EnrolmentState, Wire, Server, Provider, enroll, save, init, ask_identity, check_enrol_transport,
  verify_assignment,
}
use weaveplatform_agent_core.Identity.Binding.{IsSigned, enroll_binds}
use weaveplatform_agent_core.Identity.Restart.{state_of, ReadsBack, save_survives}

-- The lengths of the two ids, the ids, and the key.
abbrev toy_marshal : EnrolmentState → Bytes
toy_marshal st =
    length st.device_id ∷ length st.tenant ∷ (st.device_id ++ (st.tenant ++ st.private_key))

abbrev toy_unmarshal : Bytes → Option EnrolmentState
toy_unmarshal [] = none
toy_unmarshal (d ∷ []) = none
toy_unmarshal (d ∷ t ∷ body) = some (record {
  device_id = take d body;
  tenant = take t (drop d body);
  private_key = drop t (drop d body);
})

abbrev toy_wire : Wire
toy_wire = record {
  marshal_state = λ st. some (toy_marshal st);
  unmarshal_state = toy_unmarshal;
  unmarshal_assignment = λ raw. some (record { device_id = 7 ∷ []; tenant = 8 ∷ [] });
  decode_base64 = λ s. some s;
  public_of = λ priv. priv;
  ed25519_sign = λ priv message. message;
  ed25519_verify = λ key message sig. eq_bytes sig (zeros 64);
}

toy_wire-ReadsBack : ReadsBack toy_wire
toy_wire-ReadsBack = λ st raw e.
    let ids = st.tenant ++ st.private_key in
    let cut : drop (length st.device_id) (st.device_id ++ ids) ≡ ids =
      drop-append st.device_id ids in
    subst (λ r. toy_unmarshal r ≡ some st) (some-injective _ _ e)
      (grind (
        arith,
        take-append st.device_id ids,
        cut,
        take-append st.tenant st.private_key,
        drop-append st.tenant st.private_key,
      ))

abbrev device : Provider MemStore
device = record {
  store = record { data_of = [] };
  enroll_url = codes "https://e";
  url_scheme = some (codes "https");
  server_pub = zeros 32;
  allow_insecure_enroll = false;
  priv = zeros 64;
  device_id = [];
  tenant = [];
  ephemeral = 1 ∷ [];
}

abbrev server : Server
server = record {
  challenge = λ key. some (zeros 16);
  reply = λ key nonce sig. some (record {
    device_id = 7 ∷ [];
    tenant = 8 ∷ [];
    assignment = 9 ∷ [];
    assignment_sig = zeros 64;
  });
}

enroll_binds_example :
    (device.url_scheme ≡ some (codes "https"))
    × IsSigned toy_wire device
        (enroll mem_store toy_wire none server device).0.device_id
        (enroll mem_store toy_wire none server device).0.tenant
unfolding enroll check_enrol_transport verify_assignment save eq_bytes ask_identity mem_step
enroll_binds_example = enroll_binds mem_store toy_wire none server device refl refl refl

abbrev enrolled_device : Provider MemStore
enrolled_device = record device { device_id = 7 ∷ []; tenant = 8 ∷ [] }

abbrev booting : Provider MemStore
booting = record device { store = (save mem_store toy_wire none enrolled_device).0.store }

save_survives_example :
    ((why : String) × ((init mem_store toy_wire none none (2 ∷ []) booting).1 ≡ some why))
    ⊎ ((state_of (init mem_store toy_wire none none (2 ∷ []) booting).0 ≡ state_of enrolled_device)
        × ((init mem_store toy_wire none none (2 ∷ []) booting).1 ≡ none))
unfolding save ask_identity mem_step
save_survives_example =
    save_survives mem_store mem_store-Implements toy_wire toy_wire-ReadsBack none none none (2 ∷ [])
      enrolled_device booting tt refl refl refl
