-- ===== src/HvChannel/Tests.antt =====
-- The channel on concrete traffic, with toy functions in the place of the cryptography.
use weaveplatform_agent_core.Base.{
  String, true, false, Option, none, some, List, [], ◌∷◌, ◌++◌, length, take, has_prefix, eq_bytes,
  eq_bytes_refl, drop, ◌≡◌, refl, arith, ◌⊎◌, All, ◌==◌, if◌then◌else◌,
}
use weaveplatform_agent_core.Verify.Samples.{zeros}
use weaveplatform_agent_core.HvChannel.Frame.{
  Bytes, write_frame, eof, unexpected_eof, failed, read_frame, read_frames,
}
use weaveplatform_agent_core.HvChannel.Frame.Stream.{
  take-append, drop-append, framed, all_framed, read_frames-write_frame, read_frame_broken,
}
use weaveplatform_agent_core.HvChannel.Auth.{
  begin_kind, response_kind, AuthResponse, challenge, result, Wire, Host, ChannelAuth,
  signing_message, verify, allowed_before_auth, allows, handle, control,
}
use weaveplatform_agent_core.HvChannel.Auth.Handshake.{
  KeyPair, answer_to, ControlFrame, handle_all, handshake_authenticates, handle_no_replay,
}
use weaveplatform_agent_core.HvChannel.Peer.{
  Envelope, Incoming, received, delivered, replied, control_module, step, read_loop,
}
use weaveplatform_agent_core.HvChannel.Peer.Proved.{Proved, Greeting, read_loop-Proved}

read_frames-write_frame_example :
    All (λ p. write_frame p ≡ some (framed p)) ((1 ∷ 2 ∷ []) ∷ [] ∷ [])
    × (read_frames 3 (all_framed ((1 ∷ 2 ∷ []) ∷ [] ∷ [])) ≡ ((1 ∷ 2 ∷ []) ∷ [] ∷ [], some eof))
read_frames-write_frame_example =
    read_frames-write_frame ((1 ∷ 2 ∷ []) ∷ [] ∷ []) 3 (omega arith, (omega arith, tt))
      (omega arith)

read_frame_broken_example :
    read_frame (take 4 (framed (7 ∷ []))) ≡ (if 4 == 4 then failed eof else failed unexpected_eof)
read_frame_broken_example = read_frame_broken (7 ∷ []) 4 (omega arith) (omega arith) (omega arith)

abbrev decode_response : Bytes → Option AuthResponse
decode_response [] = none
decode_response (n ∷ body) = some (record { public_key = take n body; signature = drop n body })

-- A toy signature is the message itself.
abbrev wire : Wire
wire = record {
  ed25519_verify = λ key message sig. eq_bytes message sig;
  json_response = decode_response;
}

abbrev guest : ChannelAuth
guest = record { trusted = zeros 32; nonce = []; ok = false }

abbrev begins : Incoming
begins =
    received (record { module_id = control_module; kind = begin_kind; body = [] }) (some (zeros 32))

abbrev proof : Bytes
proof = 32 ∷ zeros 32 ++ signing_message (zeros 32)

abbrev answers : Bytes → Incoming
answers body =
    received (record { module_id = control_module; kind = response_kind; body = body }) none

abbrev shutdown : Envelope
shutdown = record { module_id = "guestweave"; kind = "guestweave.power.off"; body = [] }

gate_opens : (read_loop wire guest (begins ∷ answers proof ∷ received shutdown none ∷ [])).1 ≡ (
    (replied (challenge (zeros 32)) ∷ [])
    ∷ (replied (result true "") ∷ [])
    ∷ (delivered shutdown ∷ [])
    ∷ [])
unfolding read_loop step handle control verify signing_message allows allowed_before_auth has_prefix
    eq_bytes
gate_opens = refl

gate_stays_shut : (read_loop wire guest (answers proof ∷ received shutdown none ∷ [])).1 ≡ (
    (replied (result false "no outstanding challenge") ∷ [])
    ∷ (replied (result false "channel is not authenticated") ∷ [])
    ∷ [])
unfolding read_loop step handle control verify signing_message allows allowed_before_auth has_prefix
    eq_bytes
gate_stays_shut = refl

read_loop-Proved_example :
    Proved wire (zeros 32) [] (answers proof ∷ received shutdown none ∷ [])
    ⊎ (All (All Greeting) (read_loop wire guest (answers proof ∷ received shutdown none ∷ [])).1
        × ((kind : String)
            → allows (read_loop wire guest (answers proof ∷ received shutdown none ∷ [])).0 kind
              ≡ allowed_before_auth kind))
read_loop-Proved_example =
    read_loop-Proved wire guest (answers proof ∷ received shutdown none ∷ []) refl

decoded :
    wire.json_response proof
    ≡ some (record { public_key = zeros 32; signature = signing_message (zeros 32) })
unfolding signing_message
decoded = refl

abbrev later : List ControlFrame
later = (response_kind, 7 ∷ [], none) ∷ (response_kind, proof, none) ∷ ("auth.other", [], none) ∷ []

handle_no_replay_example :
    ((handle wire guest response_kind proof none).0.nonce ≡ [])
    × (handle_all wire (handle wire guest response_kind proof none).0 later
        ≡ (handle wire guest response_kind proof none).0)
handle_no_replay_example =
    handle_no_replay wire guest proof
      (record { public_key = zeros 32; signature = signing_message (zeros 32) }) none later decoded
      (refl, (refl, (refl, tt)))

abbrev host : Host
host = record {
  public_of = λ priv. zeros 32;
  ed25519_sign = λ priv message. message;
  marshal = λ r. length r.public_key ∷ r.public_key ++ r.signature;
}

host_keys : KeyPair wire host (zeros 64)
host_keys = record {
  size = refl;
  public_size = refl;
  signs = λ m. eq_bytes_refl m;
  decodes = λ r.
      ground (arith, take-append r.public_key r.signature, drop-append r.public_key r.signature);
}

handshake_authenticates_example :
    (r : Bytes) × (answer_to host (zeros 64) (zeros 32) ≡ some r)
    × (handle wire guest begin_kind [] (some (zeros 32))
        ≡ (record guest { nonce = zeros 32 }, some (challenge (zeros 32))))
    × (handle wire (record guest { nonce = zeros 32 }) response_kind r none
        ≡ (record { trusted = zeros 32; nonce = []; ok = true }, some (result true "")))
handshake_authenticates_example =
    handshake_authenticates wire host (zeros 64) (zeros 32) [] [] false host_keys refl
