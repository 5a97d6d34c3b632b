-- ===== src/HvChannel/Peer.antt =====
-- `HypervisorPeer` of internal/transport/hypervisor.go: the gate on `Send`, and the read loop over
-- the envelopes that arrive. The JSON of a reply and the writer behind it are not modelled: a reply
-- is an output of the loop.
pub mod Proved
use weaveplatform_agent_core.Base.{
  String, Bool, true, false, Option, none, some, List, [], ◌∷◌, ◌===◌, if◌then◌else◌,
}
use weaveplatform_agent_core.HvChannel.Frame.{Bytes}
use weaveplatform_agent_core.HvChannel.Auth.{Wire, ChannelAuth, Reply, result, allows, handle}

abbrev pub control_module : String
control_module = "hvchannel"

pub record Envelope : Type 0 where
  pub module_id : String
  pub kind : String
  pub body : Bytes

-- One round of the loop before the stream fails: an envelope, with the nonce that the random source
-- holds for it, or a frame that does not decode.
pub data Incoming : Type 0 where
  received : Envelope → Option Bytes → Incoming
  undecodable : Incoming

pub data Output : Type 0 where
  delivered : Envelope → Output
  replied : Reply → Output

-- `Send`: whether the frame goes out.
unfoldable pub send : ChannelAuth → String → Bool
unfolding allows
send a kind = allows a kind

abbrev pub answered : ChannelAuth × Option Reply → ChannelAuth × List Output
answered (a, none) = (a, [])
answered (a, some r) = (a, replied r ∷ [])

-- By whether the frame is the channel's own, and whether the gate lets it through.
abbrev pub dispatch :
    Wire → ChannelAuth → Envelope → Option Bytes → Bool → Bool → ChannelAuth × List Output
dispatch w a e fresh true passes = answered (handle w a e.kind e.body fresh)
dispatch w a e fresh false true = (a, delivered e ∷ [])
dispatch w a e fresh false false = (a, replied (result false "channel is not authenticated") ∷ [])

unfoldable pub step : Wire → ChannelAuth → Incoming → ChannelAuth × List Output
unfolding allows
step w a undecodable = (a, [])
step w a (received e fresh) =
    dispatch w a e fresh (e.module_id === control_module) (allows a e.kind)

-- `readLoop`, up to the failure of the stream: the rounds, each with the outputs it makes.
unfoldable pub read_loop : Wire → ChannelAuth → List Incoming → ChannelAuth × List (List Output)
read_loop w a [] = (a, [])
read_loop w a (i ∷ is) =
    let (a1, out) = step w a i in let (a2, outs) = read_loop w a1 is in (a2, out ∷ outs)
