-- ===== src/Transport.antt =====
-- The channel mux: internal/transport/transport.go. The offline queue is kept in a backend of the
-- store, in a namespace of its own; JSON and the peers are parameters.
pub mod Keys
pub mod Queue
pub mod Inbound
mod Tests
use weaveplatform_agent_core.Base.{
  ℕ, String, Bool, true, false, Option, none, some, List, ltb, if◌then◌else◌,
}
use weaveplatform_agent_core.Store.{Bytes}

-- agentv1.Peer, by its number: PEER_HYPERVISOR is 2, and every other one is routed to GateWeave.
abbrev pub hypervisor_peer : ℕ
hypervisor_peer = 2

pub record QueuedMessage : Type 0 where
  pub module_id : Bytes
  pub peer : ℕ
  pub kind : Bytes
  pub body : Bytes

-- One call of a peer's Send, and whether it returned no error.
pub record Attempt : Type 0 where
  pub message : QueuedMessage
  pub accepted : Bool

-- Whether a peer takes a message, after the calls made of it so far, the latest first.
abbrev pub Peer : Type 0
Peer = List Attempt → QueuedMessage → Bool

-- json.Marshal and json.Unmarshal of a queued message.
pub record Codec : Type 0 where
  pub marshal : QueuedMessage → Option Bytes
  pub unmarshal : Bytes → Option QueuedMessage

pub record Mux (S : Type 0) : Type 0 where
  pub gateweave : Option Peer
  pub hypervisor : Option Peer
  pub queue : Option S
  pub max_queued_set : ℕ
  pub next_id : ℕ
  pub seeded : Bool
  pub dropped : ℕ
  -- What was tried on the peers, the latest first.
  pub log : List Attempt

abbrev pub default_max_queued : ℕ
default_max_queued = 10000

module _ {S : Type 0} (m : Mux S) where
  unfoldable pub max_queued : ℕ
  max_queued = if ltb 0 m.max_queued_set then m.max_queued_set else default_max_queued
