-- ===== src/HvChannel.antt =====
-- The hypervisor channel: sdk/hvchannel (framing, authentication) and the guest's end of it in
-- internal/transport (hypervisor.go, hypervisor_auth.go).
pub mod Frame
pub mod Auth
pub mod Peer
mod Tests
