-- ===== src/Derp.antt =====
-- crates/tailscale-core/src/derp: the relay protocol.
pub mod Frame
pub mod Handshake
