-- ===== src/Wireguard.antt =====
-- crates/tailscale-core/src/wireguard: the data plane, a module for each of its parts.
pub mod Message
pub mod Replay
pub mod Timestamp
pub mod Transport
pub mod Peer
pub mod Handshake
