-- ===== src/Control.antt =====
-- The control protocol's calls, crates/tailscale-core/src/control.rs.
pub mod Request
pub mod Response
pub mod Frames
mod Tests
