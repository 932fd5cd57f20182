-- ===== src/Firmware.antt =====
-- The parts of crates/lando-fw that compute: the firmware's glue around the protocol core.
pub mod Config
pub mod Node
