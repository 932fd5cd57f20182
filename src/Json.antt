-- ===== src/Json.antt =====
-- The JSON of the control protocol, crates/tailscale-core/src/json.rs.
pub mod Writer
pub mod Utf8
pub mod Reader
pub mod Doc
pub mod Elements
mod Tests

-- `out_of_fuel` is the model's own: it says that a loop was given too few rounds.
pub data JsonError : Type 0 where
  short_buffer truncated malformed out_of_fuel : JsonError
