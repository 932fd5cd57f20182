-- ===== src/Noise.antt =====
-- crates/tailscale-core/src/noise.rs, the channel to the control server: its handshake and its records.
pub mod Handshake
pub mod Record
use lando.Prelude.{ℕ, ◌-◌, [], ◌∷◌}
use lando.Prelude.Bytes.{Bytes, codes}

abbrev pub protocol_name : Bytes
protocol_name = codes "Noise_IK_25519_ChaChaPoly_BLAKE2s"

abbrev pub prologue_prefix : Bytes
prologue_prefix = codes "Tailscale Control Protocol v"

abbrev pub msg_type_initiation : ℕ
msg_type_initiation = 1

abbrev pub msg_type_response : ℕ
msg_type_response = 2

abbrev pub msg_type_error : ℕ
msg_type_error = 3

abbrev pub msg_type_record : ℕ
msg_type_record = 4

abbrev pub initiation_len : ℕ
initiation_len = 101

abbrev pub response_len : ℕ
response_len = 51

abbrev pub header_len : ℕ
header_len = 3

abbrev pub initiation_header_len : ℕ
initiation_header_len = 5

abbrev pub tag_len : ℕ
tag_len = 16

abbrev pub max_message_size : ℕ
max_message_size = 4096

abbrev pub max_ciphertext_size : ℕ
max_ciphertext_size = max_message_size - header_len

abbrev pub max_plaintext_size : ℕ
max_plaintext_size = max_ciphertext_size - tag_len

pub data NoiseError : Type 0 where
  unexpected_type : ℕ → NoiseError
  server_error bad_length decrypt short_buffer nonce_exhausted : NoiseError

-- An established transport: the ciphers are the keys that they are built from.
pub record Session : Type 0 where
  pub tx : Bytes
  pub rx : Bytes
  pub tx_nonce : ℕ
  pub rx_nonce : ℕ
  pub handshake_hash : Bytes
