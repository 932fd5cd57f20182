-- ===== src/Wireguard/Message.antt =====
-- crates/tailscale-core/src/wireguard/mod.rs: message types, lengths and errors.
use lando.Prelude.{ℕ, [], ◌∷◌}
use lando.Prelude.Bytes.{Bytes, codes}
use lando.Crypto.{Suite}
use lando.Crypto.Blake.{hash_parts, keyed_mac}

abbrev pub construction : Bytes
construction = codes "Noise_IKpsk2_25519_ChaChaPoly_BLAKE2s"

abbrev pub identifier : Bytes
identifier = codes "WireGuard v1 zx2c4 Jason@zx2c4.com"

abbrev pub label_mac1 : Bytes
label_mac1 = codes "mac1----"

abbrev pub msg_initiation : ℕ
msg_initiation = 1

abbrev pub msg_response : ℕ
msg_response = 2

abbrev pub msg_transport : ℕ
msg_transport = 4

abbrev pub initiation_len : ℕ
initiation_len = 148

abbrev pub response_len : ℕ
response_len = 92

abbrev pub transport_header_len : ℕ
transport_header_len = 16

abbrev pub tag_len : ℕ
tag_len = 16

-- Where the fields of an initiation stand, `init`, and those of a response, `resp`.
abbrev pub init_sender : ℕ
init_sender = 4

abbrev pub init_ephemeral : ℕ
init_ephemeral = 8

abbrev pub init_static : ℕ
init_static = 40

abbrev pub init_timestamp : ℕ
init_timestamp = 88

abbrev pub init_mac1 : ℕ
init_mac1 = 116

abbrev pub resp_sender : ℕ
resp_sender = 4

abbrev pub resp_receiver : ℕ
resp_receiver = 8

abbrev pub resp_ephemeral : ℕ
resp_ephemeral = 12

abbrev pub resp_empty : ℕ
resp_empty = 44

abbrev pub resp_mac1 : ℕ
resp_mac1 = 60

pub data WgError : Type 0 where
  malformed : WgError
  decrypt : WgError
  bad_mac : WgError
  replayed_handshake : WgError
  replayed_transport : WgError
  nonce_exhausted : WgError
  short_buffer : WgError

module _ (suite : Suite) where
  unfoldable pub mac1 : Bytes → Bytes → Bytes
  mac1 peer_static message_prefix =
      keyed_mac suite (hash_parts suite (label_mac1 ∷ peer_static ∷ [])) (message_prefix ∷ [])
