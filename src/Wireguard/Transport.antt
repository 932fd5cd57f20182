-- ===== src/Wireguard/Transport.antt =====
-- The established session of crates/tailscale-core/src/wireguard/transport.rs: `Session`.
-- The ciphers are the keys that they are built from; the cipher itself is a parameter. A buffer
-- that a method writes into comes back beside the result.
pub mod Packet
pub mod Replays
pub mod Nonces
mod Tests
use lando.Prelude.{
  ℕ, ◌+◌, ◌-◌, ◌*◌, ◌/◌, Bool, true, false, not, ◌||◌, Option, none, some, List, [], ◌∷◌, ◌++◌,
  length, get_or, drop, replicate, ltb, leb, ◌==◌, if◌then◌else◌, Result, ok, err,
}
use lando.Prelude.Bytes.{Bytes, slice, copy_at, to_le, from_le}
use lando.Crypto.{Aead}
use lando.Wireguard.Message.{
  msg_transport, transport_header_len, tag_len, WgError, malformed, replayed_transport,
  nonce_exhausted, short_buffer,
}
use lando.Wireguard.Message.{WgError}
use lando.Wireguard.Replay.{ReplayWindow, new_window, reject_after_messages, accept}

-- `SessionKeys` of handshake.rs
pub record SessionKeys : Type 0 where
  pub send : Bytes
  pub receive : Bytes
  pub local_index : ℕ
  pub peer_index : ℕ

pub record Session : Type 0 where
  pub send_cipher : Bytes
  pub receive_cipher : Bytes
  pub send_counter : ℕ
  pub replay : ReplayWindow
  pub local_index : ℕ
  pub peer_index : ℕ

-- `Session::new`
unfoldable pub new_session : SessionKeys → Session
new_session keys = record {
  send_cipher = keys.send;
  receive_cipher = keys.receive;
  send_counter = 0;
  replay = new_window;
  local_index = keys.local_index;
  peer_index = keys.peer_index;
}

-- Four zero bytes, then the counter in little-endian.
abbrev pub nonce : ℕ → Bytes
nonce counter = replicate 4 0 ++ to_le 8 counter

unfoldable pub needs_rekey : Session → Bool
needs_rekey s = leb reject_after_messages s.send_counter

-- `payload.len().div_ceil(16) * 16`
abbrev pub padded_len : Bytes → ℕ
padded_len payload = (length payload + 15) / 16 * 16

-- The plaintext with its zero padding.
abbrev pub pad : Bytes → Bytes
pad payload = payload ++ replicate (padded_len payload - length payload) 0

-- The header fields, each copied to its place.
pub write_header : Session → Bytes → Bytes
write_header s out0 =
    let out1 = copy_at out0 0 (msg_transport ∷ []) in
    let out2 = copy_at out1 1 (replicate 3 0) in
    let out3 = copy_at out2 4 (to_le 4 s.peer_index) in copy_at out3 8 (to_le 8 s.send_counter)

-- The length of the packet that carries a payload.
abbrev pub packet_len : Bytes → ℕ
packet_len payload = transport_header_len + padded_len payload + tag_len

-- The fields of a received packet.
abbrev pub counter_of : Bytes → ℕ
counter_of packet = from_le (slice packet 8 8)

abbrev pub body_len : Bytes → ℕ
body_len packet = length packet - transport_header_len - tag_len

abbrev pub body_of : Bytes → Bytes
body_of packet = slice packet transport_header_len (body_len packet)

abbrev pub tag_of : Bytes → Bytes
tag_of packet = drop (transport_header_len + body_len packet) packet

-- The end of `decrypt`, once the packet is authenticated.
pub deliver : Session → ℕ → Bytes → Session × Result WgError Bytes
deliver s counter text =
    let (replay', fresh) = accept s.replay counter in
    (record s { replay = replay' }, if fresh then ok text else err replayed_transport)

module _ (aead : Aead) where
  -- The session and the buffer after the call, and its result.
  unfoldable pub encrypt : Session → Bytes → Bytes → Session × Bytes × Result WgError ℕ
  unfolding write_header
  encrypt s payload out =
      if leb reject_after_messages s.send_counter
      then (s, out, err nonce_exhausted)
      else if ltb (length out) (packet_len payload)
      then (s, out, err short_buffer)
      else elim (aead.encrypt s.send_cipher (nonce s.send_counter) [] (pad payload)) [
        | none ↦ (
          s,
          copy_at (write_header s out) transport_header_len (pad payload),
          err WgError.decrypt,
        )
        | some (cipher, tag) ↦ (
          record s { send_counter = s.send_counter + 1 },
          copy_at (copy_at (write_header s out) transport_header_len cipher)
              (transport_header_len + padded_len payload) tag,
          ok (packet_len payload),
        )
      ]

  -- The session after the call, and the plaintext with its padding. (What an error leaves in the
  -- packet, which is decrypted in place, is not part of the model.)
  unfoldable pub decrypt : Session → Bytes → Session × Result WgError Bytes
  unfolding deliver
  decrypt s packet =
      if ltb (length packet) (transport_header_len + tag_len)
        || not (get_or packet 0 0 == msg_transport)
      then (s, err malformed)
      else if not (from_le (slice packet 4 4) == s.local_index)
      then (s, err malformed)
      else elim (aead.decrypt s.receive_cipher (nonce (counter_of packet)) [] (body_of packet)
          (tag_of packet)) [
            | none ↦ (s, err WgError.decrypt)
            | some text ↦ deliver s (counter_of packet) text
          ]
