-- ===== src/Wireguard/Handshake.antt =====
-- crates/tailscale-core/src/wireguard/handshake.rs: both roles of the handshake. A private key is its
-- bytes, and so is a cipher, which is built from its key. A buffer or slice that a method fills comes
-- back beside the state.
pub mod Seals
pub mod Initiations
pub mod Responses
pub mod Agreement
mod Tests
use lando.Prelude.{
  ℕ, ◌+◌, ◌-◌, Bool, not, ◌||◌, List, none, some, [], ◌∷◌, ◌++◌, length, get_or, take, drop,
  replicate, ◌==◌, if◌then◌else◌, Result, ok, err, ◌>>=◌,
}
use lando.Prelude.Bytes.{Bytes, slice, copy_at, to_le, from_le, eq_bytes}
use lando.Crypto.{Suite}
use lando.Crypto.Blake.{hash, hash_parts, kdf}
use lando.Key.{key_len}
use lando.Wireguard.Message.{
  construction, identifier, msg_initiation, msg_response, initiation_len, response_len, tag_len,
  init_sender, init_ephemeral, init_static, init_timestamp, init_mac1, resp_sender, resp_receiver,
  resp_ephemeral, resp_empty, resp_mac1, WgError, malformed, bad_mac, short_buffer, mac1,
}
use lando.Wireguard.Timestamp.{Tai64n}
use lando.Wireguard.Transport.{SessionKeys}

abbrev pub zero_nonce : Bytes
zero_nonce = replicate 12 0

abbrev pub no_psk : Bytes
no_psk = replicate key_len 0

-- The running chaining key and hash.
pub record State : Type 0 where
  pub c : Bytes
  pub h : Bytes

-- `let [a, b, ..] = kdf(..)`
abbrev pub output : List Bytes → ℕ → Bytes
output blocks i = get_or blocks i []

pub record Initiator : Type 0 where
  pub state : State
  pub ephemeral : Bytes
  pub static_private : Bytes
  pub local_index : ℕ

pub record Responder : Type 0 where
  pub state : State
  pub static_private : Bytes
  pub peer_static : Bytes
  pub peer_ephemeral : Bytes
  pub peer_index : ℕ

pub record Initiation : Type 0 where
  pub peer_static : Bytes
  pub timestamp : Tai64n
  pub peer_index : ℕ

module _ (suite : Suite) where
  unfoldable pub new_state : Bytes → State
  new_state responder_static =
      let c = hash suite construction in
      let h = hash_parts suite (c ∷ identifier ∷ []) in
      record { c = c; h = hash_parts suite (h ∷ responder_static ∷ []) }

  unfoldable pub mix_hash : State → Bytes → State
  mix_hash s bytes = record s { h = hash_parts suite (s.h ∷ bytes ∷ []) }

  unfoldable pub mix_key : State → Bytes → State
  mix_key s input = record s { c = output (kdf suite 1 s.c input) 0 }

  unfoldable pub mix_key_and_cipher : State → Bytes → State × Bytes
  mix_key_and_cipher s input =
      let blocks = kdf suite 2 s.c input in (record s { c = output blocks 0 }, output blocks 1)

  unfoldable pub mix_psk : State → State × Bytes
  mix_psk s =
      let blocks = kdf suite 3 s.c no_psk in
      (mix_hash (record s { c = output blocks 0 }) (output blocks 1), output blocks 2)

  -- The slice `out` has `room` bytes; it comes back filled.
  unfoldable pub seal : State → Bytes → ℕ → Bytes → Result WgError (State × Bytes)
  seal s cipher room plaintext =
      if not (room == length plaintext + tag_len)
      then err short_buffer
      else elim ((suite.aead).encrypt cipher zero_nonce s.h plaintext) [
        | none ↦ err WgError.decrypt
        | some (body, tag) ↦ ok (mix_hash s (body ++ tag), body ++ tag)
      ]

  unfoldable pub open_ : State → Bytes → ℕ → Bytes → Result WgError (State × Bytes)
  open_ s cipher room ciphertext =
      if not (length ciphertext == room + tag_len)
      then err malformed
      else let at = length ciphertext - tag_len in
        elim ((suite.aead).decrypt cipher zero_nonce s.h (take at ciphertext)
          (drop at ciphertext)) [
            | none ↦ err WgError.decrypt
            | some text ↦ ok (mix_hash s ciphertext, text)
          ]

  unfoldable pub split : State → Bytes × Bytes
  split s = let blocks = kdf suite 2 s.c [] in (output blocks 0, output blocks 1)

  -- `Initiator::new`
  unfoldable pub new_initiator :
      Bytes → Bytes → Bytes → ℕ → Tai64n → Result WgError (Initiator × Bytes)
  new_initiator static_private peer_static ephemeral local_index timestamp =
      let s0 = new_state peer_static in
      let msg0 = copy_at (replicate initiation_len 0) 0 (msg_initiation ∷ []) in
      let msg1 = copy_at msg0 init_sender (to_le 4 local_index) in
      let ephemeral_pub = suite.public ephemeral in
      let s1 = mix_key s0 ephemeral_pub in
      let msg2 = copy_at msg1 init_ephemeral ephemeral_pub in
      let s2 = mix_hash s1 ephemeral_pub in
      let (s3, cipher) = mix_key_and_cipher s2 (suite.shared ephemeral peer_static) in
      let static_public = suite.public static_private in
      seal s3 cipher (key_len + tag_len) static_public >>= λ (s4, sealed_static).
      let msg3 = copy_at msg2 init_static sealed_static in
      let (s5, cipher') = mix_key_and_cipher s4 (suite.shared static_private peer_static) in
      seal s5 cipher' (12 + tag_len) timestamp >>= λ (s6, sealed_timestamp).
      let msg4 = copy_at msg3 init_timestamp sealed_timestamp in
      let m = mac1 suite peer_static (take init_mac1 msg4) in
      ok (
        record {
          state = s6;
          ephemeral = ephemeral;
          static_private = static_private;
          local_index = local_index;
        },
        copy_at msg4 init_mac1 m,
      )

  unfoldable pub consume_response : Initiator → Bytes → Result WgError SessionKeys
  consume_response i msg =
      if not (length msg == response_len) || not (get_or msg 0 0 == msg_response)
      then err malformed
      else let peer_index = from_le (slice msg resp_sender 4) in
        let peer_ephemeral = slice msg resp_ephemeral key_len in
        let s1 = mix_hash (mix_key i.state peer_ephemeral) peer_ephemeral in
        let s2 = mix_key s1 (suite.shared i.ephemeral peer_ephemeral) in
        let s3 = mix_key s2 (suite.shared i.static_private peer_ephemeral) in
        let (s4, cipher) = mix_psk s3 in
        open_ s4 cipher 0 (slice msg resp_empty tag_len) >>= λ (s5, _).
        let (send, receive) = split s5 in
        ok (record {
          send = send;
          receive = receive;
          local_index = i.local_index;
          peer_index = peer_index;
        })

  unfoldable pub consume_initiation : Bytes → Bytes → Result WgError (Responder × Initiation)
  consume_initiation static_private msg =
      let static_public = suite.public static_private in
      let expected = mac1 suite static_public (take init_mac1 msg) in
      if not (length msg == initiation_len) || not (get_or msg 0 0 == msg_initiation)
      then err malformed
      else if not (eq_bytes (slice msg init_mac1 (length expected)) expected)
      then err bad_mac
      else let peer_index = from_le (slice msg init_sender 4) in
        let peer_ephemeral = slice msg init_ephemeral key_len in
        let s1 = mix_hash (mix_key (new_state static_public) peer_ephemeral) peer_ephemeral in
        let (s2, cipher) = mix_key_and_cipher s1 (suite.shared static_private peer_ephemeral) in
        open_ s2 cipher key_len (slice msg init_static (key_len + tag_len)) >>= λ (s3, peer_static).
        let (s4, cipher') = mix_key_and_cipher s3 (suite.shared static_private peer_static) in
        open_ s4 cipher' 12 (slice msg init_timestamp (12 + tag_len)) >>= λ (s5, timestamp). ok (
          record {
            state = s5;
            static_private = static_private;
            peer_static = peer_static;
            peer_ephemeral = peer_ephemeral;
            peer_index = peer_index;
          },
          record { peer_static = peer_static; timestamp = timestamp; peer_index = peer_index },
        )

  unfoldable pub respond : Responder → Bytes → ℕ → Result WgError (Bytes × SessionKeys)
  respond r ephemeral local_index =
      let msg0 = copy_at (replicate response_len 0) 0 (msg_response ∷ []) in
      let msg1 = copy_at msg0 resp_sender (to_le 4 local_index) in
      let msg2 = copy_at msg1 resp_receiver (to_le 4 r.peer_index) in
      let ephemeral_pub = suite.public ephemeral in
      let s1 = mix_key r.state ephemeral_pub in
      let msg3 = copy_at msg2 resp_ephemeral ephemeral_pub in
      let s2 = mix_hash s1 ephemeral_pub in
      let s3 = mix_key s2 (suite.shared ephemeral r.peer_ephemeral) in
      let s4 = mix_key s3 (suite.shared ephemeral r.peer_static) in
      let (s5, cipher) = mix_psk s4 in
      seal s5 cipher tag_len [] >>= λ (s6, sealed_empty).
      let msg4 = copy_at msg3 resp_empty sealed_empty in
      let m = mac1 suite r.peer_static (take resp_mac1 msg4) in
      let (receive, send) = split s6 in
      ok (
        copy_at msg4 resp_mac1 m,
        record {
          send = send;
          receive = receive;
          local_index = local_index;
          peer_index = r.peer_index;
        },
      )
