-- ===== src/Noise/Handshake.antt =====
-- `SymmetricState` and `Handshake`, the client's half of the handshake.
pub mod Seals
pub mod Spec
pub mod Server
pub mod Follows
pub mod Agreement
mod Tests
use lando.Prelude.{
  ℕ, ◌+◌, ◌-◌, ◌%◌, ◌^◌, not, ◌||◌, List, none, some, [], ◌∷◌, ◌++◌, length, get_or, take, drop,
  replicate, ltb, ◌==◌, if◌then◌else◌, Result, ok, err, ◌>>=◌,
}
use lando.Prelude.Bytes.{Bytes, slice, copy_at, to_be, from_be}
use lando.Prelude.Decimal.{decimal}
use lando.Crypto.{Suite}
use lando.Crypto.Blake.{hash, hash_parts, kdf}
use lando.Key.{key_len}
use lando.Noise.{
  Session, NoiseError, unexpected_type, server_error, bad_length, short_buffer, protocol_name,
  prologue_prefix, msg_type_initiation, msg_type_response, msg_type_error, initiation_len,
  response_len, header_len, initiation_header_len, tag_len,
}

abbrev pub zero_nonce : Bytes
zero_nonce = replicate 12 0

pub record SymmetricState : Type 0 where
  pub h : Bytes
  pub ck : Bytes

pub record Handshake : Type 0 where
  pub state : SymmetricState
  pub machine_key : Bytes
  pub ephemeral : Bytes

-- The prologue, as `start` builds it in a buffer.
unfoldable pub prologue : ℕ → Bytes
prologue version =
    let digits = decimal 5 version in
    let buffer = replicate (length prologue_prefix + 5) 0 in
    take (length prologue_prefix + length digits)
      (copy_at (copy_at buffer 0 prologue_prefix) (length prologue_prefix) digits)

module _ (suite : Suite) where
  unfoldable pub initialize : SymmetricState
  initialize = let h = hash suite protocol_name in record { h = h; ck = h }

  unfoldable pub mix_hash : SymmetricState → Bytes → SymmetricState
  mix_hash s bytes = record s { h = hash_parts suite (s.h ∷ bytes ∷ []) }

  -- The state, and the cipher that the shared secret gives.
  unfoldable pub mix_dh : SymmetricState → Bytes → Bytes → SymmetricState × Bytes
  mix_dh s private public =
      let blocks = kdf suite 2 s.ck (suite.shared private public) in
      (record s { ck = get_or blocks 0 [] }, get_or blocks 1 [])

  -- The slice `out` has `room` bytes; it comes back filled.
  unfoldable pub encrypt_and_hash :
      SymmetricState → Bytes → ℕ → Bytes → Result NoiseError (SymmetricState × Bytes)
  encrypt_and_hash s cipher room plaintext =
      if not (room == length plaintext + tag_len)
      then err short_buffer
      else elim ((suite.aead).encrypt cipher zero_nonce s.h plaintext) [
        | none ↦ err NoiseError.decrypt
        | some (body, tag) ↦ ok (mix_hash s (body ++ tag), body ++ tag)
      ]

  unfoldable pub decrypt_and_hash :
      SymmetricState → Bytes → ℕ → Bytes → Result NoiseError (SymmetricState × Bytes)
  decrypt_and_hash s cipher room ciphertext =
      let at = length ciphertext - tag_len in
      if ltb (length ciphertext) tag_len || not (room == at)
      then err bad_length
      else elim ((suite.aead).decrypt cipher zero_nonce s.h (take at ciphertext)
          (drop at ciphertext)) [
            | none ↦ err NoiseError.decrypt
            | some text ↦ ok (mix_hash s ciphertext, text)
          ]

  unfoldable pub split : SymmetricState → Bytes × Bytes
  split s = let blocks = kdf suite 2 s.ck [] in (get_or blocks 0 [], get_or blocks 1 [])

  -- `Handshake::start`. An error stands for a panic of its two `expect`s.
  unfoldable pub start : Bytes → Bytes → ℕ → Bytes → Result NoiseError (Handshake × Bytes)
  start machine_key control_key version ephemeral =
      let s0 = mix_hash (mix_hash initialize (prologue version)) control_key in
      let msg0 = copy_at (replicate initiation_len 0) 0 (to_be 2 version) in
      let msg1 = copy_at msg0 2 (msg_type_initiation ∷ []) in
      let msg2 = copy_at msg1 3 (to_be 2 (initiation_len - initiation_header_len)) in
      let ephemeral_pub = suite.public ephemeral in
      let msg3 = copy_at msg2 5 ephemeral_pub in
      let s1 = mix_hash s0 ephemeral_pub in
      let (s2, cipher) = mix_dh s1 ephemeral control_key in
      encrypt_and_hash s2 cipher 48 (suite.public machine_key) >>= λ (s3, sealed_key).
      let msg4 = copy_at msg3 37 sealed_key in
      let (s4, cipher') = mix_dh s3 machine_key control_key in
      encrypt_and_hash s4 cipher' 16 [] >>= λ (s5, sealed_empty). ok (
        record { state = s5; machine_key = machine_key; ephemeral = ephemeral },
        copy_at msg4 85 sealed_empty,
      )

  -- The end of `finish`, once the header has been checked.
  unfoldable pub finish_with : Handshake → Bytes → Result NoiseError Session
  finish_with hs resp =
      let control_ephemeral = slice resp 3 key_len in
      let s1 = mix_hash hs.state control_ephemeral in
      let s2 = (mix_dh s1 hs.ephemeral control_ephemeral).0 in
      let (s3, cipher) = mix_dh s2 hs.machine_key control_ephemeral in
      decrypt_and_hash s3 cipher 0 (slice resp 35 16) >>= λ (s4, _).
      let (tx, rx) = split s4 in
      ok (record { tx = tx; rx = rx; tx_nonce = 0; rx_nonce = 0; handshake_hash = s4.h })

  unfoldable pub finish : Handshake → Bytes → Result NoiseError Session
  finish hs resp =
      let kind = get_or resp 0 0 in
      if ltb (length resp) header_len
      then err bad_length
      else if kind == msg_type_error
      then err server_error
      else if not (kind == msg_type_response)
      then err (unexpected_type kind)
      else if not (from_be (slice resp 1 2) == response_len - header_len)
          || not (length resp == response_len)
      then err bad_length
      else finish_with hs resp
