-- ===== src/Noise/Record.antt =====
-- The record layer: `Session::write_record`, `Session::read_record` and `parse_header`.
pub mod Stream
mod Tests
use lando.Prelude.{
  ℕ, ◌+◌, ◌-◌, ◌^◌, Option, none, some, [], ◌∷◌, ◌++◌, length, get_or, take, drop, replicate, ltb,
  ◌==◌, if◌then◌else◌, Result, ok, err,
}
use lando.Prelude.Bytes.{Bytes, slice, copy_at, to_be, from_be}
use lando.Crypto.{Aead}
use lando.Noise.{
  Session, NoiseError, bad_length, short_buffer, nonce_exhausted, header_len, tag_len,
  msg_type_record, max_plaintext_size,
}

-- Four zero bytes, then the counter in big-endian.
abbrev pub record_nonce : ℕ → Bytes
record_nonce counter = replicate 4 0 ++ to_be 8 counter

-- `u64::MAX`
abbrev pub nonce_max : ℕ
nonce_max = 2 ^ 64 - 1

abbrev pub record_len : Bytes → ℕ
record_len plaintext = header_len + length plaintext + tag_len

unfoldable pub parse_header : Bytes → ℕ × ℕ
parse_header hdr = (get_or hdr 0 0, from_be (slice hdr 1 2))

-- The header of the record and its plaintext in the buffer.
unfoldable pub place_record : Bytes → Bytes → Bytes
place_record plaintext out =
    let out1 = copy_at out 0 (msg_type_record ∷ []) in
    let out2 = copy_at out1 1 (to_be 2 (length plaintext + tag_len)) in
    copy_at out2 header_len plaintext

module _ (aead : Aead) where
  -- The session and the buffer after the call, and its result.
  unfoldable pub write_record : Session → Bytes → Bytes → Session × Bytes × Result NoiseError ℕ
  write_record s plaintext out =
      if ltb max_plaintext_size (length plaintext)
      then (s, out, err bad_length)
      else if ltb (length out) (record_len plaintext)
      then (s, out, err short_buffer)
      else if s.tx_nonce == nonce_max
      then (s, out, err nonce_exhausted)
      else elim (aead.encrypt s.tx (record_nonce s.tx_nonce) [] plaintext) [
        | none ↦ (s, place_record plaintext out, err NoiseError.decrypt)
        | some (body, tag) ↦ (
          record s { tx_nonce = s.tx_nonce + 1 },
          copy_at (copy_at (place_record plaintext out) header_len body)
              (header_len + length plaintext) tag,
          ok (record_len plaintext),
        )
      ]

  -- The session after the call, and the body with its plaintext in front, of which the length is the
  -- result. (What an error leaves in the body is not part of the model.)
  unfoldable pub read_record : Session → Bytes → Session × Result NoiseError (Bytes × ℕ)
  read_record s body =
      let plaintext_len = length body - tag_len in
      if ltb (length body) tag_len
      then (s, err bad_length)
      else if s.rx_nonce == nonce_max
      then (s, err nonce_exhausted)
      else elim (aead.decrypt s.rx (record_nonce s.rx_nonce) [] (take plaintext_len body)
          (drop plaintext_len body)) [
            | none ↦ (s, err NoiseError.decrypt)
            | some text ↦ (
              record s { rx_nonce = s.rx_nonce + 1 },
              ok (text ++ drop plaintext_len body, plaintext_len),
            )
          ]
