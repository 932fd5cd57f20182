-- ===== src/Derp/Handshake.antt =====
-- crates/tailscale-core/src/derp/handshake.rs: the sealed payloads of the relay's handshake. A buffer
-- that a function writes into comes back beside the result.
pub mod Opens
mod Tests
use lando.Prelude.{
  ℕ, ◌+◌, ◌-◌, Option, none, some, [], ◌∷◌, ◌++◌, length, take, drop, replicate, ltb, if◌then◌else◌,
  Result, ok, err, ◌>>=◌,
}
use lando.Prelude.Bytes.{Bytes, codes, slice, copy_at}
use lando.Crypto.{Box}
use lando.Json.{JsonError}
use lando.Json.Writer.{Writer, new_writer, ◌>>◌, begin_object, field_u64, end_object}
use lando.Derp.Frame.{key_len, DerpError, crypto, short_buffer}

abbrev pub nonce_len : ℕ
nonce_len = 24

abbrev pub tag_len : ℕ
tag_len = 16

abbrev pub protocol_version : ℕ
protocol_version = 2

abbrev pub seal_overhead : ℕ
seal_overhead = nonce_len + tag_len

-- The JSON object of the client's info, written into a buffer of 64 bytes.
unfoldable pub write_info : Result JsonError Writer
write_info =
    (do begin_object; field_u64 (codes "Version") protocol_version; end_object)
      (new_writer (replicate 64 0))

-- A payload of the client's key and what `seal` has put behind it.
abbrev pub keyed : Bytes → Bytes × Result DerpError ℕ → Bytes × Result DerpError ℕ
keyed front (rest, ok sealed) = (front ++ rest, ok (key_len + sealed))
keyed front (rest, err e) = (front ++ rest, err e)

module _ (box : Box) where
  unfoldable pub seal : Bytes → Bytes → Bytes → Bytes → Bytes → Bytes × Result DerpError ℕ
  seal client_secret peer_public nonce plaintext out =
      let total = seal_overhead + length plaintext in
      let out1 = copy_at out 0 nonce in
      let out2 = copy_at out1 (nonce_len + tag_len) plaintext in
      if ltb (length out) total
      then (out, err short_buffer)
      else elim (box.encrypt client_secret peer_public nonce plaintext) [
        | none ↦ (out2, err crypto)
        | some (cipher, tag) ↦
            (copy_at (copy_at out2 (nonce_len + tag_len) cipher) nonce_len tag, ok total)
      ]

  -- The plaintext is what the tail of the payload holds after the call.
  unfoldable pub open_ : Bytes → Bytes → Bytes → Result DerpError Bytes
  open_ client_secret peer_public payload =
      if ltb (length payload) seal_overhead
      then err crypto
      else elim (box.decrypt client_secret peer_public (take nonce_len payload)
          (drop seal_overhead payload) (slice payload nonce_len tag_len)) [
            | none ↦ err crypto
            | some text ↦ ok text
          ]

  abbrev pub info_payload :
      Bytes → Bytes → Bytes → Bytes → Bytes → Result JsonError Writer → Bytes × Result DerpError ℕ
  info_payload client_secret client_public server_public nonce out (err e) = (out, err short_buffer)
  info_payload client_secret client_public server_public nonce out (ok w) =
      let out1 = copy_at out 0 client_public in
      let info = take w.pos w.buf in
      if ltb (length out) key_len
      then (out, err short_buffer)
      else keyed (take key_len out1)
          (seal client_secret server_public nonce info (drop key_len out1))

  unfoldable pub client_info_payload :
      Bytes → Bytes → Bytes → Bytes → Bytes → Bytes × Result DerpError ℕ
  client_info_payload client_secret client_public server_public nonce out =
      info_payload client_secret client_public server_public nonce out write_info
