-- ===== src/Disco.antt =====
-- crates/tailscale-core/src/disco.rs: the ping and pong of endpoint discovery. A public key is its bytes,
-- and a buffer that a function writes into comes back beside the result.
pub mod Pongs
mod Tests
use lando.Prelude.{
  ℕ, ◌+◌, ◌-◌, ◌^◌, not, ◌||◌, Option, none, some, [], ◌∷◌, ◌++◌, length, get_or, take, drop, ltb,
  leb, ◌==◌, if◌then◌else◌, Result, ok, err,
}
use lando.Prelude.Bytes.{Bytes, slice, copy_at, to_be, eq_bytes}
use lando.Crypto.{Box}
use lando.Key.{key_len}

abbrev pub magic : Bytes
magic = 0x54 ∷ 0x53 ∷ 0xf0 ∷ 0x9f ∷ 0x92 ∷ 0xac ∷ []

abbrev pub nonce_len : ℕ
nonce_len = 24

abbrev pub tag_len : ℕ
tag_len = 16

abbrev pub header_len : ℕ
header_len = length magic + key_len + nonce_len

abbrev pub type_ping : ℕ
type_ping = 0x01

abbrev pub type_pong : ℕ
type_pong = 0x02

-- `V0`
abbrev pub version_0 : ℕ
version_0 = 0

abbrev pub pong_body : ℕ
pong_body = 12 + 16 + 2

pub data DiscoError : Type 0 where
  not_disco crypto malformed short_buffer : DiscoError

pub record Header : Type 0 where
  pub sender : Bytes
  pub nonce : Bytes

pub record Ping : Type 0 where
  pub tx_id : Bytes
  pub node_key : Option Bytes

unfoldable pub parse_header : Bytes → Result DiscoError (Header × Bytes)
parse_header packet =
    if ltb (length packet) header_len || not (eq_bytes (take (length magic) packet) magic)
    then err not_disco
    else ok (
      record {
        sender = slice packet (length magic) key_len;
        nonce = slice packet (length magic + key_len) nonce_len;
      },
      drop header_len packet,
    )

unfoldable pub parse_ping : Bytes → Result DiscoError Ping
parse_ping plaintext =
    let body = drop 2 plaintext in
    if ltb (length plaintext) (2 + 12) || not (get_or plaintext 0 0 == type_ping)
    then err malformed
    else ok (record {
      tx_id = take 12 body;
      node_key = if leb (12 + key_len) (length body) then some (slice body 12 key_len) else none;
    })

-- The length of the packet that carries a pong.
abbrev pub pong_total : ℕ
pong_total = header_len + tag_len + 2 + pong_body

-- The cleartext header in the buffer.
unfoldable pub place_header : Bytes → Bytes → Bytes → Bytes
place_header our_public nonce out =
    let out1 = copy_at out 0 magic in
    let out2 = copy_at out1 (length magic) our_public in copy_at out2 (length magic + key_len) nonce

-- The body behind the place of the tag.
unfoldable pub place_pong : Bytes → Bytes → ℕ → Bytes → Bytes
place_pong tx_id src_ip src_port out =
    let at = header_len + tag_len in
    let out1 = copy_at (copy_at out at (type_pong ∷ [])) (at + 1) (version_0 ∷ []) in
    let out2 = copy_at out1 (at + 2) tx_id in
    let mapped = 0 ∷ 0 ∷ 0 ∷ 0 ∷ 0 ∷ 0 ∷ 0 ∷ 0 ∷ 0 ∷ 0 ∷ 0xff ∷ 0xff ∷ [] in
    let out3 = copy_at out2 (at + 2 + 12) mapped in
    let out4 = copy_at out3 (at + 2 + 24) src_ip in copy_at out4 (at + 2 + 28) (to_be 2 src_port)

module _ (box : Box) where
  -- The plaintext that `out` holds after the call, of a buffer of `room` bytes.
  unfoldable pub open_ : Bytes → Header → Bytes → ℕ → Result DiscoError Bytes
  open_ our_secret header sealed room =
      let body = length sealed - tag_len in
      if ltb (length sealed) tag_len
      then err malformed
      else if ltb room body
      then err short_buffer
      else elim (box.decrypt our_secret header.sender header.nonce (drop tag_len sealed)
          (take tag_len sealed)) [ none ↦ err crypto | some text ↦ ok text ]

  unfoldable pub write_pong :
      Bytes → Bytes → Bytes → Bytes → Bytes → Bytes → ℕ → Bytes → Bytes × Result DiscoError ℕ
  write_pong our_secret our_public peer nonce tx_id src_ip src_port out =
      let out1 = place_pong tx_id src_ip src_port (place_header our_public nonce out) in
      let at = header_len + tag_len in
      let text = slice out1 at (pong_total - at) in
      if ltb (length out) pong_total
      then (out, err short_buffer)
      else elim (box.encrypt our_secret peer nonce text) [
        | none ↦ (out1, err crypto)
        | some (cipher, tag) ↦ (copy_at (copy_at out1 at cipher) header_len tag, ok pong_total)
      ]
