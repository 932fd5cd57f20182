-- ===== src/Wireguard/Transport/Packet.antt =====
-- What `encrypt` puts on the wire, and that the peer's `decrypt` recovers it.
use lando.Prelude.{
  ℕ, ◌+◌, ◌-◌, ◌^◌, ◌≤◌, ◌<◌, ◌≡◌, refl, sym, ap, ◌∙◌, true, some, [], ◌∷◌, ◌++◌, append_assoc,
  length, get_or, take, drop, replicate, length-append, length-replicate, take-append_self,
  drop-append_self, over, ok, arith, inl, inr, Option-cases,
}
use lando.Prelude.Bytes.{Bytes, slice, copy_at, to_le, from_le, from_le-to_le, copy_at-over}
use lando.Crypto.{Aead, Laws}
use lando.Wireguard.Message.{msg_transport, transport_header_len}
use lando.Wireguard.Replay.{reject_after_messages}
use lando.Wireguard.Replay.Spec.{History, admits}
use lando.Wireguard.Replay.Refine.{Holds, accept_refines}
use lando.Wireguard.Transport.{
  Session, nonce, padded_len, pad, packet_len, write_header, encrypt, decrypt, deliver, counter_of,
  body_len, body_of, tag_of,
}

-- The sixteen header bytes of the next packet.
abbrev pub header : Session → Bytes
header s = (msg_transport ∷ 0 ∷ 0 ∷ 0 ∷ []) ++ (to_le 4 s.peer_index ++ to_le 8 s.send_counter)

abbrev pub packet : Session → Bytes → Bytes → Bytes
packet s cipher tag = header s ++ (cipher ++ tag)

write_header-over : (s : Session) (out : Bytes) → write_header s out ≡ over (header s) out
unfolding write_header
write_header-over s out =
    ap (λ x. at_counter (at_index (copy_at x 1 (replicate 3 0))))
      (copy_at-over [] (msg_transport ∷ []) out 0 refl)
    ∙ ap (λ x. at_counter (at_index x))
        (copy_at-over (msg_transport ∷ []) (replicate 3 0) out 1 refl)
    ∙ ap at_counter
        (copy_at-over (msg_transport ∷ 0 ∷ 0 ∷ 0 ∷ []) (to_le 4 s.peer_index) out 4 refl)
    ∙ copy_at-over ((msg_transport ∷ 0 ∷ 0 ∷ 0 ∷ []) ++ to_le 4 s.peer_index)
        (to_le 8 s.send_counter) out 8 refl
  where
    at_index : Bytes → Bytes
    at_index x = copy_at x 4 (to_le 4 s.peer_index)

    at_counter : Bytes → Bytes
    at_counter x = copy_at x 8 (to_le 8 s.send_counter)

length-pad : (payload : Bytes) → length (pad payload) ≡ padded_len payload
length-pad payload = omega (
  arith,
  length-append payload (replicate (padded_len payload - length payload) 0),
  length-replicate {A = ℕ} (padded_len payload - length payload) 0,
)

module _ (aead : Aead) (laws : Laws aead) where
  -- The buffer after a successful seal starts with the packet.
  written :
      (s : Session) (payload out cipher tag : Bytes)
      → length cipher ≡ padded_len payload
      → copy_at
          (copy_at (write_header s out) transport_header_len cipher)
          (transport_header_len + padded_len payload)
          tag
        ≡ over ((header s ++ cipher) ++ tag) out
  written s payload out cipher tag e =
      ap (λ x. copy_at (copy_at x 16 cipher) (16 + padded_len payload) tag)
        (write_header-over s out)
      ∙ ap (λ x. copy_at x (16 + padded_len payload) tag)
          (copy_at-over (header s) cipher out 16 refl)
      ∙ copy_at-over (header s ++ cipher) tag out (16 + padded_len payload)
          (omega (arith, length-append (header s) cipher))

  front :
      (s : Session) (payload out cipher tag : Bytes)
      → aead.encrypt s.send_cipher (nonce s.send_counter) [] (pad payload) ≡ some (cipher, tag)
      → take (packet_len payload) (
          copy_at
            (copy_at (write_header s out) transport_header_len cipher)
            (transport_header_len + padded_len payload)
            tag)
        ≡ packet s cipher tag
  front s payload out cipher tag e =
      let kept =
        laws.length-encrypt s.send_cipher (nonce s.send_counter) [] (pad payload) cipher tag e in
      ap (take (packet_len payload)) (written s payload out cipher tag (kept ∙ length-pad payload))
      ∙ take-append_self ((header s ++ cipher) ++ tag)
          (drop (length ((header s ++ cipher) ++ tag)) out) (packet_len payload)
          (omega (
            arith,
            kept,
            length-pad payload,
            laws.length-tag s.send_cipher (nonce s.send_counter) [] (pad payload) cipher tag e,
            length-append (header s ++ cipher) tag,
            length-append (header s) cipher,
          ))
      ∙ append_assoc (header s) cipher tag

  -- What a successful `encrypt` has done.
  pub encrypt_ok :
      (s : Session) (payload out : Bytes) {s' : Session} {out' : Bytes} {n : ℕ}
      → encrypt aead s payload out ≡ (s', out', ok n)
      → (p : Bytes × Bytes) × (aead.encrypt s.send_cipher (nonce s.send_counter) [] (pad payload)
          ≡ some p)
        × (s' ≡ record s { send_counter = s.send_counter + 1 })
        × (take n out' ≡ packet s p.0 p.1)
        × (s.send_counter < reject_after_messages)
  unfolding encrypt
  encrypt_ok s payload out e =
      elim (Option-cases (aead.encrypt s.send_cipher (nonce s.send_counter) [] (pad payload))) [
        | inl fails ↦ ground arith
        | inr (p, sealed) ↦ (
          p,
          sealed,
          ground arith,
          ground (arith, front s payload out p.0 p.1 sealed),
          ground arith,
        )
      ]

-- `decrypt` of a well-addressed packet that opens goes on to `deliver`.
pub decrypt_opens :
    (aead : Aead) (r : Session) (pk : Bytes) (c : ℕ) (body tag text : Bytes)
    → 32 ≤ length pk
    → get_or pk 0 0 ≡ msg_transport
    → from_le (slice pk 4 4) ≡ r.local_index
    → counter_of pk ≡ c
    → body_of pk ≡ body
    → tag_of pk ≡ tag
    → aead.decrypt r.receive_cipher (nonce c) [] body tag ≡ some text
    → decrypt aead r pk ≡ deliver r c text
unfolding decrypt
decrypt_opens aead r pk c body tag text len kind addressed hc hb ht e = ground arith

body_of-packet :
    (s : Session) (cipher tag : Bytes) → length tag ≡ 16 → body_of (packet s cipher tag) ≡ cipher
body_of-packet s cipher tag h =
    take-append_self cipher tag (body_len (packet s cipher tag))
      (omega (arith, length-append cipher tag))

tag_of-packet :
    (s : Session) (cipher tag : Bytes) → length tag ≡ 16 → tag_of (packet s cipher tag) ≡ tag
tag_of-packet s cipher tag h =
    drop-append_self (header s ++ cipher) tag (16 + body_len (packet s cipher tag))
      (omega (arith, length-append cipher tag, length-append (header s) cipher))

delivered :
    (r : Session) (seen : History) (c : ℕ) (text : Bytes)
    → Holds r.replay seen
    → admits seen c ≡ true
    → ((deliver r c text).1 ≡ ok text) × Holds (deliver r c text).0.replay (c ∷ seen)
unfolding deliver
delivered r seen c text v fresh = ground (arith, accept_refines r.replay seen c v)

module _ (aead : Aead) (laws : Laws aead) where
  opened :
      (s r : Session) (text cipher tag : Bytes)
      → aead.encrypt s.send_cipher (nonce s.send_counter) [] text ≡ some (cipher, tag)
      → r.receive_cipher ≡ s.send_cipher
      → r.local_index ≡ s.peer_index
      → s.peer_index < 2 ^ 32
      → s.send_counter < reject_after_messages
      → decrypt aead r (packet s cipher tag) ≡ deliver r s.send_counter text
  opened s r text cipher tag e same_key same_index small lim =
      let tagged = laws.length-tag s.send_cipher (nonce s.send_counter) [] text cipher tag e in
      decrypt_opens aead r (packet s cipher tag) s.send_counter cipher tag text
        (omega (arith, tagged, length-append cipher tag)) refl
        (from_le-to_le 4 s.peer_index small ∙ sym same_index)
        (from_le-to_le 8 s.send_counter (omega arith)) (body_of-packet s cipher tag tagged)
        (tag_of-packet s cipher tag tagged)
        (rw same_key
          (laws.decrypt-encrypt s.send_cipher (nonce s.send_counter) [] text cipher tag e))

  -- A packet that `encrypt` wrote is recovered by the peer: if the peer's session has the sender's
  -- key and index and its window admits the sender's counter, `decrypt` returns the zero-padded
  -- payload and records the counter in the window.
  pub decrypt-encrypt :
      (s r : Session) (seen : History) (payload out : Bytes) {s' : Session} {out' : Bytes} {n : ℕ}
      → encrypt aead s payload out ≡ (s', out', ok n)
      → r.receive_cipher ≡ s.send_cipher
      → r.local_index ≡ s.peer_index
      → s.peer_index < 2 ^ 32
      → Holds r.replay seen
      → admits seen s.send_counter ≡ true
      → ((decrypt aead r (take n out')).1 ≡ ok (pad payload))
        × Holds (decrypt aead r (take n out')).0.replay (s.send_counter ∷ seen)
  decrypt-encrypt s r seen payload out e same_key same_index small v fresh =
      let (p, sealed, _, wire, lim) = encrypt_ok aead laws s payload out e in
      rw (wire, opened s r (pad payload) p.0 p.1 sealed same_key same_index small lim)
        (delivered r seen s.send_counter (pad payload) v fresh)
