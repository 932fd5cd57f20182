-- ===== src/Firmware/Node/Returns.antt =====
-- What the node sends to a peer that has made a handshake.
use lando.Prelude.{
  ℕ, ◌^◌, ◌≤◌, ◌<◌, ◌≡◌, refl, sym, ap, ◌∙◌, Option, none, some, [], length, take, Result, ok, err,
  arith,
}
use lando.Prelude.Bytes.{Bytes}
use lando.Crypto.{Suite, SuiteLaws, Box}
use lando.Wireguard.Message.{WgError}
use lando.Wireguard.Timestamp.{Tai64n}
use lando.Wireguard.Transport.{Session, new_session, decrypt, pad}
use lando.Wireguard.Transport
use lando.Wireguard.Transport.Packet.{decrypt-encrypt}
use lando.Wireguard.Replay.Refine.{new_window-Holds}
use lando.Wireguard.Handshake.Agreement.{Agrees}
use lando.Firmware.Node.{Node, PeerSlot, Source, handle, encrypt, addressed_to}
use lando.Firmware.Node.Serves.{known_ephemeral, serving, handle-initiation}

-- A result of `encrypt` is that of the session, for the peer's source.
addressed_to_ok :
    (suite : Suite) (box : Box) (node : Node) (slot : PeerSlot) (s : Session) (out : Bytes)
    (r : Result WgError ℕ) {node' : Node} {out' : Bytes} {n : ℕ} {to : Source}
    → addressed_to suite box node slot (s, out, r) ≡ (node', out', some (n, to))
    → (out ≡ out') × (r ≡ ok n) × (to ≡ slot.source)
unfolding addressed_to
addressed_to_ok suite box node slot s out (ok m) {n = n} {to = to} e =
    let last : (m, slot.source) ≡ (n, to) =
      ap {B = ℕ × Source}
        (λ (o : Option (ℕ × Source)). elim o [ none ↦ (m, slot.source) | some p ↦ p ])
        (ap (λ r. r.2) e) in
    (ap (λ r. r.1) e, ap (λ p. ok p.0) last, sym (ap (λ p. p.1) last))
addressed_to_ok suite box node slot s out (err x) e = absurd (grind (arith, ap (λ r. r.2) e))

-- After a peer's handshake, the first packet that the node encrypts for it is sent to where the
-- initiation came from, and the peer's session decrypts it to the packet with its padding.
pub encrypt-returns :
    (suite : Suite) (box : Box) (laws : SuiteLaws suite) (node : Node) (mine my_ephemeral : Bytes)
    (my_index : ℕ) (timestamp : Tai64n)
    (a : Agrees suite mine node.node_key my_ephemeral
      (known_ephemeral node.next_index)
      my_index
      node.next_index
      timestamp)
    (from : Source) (out0 packet out : Bytes) {node' : Node} {out' : Bytes} {n : ℕ} {to : Source}
    → my_index < 2 ^ 32
    → 92 ≤ length out0
    → encrypt suite box (handle suite box node a.initiation from out0).0 packet out
      ≡ (node', out', some (n, to))
    → ((decrypt suite.aead (new_session a.my_keys) (take n out')).1 ≡ ok (pad packet)) × (to ≡ from)
unfolding encrypt new_session
encrypt-returns suite box laws node mine my_ephemeral my_index timestamp a from out0 packet out
      {node'} {out'} {n} {to} small room e =
    let served = serving suite box node (suite.public mine) a.their_keys from in
    let is : (handle suite box node a.initiation from out0).0 ≡ served =
      ap (λ r. r.0)
        (handle-initiation suite box node mine my_ephemeral my_index timestamp a from out0 room) in
    let e' : encrypt suite box served packet out ≡ (node', out', some (n, to)) =
      sym (ap (λ m. encrypt suite box m packet out) is) ∙ e in
    let sent = Transport.encrypt suite.aead (new_session a.their_keys) packet out in
    let (same, good, there) = addressed_to_ok suite box served _ sent.0 sent.1 sent.2 e' in
    let (_, received, addressed, peer) = a.mirrored in
    (
      (decrypt-encrypt suite.aead laws.aead_laws (new_session a.their_keys) (new_session a.my_keys)
          [] packet out (ap (λ o. (sent.0, o, sent.2)) same ∙ ap (λ r. (sent.0, out', r)) good)
          received addressed (omega (arith, small, addressed, a.indices.0)) new_window-Holds
          refl).0,
      there,
    )
