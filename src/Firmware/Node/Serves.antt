-- ===== src/Firmware/Node/Serves.antt =====
-- What the node does for a peer: the answer to a handshake, and the packets after it.
use lando.Prelude.{
  ℕ, ◌^◌, ◌<◌, ◌≤◌, ◌≡◌, refl, ap, ◌∙◌, inl, inr, none, some, [], ◌∷◌, ◌++◌, length, get_or, take,
  ltb, ◌==◌, false, ok, err, arith, replicate, length-take, Bool-cases, Result-cases, refused,
  ==_iff,
}
use lando.Prelude.Bytes.{Bytes, eq_bytes, copy_at, to_le}
use lando.Crypto.{Suite, SuiteLaws, Box}
use lando.Disco.{parse_header, not_disco}
use lando.Tsmp
use lando.Wireguard.Timestamp.{Tai64n}
use lando.Wireguard.Transport.{Session, SessionKeys, new_session, encrypt, decrypt, pad}
use lando.Wireguard.Transport.Replays.{opening, decrypt_forged}
use lando.Wireguard.Message.{malformed}
use lando.Wireguard.Handshake.{Initiator, respond, consume_response}
use lando.Wireguard.Handshake.Agreement.{Agrees, handshake_delivers, consume_initiation_accepts}
use lando.Firmware.Node.{
  Node, PeerSlot, Source, reply, deliver, handle, handle_wireguard, handle_initiation,
  handle_transport, handle_plain, with_session, index_after,
}

parse_header_other :
    (packet : Bytes) → get_or packet 0 0 < 0x54 → parse_header packet ≡ err not_disco
unfolding parse_header eq_bytes
parse_header_other [] h = refl
parse_header_other (b ∷ rest) h = ground arith

consume_response-length :
    (suite : Suite) (i : Initiator) (msg : Bytes) {keys : SessionKeys}
    → consume_response suite i msg ≡ ok keys
    → length msg ≡ 92
unfolding consume_response
consume_response-length suite i msg e = elim (Bool-cases (length msg == 92)) [
  | inl a ↦ (==_iff (length msg) 92).0 a
  | inr a ↦ absurd (refused {e = malformed} (rw a refl) e)
]

decrypt_kind :
    (suite : Suite) (r : Session) (packet : Bytes) {text : Bytes}
    → (decrypt suite.aead r packet).1 ≡ ok text
    → get_or packet 0 0 ≡ 4
unfolding decrypt
decrypt_kind suite r packet e = elim (Bool-cases (get_or packet 0 0 == 4)) [
  | inl a ↦ (==_iff (get_or packet 0 0) 4).0 a
  | inr a ↦ elim (Bool-cases (ltb (length packet) 32)) [
    | inl b ↦ absurd (refused {e = malformed} (rw b refl) e)
    | inr b ↦ absurd (refused {e = malformed} (rw (a, b) refl) e)
  ]
]

-- The ephemeral key of a node's handshake: what its index alone says.
abbrev pub known_ephemeral : ℕ → Bytes
known_ephemeral index = to_le 4 index ++ to_le 4 148 ++ replicate 24 0

module _ (suite : Suite) (box : Box) where
  -- What a kind of packet leads to.
  handle-kind :
      (node : Node) (packet : Bytes) (from : Source) (out : Bytes)
      → ((get_or packet 0 0 ≡ 1)
          → handle suite box node packet from out
            ≡ handle_initiation suite box node packet from out)
        × ((get_or packet 0 0 ≡ 4)
            → handle suite box node packet from out
              ≡ handle_transport suite box node packet from out)
  unfolding handle handle_wireguard
  handle-kind node [] from out = (λ e. absurd (omega (arith, e)), λ e. absurd (omega (arith, e)))
  handle-kind node (kind ∷ rest) from out = (
    λ e. rw (handle, parse_header_other (kind ∷ rest) (omega (arith, e))) (ground arith),
    λ e. rw (handle, parse_header_other (kind ∷ rest) (omega (arith, e))) (ground arith),
  )

  -- The node with the session of a handshake.
  abbrev pub serving : Node → Bytes → SessionKeys → Source → Node
  serving node key keys from = record node {
    next_index = index_after node.next_index;
    peer = some (record { key = key; session = new_session keys; source = from });
  }

  pub handle-initiation :
      (node : Node) (mine my_ephemeral : Bytes) (my_index : ℕ) (timestamp : Tai64n)
      (a : Agrees suite mine node.node_key my_ephemeral
        (known_ephemeral node.next_index)
        my_index
        node.next_index
        timestamp)
      (from : Source) (out : Bytes)
      → 92 ≤ length out
      → handle suite box node a.initiation from out ≡ (
        serving node (suite.public mine) a.their_keys from,
        copy_at out 0 a.response,
        some (reply 92),
      )
  unfolding handle_initiation
  handle-initiation node mine my_ephemeral my_index timestamp a from out room =
      let (whole, kind, _) = consume_initiation_accepts suite node.node_key a.initiation a.learns in
      let size = consume_response-length suite a.initiator a.response a.consumes in
      let responded =
        ap
          (λ n.
            respond suite a.responder (to_le 4 node.next_index ++ to_le 4 n ++ replicate 24 0)
              node.next_index)
          whole
        ∙ a.responds in
      let enough : ltb (length out) (length a.response) ≡ false = ground arith in
      (handle-kind node a.initiation from out).0 kind
      ∙ rw (handle_initiation, a.learns)
          (rw responded (
            rw enough (
              ap
                (λ n. (
                  serving node (suite.public mine) a.their_keys from,
                  copy_at out 0 a.response,
                  some (reply n),
                ))
                size)))

  -- What a packet is to the session of a peer, that is no ping: it is delivered.
  handle-transport :
      (node : Node) (slot : PeerSlot) (packet text : Bytes) (from : Source) (out : Bytes)
      → node.peer ≡ some slot
      → length packet ≤ 1600
      → (decrypt suite.aead slot.session packet).1 ≡ ok text
      → Tsmp.parse_ping text ≡ none
      → length text ≤ length out
      → handle suite box node packet from out ≡ (
        with_session suite box node
            (record slot { source = from })
            (decrypt suite.aead slot.session packet).0,
        copy_at out 0 text,
        some (deliver (length text)),
      )
  unfolding handle_transport handle_plain
  handle-transport node slot packet text from out peer fits good no_ping room =
      let short : ltb 1600 (length packet) ≡ false = ground arith in
      let enough : ltb (length out) (length text) ≡ false = ground arith in
      (handle-kind node packet from out).1 (decrypt_kind suite slot.session packet good)
      ∙ rw (handle_transport, peer)
          (rw short (rw good (rw (handle_plain, no_ping) (rw enough refl))))

  -- A peer's handshake and its first packet, by any transports: the node answers the initiation with the
  -- 92 bytes of the response, which the peer has accepted in the handshake, and delivers what the packet
  -- carries, with its padding, if that is no TSMP ping; from then on it sends to where that packet came
  -- from. The packet has at most 1600 bytes, and the buffers have room.
  pub handle_delivers :
      (laws : SuiteLaws suite) (node : Node) (mine my_ephemeral : Bytes) (my_index : ℕ)
      (timestamp : Tai64n)
      (a : Agrees suite mine node.node_key my_ephemeral
        (known_ephemeral node.next_index)
        my_index
        node.next_index
        timestamp)
      (from from' : Source) (out out' payload buffer : Bytes) {s' : Session} {packet : Bytes}
      {n : ℕ}
      → node.next_index < 2 ^ 32
      → 92 ≤ length out
      → encrypt suite.aead (new_session a.my_keys) payload buffer ≡ (s', packet, ok n)
      → n ≤ 1600
      → Tsmp.parse_ping (pad payload) ≡ none
      → length (pad payload) ≤ length out'
      → (served : Node) × (after : Node) × (slot : PeerSlot) × (handle suite box node a.initiation
            from out
          ≡ (served, copy_at out 0 a.response, some (reply 92)))
        × (handle suite box served (take n packet) from' out'
            ≡ (after, copy_at out' 0 (pad payload), some (deliver (length (pad payload)))))
        × (after.peer ≡ some slot)
        × (slot.source ≡ from')
  handle_delivers laws node mine my_ephemeral my_index timestamp a from from' out out' payload
        buffer {s'} {packet} {n} small room e fits no_ping room' =
      let served = serving node (suite.public mine) a.their_keys from in
      let slot : PeerSlot = record {
        key = suite.public mine;
        session = new_session a.their_keys;
        source = from;
      } in
      let good =
        handshake_delivers suite laws mine node.node_key my_ephemeral
          (known_ephemeral node.next_index) my_index node.next_index timestamp payload buffer a
          small e in
      (
        served,
        _,
        _,
        handle-initiation node mine my_ephemeral my_index timestamp a from out room,
        handle-transport served slot (take n packet) (pad payload) from' out' refl
            (omega (arith, length-take n packet)) good no_ping room',
        refl,
        refl,
      )

-- A packet of the transport type that the session's cipher refuses is answered by nothing and leaves the
-- session as it was; but the node sends to its source from then on.
pub handle_forged :
    (suite : Suite) (box : Box) (node : Node) (slot : PeerSlot) (packet : Bytes) (from : Source)
    (out : Bytes)
    → node.peer ≡ some slot
    → get_or packet 0 0 ≡ 4
    → opening suite.aead slot.session packet ≡ none
    → handle suite box node packet from out
      ≡ (record node { peer = some (record slot { source = from }) }, out, none)
unfolding handle_transport
handle_forged suite box node slot packet from out peer kind forged =
    (handle-kind suite box node packet from out).1 kind
    ∙ rw (handle_transport, peer)
        (elim (Bool-cases (ltb 1600 (length packet))) [
          | inl long ↦ rw long refl
          | inr short ↦
              let (kept, refuses) = decrypt_forged suite.aead slot.session packet forged in
              elim (Result-cases (decrypt suite.aead slot.session packet).1) [
                | inl (text, good) ↦ absurd (grind (arith, good, refuses))
                | inr (_, bad) ↦ rw short (
                    rw bad (
                      ap
                        (λ q. (
                          with_session suite box node (record slot { source = from }) q,
                          out,
                          none,
                        ))
                        kept))
              ]
        ])
