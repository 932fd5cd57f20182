-- ===== src/Firmware/Node.antt =====
-- The WireGuard responder of crates/lando-fw/src/wg.rs: `Node`, which takes a packet of either transport
-- and says what to send or deliver. A method returns the node after the call, the caller's buffer, and
-- the result; `?` on a failure is a result of `none` with the state as it was by then.
pub mod Counting
pub mod Nonces
pub mod Pongs
pub mod Serves
pub mod Returns
mod Tests
use lando.Prelude.{
  ℕ, ◌+◌, ◌-◌, ◌%◌, ◌^◌, max, bit_or, Option, none, some, [], ◌∷◌, ◌++◌, length, take, replicate,
  ltb, ◌==◌, if◌then◌else◌, Result, ok, err,
}
use lando.Prelude.Bytes.{Bytes, copy_at, to_le}
use lando.Crypto.{Suite, Box}
use lando.Disco.{Header, Ping}
use lando.Disco
use lando.Tsmp
use lando.Wireguard.Message.{msg_initiation, msg_transport}
use lando.Wireguard.Message
use lando.Wireguard.Transport.{Session, new_session}
use lando.Wireguard.Transport
use lando.Wireguard.Handshake.{consume_initiation, respond}

pub data Action : Type 0 where
  reply : ℕ → Action
  deliver : ℕ → Action

-- An endpoint is the four bytes of its address, and its port.
pub data Source : Type 0 where
  udp : Bytes → ℕ → Source
  derp : Bytes → Source

pub record PeerSlot : Type 0 where
  pub key : Bytes
  pub session : Session
  pub source : Source

pub record Node : Type 0 where
  pub node_key : Bytes
  pub disco_key : Bytes
  pub disco_public : Bytes
  pub nonce : Bytes
  pub peer : Option PeerSlot
  pub next_index : ℕ

-- `DERP_REGION` of main.rs
abbrev pub derp_region : ℕ
derp_region = 28

-- What a pong says of where its ping came from.
unfoldable pub seen_at : Source → Bytes × ℕ
seen_at (udp address port) = (address, port)
seen_at (derp _) = (127 ∷ 3 ∷ 3 ∷ 40 ∷ [], derp_region)

-- The nonce as a little-endian counter.
unfoldable pub bump : Bytes → Bytes
bump [] = []
bump (b ∷ nonce) =
    let rest = bump nonce in
    let next = (b + 1) % 256 in if next == 0 then next ∷ rest else next ∷ nonce

-- `wrapping_add(2).max(1)`
abbrev pub index_after : ℕ → ℕ
index_after index = max ((index + 2) % 2 ^ 32) 1

-- The ephemeral key of a handshake.
abbrev pub ephemeral_of : ℕ → Bytes → Bytes
ephemeral_of index packet = to_le 4 index ++ to_le 4 (length packet) ++ replicate 24 0

module _ (suite : Suite) (box : Box) where
  -- `Node::new`
  unfoldable pub new_node : Bytes → Bytes → ℕ → Node
  new_node node_key disco_key index_seed = record {
    node_key = node_key;
    disco_key = disco_key;
    disco_public = suite.public disco_key;
    nonce = to_le 4 index_seed ++ replicate (Disco.nonce_len - 4) 0;
    peer = none;
    next_index = bit_or index_seed 1;
  }

  -- The end of a pong.
  unfoldable pub replied : Node → Bytes × Result Disco.DiscoError ℕ → Node × Bytes × Option Action
  replied node (out, ok len) = (node, out, some (reply len))
  replied node (out, err _) = (node, out, none)

  -- A ping that has been opened and parsed.
  unfoldable pub answer_ping : Node → Header → Source → Bytes → Ping → Node × Bytes × Option Action
  answer_ping node header from out ping =
      let (src, port) = seen_at from in
      let node' = record node { nonce = bump node.nonce } in
      replied node' (
        Disco.write_pong box node.disco_key node.disco_public header.sender node'.nonce ping.tx_id
          src port out)

  -- A packet with the magic of disco.
  unfoldable pub handle_disco :
      Node → Header → Bytes → Source → Bytes → Node × Bytes × Option Action
  handle_disco node header sealed from out =
      elim (Disco.open_ box node.disco_key header sealed 256) [
        | err _ ↦ (node, out, none)
        | ok plain ↦ elim (Disco.parse_ping plain) [
          | err _ ↦ (node, out, none)
          | ok ping ↦ answer_ping node header from out ping
        ]
      ]

  unfoldable pub handle_initiation : Node → Bytes → Source → Bytes → Node × Bytes × Option Action
  handle_initiation node packet from out = elim (consume_initiation suite node.node_key packet) [
    | err _ ↦ (node, out, none)
    | ok (responder, learned) ↦
        let index = node.next_index in
        let node' = record node { next_index = index_after index } in
        elim (respond suite responder (ephemeral_of index packet) index) [
          | err _ ↦ (node', out, none)
          | ok (response, keys) ↦
              if ltb (length out) (length response) then (node', out, none) else (
                record node' {
                  peer = some (record {
                    key = learned.peer_static;
                    session = new_session keys;
                    source = from;
                  });
                },
                copy_at out 0 response,
                some (reply (length response)),
              )
        ]
  ]

  -- The node with a peer whose session is another.
  abbrev pub with_session : Node → PeerSlot → Session → Node
  with_session node slot session = record node { peer = some (record slot { session = session }) }

  -- What the peer's session makes of a TSMP ping.
  unfoldable pub answer_tsmp :
      Node → PeerSlot → Session → Bytes → Tsmp.Ping → Node × Bytes × Option Action
  answer_tsmp node slot session out ping =
      let (pong, written) = Tsmp.write_pong ping (replicate 64 0) in
      elim written [
        | none ↦ (with_session node slot session, out, none)
        | some len ↦
            let (session', out', result) =
              Transport.encrypt suite.aead session (take len pong) out in
            elim result [
              | err _ ↦ (with_session node slot session', out', none)
              | ok sent ↦ (with_session node slot session', out', some (reply sent))
            ]
      ]

  -- A packet that the session has decrypted.
  unfoldable pub handle_plain :
      Node → PeerSlot → Session → Bytes → Bytes → Node × Bytes × Option Action
  handle_plain node slot session plain out = elim (Tsmp.parse_ping plain) [
    | some ping ↦ answer_tsmp node slot session out ping
    | none ↦
        if ltb (length out) (length plain)
        then (with_session node slot session, out, none)
        else (with_session node slot session, copy_at out 0 plain, some (deliver (length plain)))
  ]

  unfoldable pub handle_transport : Node → Bytes → Source → Bytes → Node × Bytes × Option Action
  handle_transport node packet from out = elim node.peer [
    | none ↦ (node, out, none)
    | some slot' ↦
        let slot = record slot' { source = from } in
        if ltb 1600 (length packet)
        then (with_session node slot slot.session, out, none)
        else let (session, result) = Transport.decrypt suite.aead slot.session packet in
          elim result [
            | err _ ↦ (with_session node slot session, out, none)
            | ok plain ↦ handle_plain node slot session plain out
          ]
  ]

  unfoldable pub handle_wireguard : Node → Bytes → Source → Bytes → Node × Bytes × Option Action
  handle_wireguard node [] from out = (node, out, none)
  handle_wireguard node (kind ∷ rest) from out =
      let packet = kind ∷ rest in
      if kind == msg_initiation
      then handle_initiation node packet from out
      else if kind == msg_transport
      then handle_transport node packet from out
      else (node, out, none)

  unfoldable pub handle : Node → Bytes → Source → Bytes → Node × Bytes × Option Action
  handle node packet from out = elim (Disco.parse_header packet) [
    | ok (header, sealed) ↦ handle_disco node header sealed from out
    | err _ ↦ handle_wireguard node packet from out
  ]

  -- The end of `Node::encrypt`.
  unfoldable pub addressed_to :
      Node
      → PeerSlot
      → Session × Bytes × Result Message.WgError ℕ
      → Node × Bytes × Option (ℕ × Source)
  addressed_to node slot (session, out, ok n) =
      (with_session node slot session, out, some (n, slot.source))
  addressed_to node slot (session, out, err _) = (with_session node slot session, out, none)

  unfoldable pub encrypt : Node → Bytes → Bytes → Node × Bytes × Option (ℕ × Source)
  encrypt node packet out = elim node.peer [
    | none ↦ (node, out, none)
    | some slot ↦ addressed_to node slot (Transport.encrypt suite.aead slot.session packet out)
  ]
