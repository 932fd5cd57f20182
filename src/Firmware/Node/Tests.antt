-- ===== src/Firmware/Node/Tests.antt =====
-- A node over the toy suite and box.
use lando.Prelude.{
  Option, ok, ap, ◌≡◌, refl, some, none, [], ◌∷◌, ◌++◌, take, replicate, arith, List, ℕ, zero, suc,
  All,
}
use lando.Prelude.Bytes.{Bytes, IsByte, eq_bytes, codes, copy_at}
use lando.Crypto.Tests.{toy, toy-SuiteLaws, toy_box}
use lando.Tsmp
use lando.Disco
use lando.Firmware.Node.Returns.{encrypt-returns}
use lando.Firmware.Node
use lando.Wireguard.Transport
use lando.Wireguard.Transport.{decrypt, new_session, encrypt, pad}
use lando.Wireguard.Transport.Nonces.{Distinct}
use lando.Wireguard.Handshake.Agreement.{Agrees, handshake_agrees}
use lando.Firmware.Node.{
  Action, addressed_to, Node, PeerSlot, Source, udp, derp, handle, new_node, reply, deliver, bump,
  handle_disco, answer_ping, replied,
}
use lando.Firmware.Node.Nonces.{pinged, pong_nonces}
use lando.Firmware.Node.Pongs.{Answers, pong_nonces-Distinct}
use lando.Firmware.Node.Serves.{
  serving, handle-initiation, known_ephemeral, handle_delivers, handle_forged,
}

abbrev home : Source
home = udp (192 ∷ 168 ∷ 1 ∷ 9 ∷ []) 41641

abbrev relay : Source
relay = derp (replicate 32 9)

abbrev bob : Node
bob = record {
  node_key = replicate 32 2;
  disco_key = replicate 32 5;
  disco_public = replicate 32 5;
  nonce = 255 ∷ replicate 23 0;
  peer = none;
  next_index = 21;
}

bump_carries : bump (255 ∷ 255 ∷ 7 ∷ 9 ∷ []) ≡ 0 ∷ 0 ∷ 8 ∷ 9 ∷ []
unfolding bump
bump_carries = refl

new_node_index : (new_node toy toy_box (replicate 32 2) (replicate 32 5) 20).next_index ≡ 21
unfolding new_node
new_node_index = refl

-- A ping to the node, with its plaintext in clear and the toy box's tag.
abbrev ping : Bytes
ping = Disco.magic ++ replicate 32 6 ++ replicate 24 8 ++ replicate 16 7 ++ 1 ∷ 0 ∷ replicate 12 3

zeros-IsByte : (n : ℕ) → All IsByte (replicate n 0)
zeros-IsByte zero = tt
zeros-IsByte (suc n) = (omega arith, zeros-IsByte n)

abbrev pings : List (Bytes × Source × Bytes)
pings = (ping, home, replicate 200 0) ∷ (ping, relay, []) ∷ (ping, relay, replicate 110 0) ∷ []

pongs : pong_nonces toy toy_box bob pings ≡ (0 ∷ 1 ∷ replicate 22 0) ∷ (2 ∷ 1 ∷ replicate 22 0) ∷ []
unfolding pong_nonces pinged Disco.parse_header eq_bytes Disco.open_ Disco.parse_ping handle
    handle_disco answer_ping replied Disco.write_pong bump
pongs = refl

pong_nonces-Distinct_example : (ns : List Bytes) × Answers toy toy_box bob pings ns × Distinct ns
pong_nonces-Distinct_example =
    pong_nonces-Distinct toy toy_box bob pings (omega arith, zeros-IsByte 23) refl (omega arith)

abbrev done :
    Agrees toy
      (replicate 32 1)
      bob.node_key
      (replicate 32 3)
      (known_ephemeral 21)
      10
      21
      (replicate 12 9)
done =
    handshake_agrees toy toy-SuiteLaws (replicate 32 1) bob.node_key (replicate 32 3)
      (known_ephemeral 21) 10 21 (replicate 12 9) refl (omega arith) (omega arith)

abbrev sent : Bytes
sent = (encrypt toy.aead (new_session done.my_keys) (codes "hi") (replicate 48 0)).1

handle_delivers_example :
    (served : Node) × (after : Node) × (slot : PeerSlot) × (handle toy toy_box bob done.initiation
        home
        (replicate 92 0)
      ≡ (served, copy_at (replicate 92 0) 0 done.response, some (reply 92)))
    × (handle toy toy_box served (take 48 sent) relay (replicate 20 0)
        ≡ (after, copy_at (replicate 20 0) 0 (pad (codes "hi")), some (deliver 16)))
    × (after.peer ≡ some slot)
    × (slot.source ≡ relay)
unfolding encrypt new_session Tsmp.parse_ping
handle_delivers_example =
    handle_delivers toy toy_box toy-SuiteLaws bob (replicate 32 1) (replicate 32 3) 10
      (replicate 12 9) done home relay (replicate 92 0) (replicate 20 0) (codes "hi")
      (replicate 48 0) (omega arith) (omega arith) refl (omega arith) refl (omega arith)

-- A node that has a session, and a packet with a false tag.
abbrev slot : PeerSlot
slot = record { key = replicate 32 6; session = new_session done.their_keys; source = home }

abbrev forged : Bytes
forged = 4 ∷ replicate 39 0

handle_forged_example :
    handle toy toy_box (record bob { peer = some slot }) forged relay (replicate 92 0)
    ≡ (record bob { peer = some (record slot { source = relay }) }, replicate 92 0, none)
unfolding eq_bytes new_session
handle_forged_example =
    handle_forged toy toy_box (record bob { peer = some slot }) slot forged relay (replicate 92 0)
      refl refl refl

-- The node with the session of the handshake, and what it sends first.
abbrev serving_bob : Node
serving_bob = serving toy toy_box bob (toy.public (replicate 32 1)) done.their_keys home

abbrev answer : Bytes
answer = (Transport.encrypt toy.aead (new_session done.their_keys) (codes "yes") (replicate 48 0)).1

first_answer :
    (node' : Node) × (Node.encrypt toy toy_box
        (handle toy toy_box bob done.initiation home (replicate 92 0)).0
        (codes "yes")
        (replicate 48 0)
      ≡ (node', answer, some (48, home)))
unfolding Node.encrypt Transport.encrypt addressed_to new_session
first_answer =
    let is =
      handle-initiation toy toy_box bob (replicate 32 1) (replicate 32 3) 10 (replicate 12 9) done
        home (replicate 92 0) (omega arith) in
    (
      _,
      ap
          (λ (r : Node × Bytes × Option Action).
            Node.encrypt toy toy_box r.0 (codes "yes") (replicate 48 0))
          is,
    )

encrypt-returns_example :
    ((decrypt toy.aead (new_session done.my_keys) (take 48 answer)).1 ≡ ok (pad (codes "yes")))
    × (home ≡ home)
encrypt-returns_example =
    encrypt-returns toy toy_box toy-SuiteLaws bob (replicate 32 1) (replicate 32 3) 10
      (replicate 12 9) done home (replicate 92 0) (codes "yes") (replicate 48 0) (omega arith)
      (omega arith) first_answer.1
