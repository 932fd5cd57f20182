-- ===== src/Wireguard/Handshake/Tests.antt =====
-- A handshake over the toy suite.
use lando.Prelude.{◌≡◌, refl, ok, length, get_or, take, replicate, arith}
use lando.Prelude.Bytes.{Bytes, codes, slice}
use lando.Crypto.Tests.{toy, toy-SuiteLaws}
use lando.Wireguard.Message.{mac1}
use lando.Wireguard.Timestamp.{from_counter}
use lando.Wireguard.Transport.{new_session, encrypt, decrypt, pad}
use lando.Wireguard.Handshake.Agreement.{
  Agrees, handshake_agrees, handshake_delivers, consume_initiation_accepts,
}

abbrev alice : Bytes
alice = replicate 32 1

abbrev bob : Bytes
bob = replicate 32 2

handshake_agrees_example :
    Agrees toy alice bob (replicate 32 3) (replicate 32 4) 10 20 (from_counter 5)
unfolding from_counter
handshake_agrees_example =
    handshake_agrees toy toy-SuiteLaws alice bob (replicate 32 3) (replicate 32 4) 10 20
      (from_counter 5) refl (omega arith) (omega arith)

abbrev done : Agrees toy alice bob (replicate 32 3) (replicate 32 4) 10 20 (replicate 12 9)
done =
    handshake_agrees toy toy-SuiteLaws alice bob (replicate 32 3) (replicate 32 4) 10 20
      (replicate 12 9) refl (omega arith) (omega arith)

abbrev sent : Bytes
sent = (encrypt toy.aead (new_session done.my_keys) (codes "hi") (replicate 48 0)).1

handshake_delivers_example :
    (decrypt toy.aead (new_session done.their_keys) (take 48 sent)).1 ≡ ok (pad (codes "hi"))
unfolding encrypt new_session
handshake_delivers_example =
    handshake_delivers toy toy-SuiteLaws alice bob (replicate 32 3) (replicate 32 4) 10 20
      (replicate 12 9) (codes "hi") (replicate 48 0) done (omega arith) refl

consume_initiation_accepts_example :
    (length done.initiation ≡ 148)
    × (get_or done.initiation 0 0 ≡ 1)
    × (slice done.initiation 116 (length (mac1 toy (toy.public bob) (take 116 done.initiation)))
        ≡ mac1 toy (toy.public bob) (take 116 done.initiation))
consume_initiation_accepts_example = consume_initiation_accepts toy bob done.initiation done.learns
