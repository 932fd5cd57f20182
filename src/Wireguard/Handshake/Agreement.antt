-- ===== src/Wireguard/Handshake/Agreement.antt =====
-- The two roles against each other: the whole handshake, and the sessions it sets up.
use lando.Prelude.{
  ℕ, ◌^◌, ◌<◌, ◌≡◌, refl, refused, ==_iff, length, ok, get_or, ◌==◌, take, arith, inl, inr, [], sym,
  Bool-cases,
}
use lando.Prelude.Bytes.{Bytes, slice, eq_bytes, eq_bytes→≡}
use lando.Crypto.{Suite, SuiteLaws}
use lando.Wireguard.Message.{malformed, bad_mac, mac1}
use lando.Wireguard.Timestamp.{Tai64n}
use lando.Wireguard.Transport.{SessionKeys, Session, new_session, encrypt, decrypt, pad}
use lando.Wireguard.Replay.Refine.{new_window-Holds}
use lando.Wireguard.Transport.Packet.{decrypt-encrypt}
use lando.Wireguard.Handshake.{
  Initiator, Responder, Initiation, new_initiator, consume_initiation, respond, consume_response,
}
use lando.Wireguard.Handshake.Initiations
use lando.Wireguard.Handshake.Initiations.{new_initiator-initiation, consume_initiation-initiation}
use lando.Wireguard.Handshake.Responses
use lando.Wireguard.Handshake.Responses.{respond-response, consume_response-response}

-- The keys of the two ends of a session.
abbrev pub Mirrored : SessionKeys → SessionKeys → Type 0
Mirrored a b =
    (a.send ≡ b.receive)
    × (a.receive ≡ b.send)
    × (a.local_index ≡ b.peer_index)
    × (a.peer_index ≡ b.local_index)

-- What a handshake comes to.
pub record Agrees (suite : Suite) (mine theirs my_ephemeral ephemeral : Bytes) (my_index index : ℕ)
    (timestamp : Tai64n) : Type 0 where
  pub initiator : Initiator
  pub responder : Responder
  pub initiation : Bytes
  pub response : Bytes
  pub my_keys : SessionKeys
  pub their_keys : SessionKeys
  pub initiates :
      new_initiator suite mine (suite.public theirs) my_ephemeral my_index timestamp
      ≡ ok (initiator, initiation)
  pub learns :
      consume_initiation suite theirs initiation
      ≡ ok (
        responder,
        record { peer_static = suite.public mine; timestamp = timestamp; peer_index = my_index },
      )
  pub responds : respond suite responder ephemeral index ≡ ok (response, their_keys)
  pub consumes : consume_response suite initiator response ≡ ok my_keys
  pub mirrored : Mirrored my_keys their_keys
  pub indices : (my_keys.local_index ≡ my_index) × (my_keys.peer_index ≡ index)

-- A handshake between any two key pairs, with any ephemeral keys, indices of 32 bits and a timestamp of
-- twelve bytes, goes through: the responder learns the initiator's public key, timestamp and index from
-- the initiation, each role succeeds, and the two end with the same pair of keys, one's sending key
-- being the other's receiving key, and with each other's index.
pub handshake_agrees :
    (suite : Suite) (laws : SuiteLaws suite) (mine theirs my_ephemeral ephemeral : Bytes)
    (my_index index : ℕ) (timestamp : Tai64n)
    → length timestamp ≡ 12
    → my_index < 2 ^ 32
    → index < 2 ^ 32
    → Agrees suite mine theirs my_ephemeral ephemeral my_index index timestamp
handshake_agrees suite laws mine theirs my_ephemeral ephemeral my_index index timestamp h k l =
    let first =
      Initiations.sealed_timestamp suite laws mine theirs my_ephemeral my_index timestamp h in
    record {
      initiator = Initiations.initiator suite laws mine theirs my_ephemeral my_index timestamp h;
      responder = Initiations.responder suite laws mine theirs my_ephemeral my_index timestamp h;
      initiation = Initiations.initiation suite laws mine theirs my_ephemeral my_index timestamp h;
      response =
          Responses.response suite laws first.after mine theirs my_ephemeral ephemeral my_index
            index;
      my_keys =
          Responses.my_keys suite laws first.after mine theirs my_ephemeral ephemeral my_index
            index;
      their_keys =
          Responses.their_keys suite laws first.after mine theirs my_ephemeral ephemeral my_index
            index;
      initiates = new_initiator-initiation suite laws mine theirs my_ephemeral my_index timestamp h;
      learns =
          consume_initiation-initiation suite laws mine theirs my_ephemeral my_index timestamp h k;
      responds =
          respond-response suite laws first.after mine theirs my_ephemeral ephemeral my_index index;
      consumes =
          consume_response-response suite laws first.after mine theirs my_ephemeral ephemeral
            my_index index l;
      mirrored = (refl, refl, refl, refl);
      indices = (refl, refl);
    }

-- The first packet that the initiator encrypts in the session of a handshake is decrypted by the
-- responder's session to the payload with its padding.
pub handshake_delivers :
    (suite : Suite) (laws : SuiteLaws suite) (mine theirs my_ephemeral ephemeral : Bytes)
    (my_index index : ℕ) (timestamp : Tai64n) (payload out : Bytes)
    (a : Agrees suite mine theirs my_ephemeral ephemeral my_index index timestamp) {s' : Session}
    {out' : Bytes} {n : ℕ}
    → index < 2 ^ 32
    → encrypt suite.aead (new_session a.my_keys) payload out ≡ (s', out', ok n)
    → (decrypt suite.aead (new_session a.their_keys) (take n out')).1 ≡ ok (pad payload)
unfolding new_session
handshake_delivers suite laws mine theirs my_ephemeral ephemeral my_index index timestamp payload
      out a l e =
    let (same, _, _, addressed) = a.mirrored in
    (decrypt-encrypt suite.aead laws.aead_laws (new_session a.my_keys) (new_session a.their_keys) []
      payload out e (sym same) (sym addressed) (omega (arith, a.indices.1)) new_window-Holds refl).0

-- The responder accepts an initiation only if it has the length and type of one, and the MAC of its
-- first 116 bytes under the responder's own public key.
pub consume_initiation_accepts :
    (suite : Suite) (static_private msg : Bytes) {r : Responder × Initiation}
    → consume_initiation suite static_private msg ≡ ok r
    → (length msg ≡ 148)
      × (get_or msg 0 0 ≡ 1)
      × (let expected = mac1 suite (suite.public static_private) (take 116 msg) in
          slice msg 116 (length expected) ≡ expected)
unfolding consume_initiation
consume_initiation_accepts suite static_private msg e =
    let expected = mac1 suite (suite.public static_private) (take 116 msg) in
    elim (Bool-cases (length msg == 148)) [
      | inr a ↦ absurd (refused {e = malformed} (rw a refl) e)
      | inl a ↦ elim (Bool-cases (get_or msg 0 0 == 1)) [
        | inr b ↦ absurd (refused {e = malformed} (rw (a, b) refl) e)
        | inl b ↦ elim (Bool-cases (eq_bytes (slice msg 116 (length expected)) expected)) [
          | inr c ↦ absurd (refused {e = bad_mac} (rw (a, b, c) refl) e)
          | inl c ↦ (
            (==_iff (length msg) 148).0 a,
            (==_iff (get_or msg 0 0) 1).0 b,
            eq_bytes→≡ (slice msg 116 (length expected)) expected c,
          )
        ]
      ]
    ]
