-- ===== src/Wireguard/Transport/Tests.antt =====
-- The theorems of a session at concrete inputs, with a cipher that changes nothing.
use lando.Prelude.{
  ◌≡◌, refl, true, false, none, some, some, List, [], ◌∷◌, ◌++◌, replicate, take, ok, err, is_ok,
  arith, if◌then◌else◌,
}
use lando.Prelude.Bytes.{Bytes, eq_bytes}
use lando.Crypto.{Aead, Laws}
use lando.Wireguard.Message.{replayed_transport}
use lando.Wireguard.Replay.{set_bit, accept}
use lando.Wireguard.Replay.Refine.{Holds, new_window-Holds}
use lando.Wireguard.Transport.{SessionKeys, Session, new_session, nonce, pad, encrypt, decrypt}
use lando.Wireguard.Transport.Packet.{decrypt-encrypt}
use lando.Wireguard.Transport.Replays.{decrypt_forged, decrypt_replayed, receive_all, opening}
use lando.Wireguard.Transport.Nonces.{Distinct, Sealed, nonces_used, nonces_used-Distinct}

-- The text is its own cipher text, and the tag of every text is sixteen sevens.
abbrev sevens : Bytes
sevens = replicate 16 7

abbrev plain : Aead
plain = record {
  encrypt = λ key nonce aad text. some (text, sevens);
  decrypt = λ key nonce aad cipher tag. if eq_bytes tag sevens then some cipher else none;
}

plain-Laws : Laws plain
unfolding eq_bytes
plain-Laws = record {
  length-encrypt = λ key nonce aad text cipher tag e. ground arith;
  length-tag = λ key nonce aad text cipher tag e. ground arith;
  decrypt-encrypt = λ key nonce aad text cipher tag e. ground arith;
}

abbrev alice_keys : SessionKeys
alice_keys = record { send = 1 ∷ []; receive = 2 ∷ []; local_index = 10; peer_index = 20 }

abbrev bob_keys : SessionKeys
bob_keys = record { send = 2 ∷ []; receive = 1 ∷ []; local_index = 20; peer_index = 10 }

abbrev hello : Bytes
hello = b'h' ∷ b'i' ∷ []

abbrev buffer : Bytes
buffer = replicate 50 0xaa

-- The packet that carries `hello`, in a buffer with room for two more bytes.
abbrev wire : Bytes
wire =
    4 ∷ 0 ∷ 0 ∷ 0 ∷ 20 ∷ 0 ∷ 0 ∷ 0 ∷ 0 ∷ 0 ∷ 0 ∷ 0 ∷ 0 ∷ 0 ∷ 0 ∷ 0 ∷ b'h' ∷ b'i' ∷ replicate 14 0
    ++ sevens

encrypt_run :
    encrypt plain (new_session alice_keys) hello buffer
    ≡ (record (new_session alice_keys) { send_counter = 1 }, wire ++ (0xaa ∷ 0xaa ∷ []), ok 48)
unfolding encrypt new_session
encrypt_run = refl

decrypt-encrypt_example :
    ((decrypt plain (new_session bob_keys) (take 48 (wire ++ (0xaa ∷ 0xaa ∷ [])))).1
      ≡ ok (pad hello))
    × Holds
        (decrypt plain (new_session bob_keys) (take 48 (wire ++ (0xaa ∷ 0xaa ∷ [])))).0.replay
        (0 ∷ [])
unfolding new_session
decrypt-encrypt_example =
    decrypt-encrypt plain plain-Laws (new_session alice_keys) (new_session bob_keys) [] hello buffer
      encrypt_run refl refl (omega arith) new_window-Holds refl

-- The last byte of the tag is wrong.
abbrev forged : Bytes
forged = take 47 wire ++ (8 ∷ [])

forged_fails : opening plain (new_session bob_keys) forged ≡ none
unfolding eq_bytes new_session
forged_fails = refl

decrypt_forged_example :
    ((decrypt plain (new_session bob_keys) forged).0 ≡ new_session bob_keys)
    × (is_ok (decrypt plain (new_session bob_keys) forged).1 ≡ false)
decrypt_forged_example = decrypt_forged plain (new_session bob_keys) forged forged_fails

abbrev bob_after : Session
bob_after = record (new_session bob_keys) {
  replay = record { highest = 0; bits = 1 ∷ replicate 31 0; started = true };
}

first_accepted :
    decrypt plain (receive_all plain (new_session bob_keys) (forged ∷ [])) wire
    ≡ (bob_after, ok (pad hello))
unfolding decrypt receive_all new_session eq_bytes accept set_bit
first_accepted = refl

decrypt_replayed_example :
    (decrypt plain (receive_all plain bob_after (forged ∷ forged ∷ [])) wire).1
    ≡ err replayed_transport
decrypt_replayed_example =
    decrypt_replayed plain bob_keys (forged ∷ []) (forged ∷ forged ∷ []) wire (pad hello)
      first_accepted

abbrev jobs : List (Bytes × Bytes)
jobs = (hello, buffer) ∷ (hello, []) ∷ ([], buffer) ∷ []

nonces_used_run : nonces_used plain (new_session alice_keys) jobs ≡ nonce 0 ∷ nonce 1 ∷ []
unfolding nonces_used encrypt new_session
nonces_used_run = refl

nonces_used-Distinct_example :
    (ns : List Bytes) × Sealed plain (new_session alice_keys) jobs ns × Distinct ns
nonces_used-Distinct_example = nonces_used-Distinct plain plain-Laws (new_session alice_keys) jobs
