-- ===== src/Noise/Record/Tests.antt =====
-- Records over the toy cipher.
use lando.Prelude.{ℕ, ◌≡◌, ◌+◌, refl, some, List, [], ◌∷◌, take, replicate, err}
use lando.Prelude.Bytes.{Bytes, codes}
use lando.Crypto.Tests.{plain, plain-Laws}
use lando.Noise.{Session, bad_length}
use lando.Noise.Record.{place_record, write_record, read_record}
use lando.Noise.Record.Stream.{InStep, Writes, nothing, one, read_all, read_all-Writes}

abbrev client : Session
client = record { tx = 1 ∷ []; rx = 2 ∷ []; tx_nonce = 7; rx_nonce = 0; handshake_hash = [] }

abbrev server : Session
server = record { tx = 2 ∷ []; rx = 1 ∷ []; tx_nonce = 0; rx_nonce = 7; handshake_hash = [] }

abbrev advanced : ℕ → Session
advanced n = record client { tx_nonce = 7 + n }

abbrev wrote : Session → Bytes → Bytes
wrote s p = (write_record plain s p (replicate 30 9)).1

abbrev wires : List Bytes
wires = take 21 (wrote client (codes "hi")) ∷ take 19 (wrote (advanced 1) []) ∷ []

two_records : Writes plain client (codes "hi" ∷ [] ∷ []) wires (advanced 2)
unfolding write_record place_record
two_records =
    one client (codes "hi") (replicate 30 9) (advanced 1) (wrote client (codes "hi")) 21 ([] ∷ [])
      (take 19 (wrote (advanced 1) []) ∷ []) (advanced 2) refl
      (one (advanced 1) [] (replicate 30 9) (advanced 2) (wrote (advanced 1) []) 19 [] []
        (advanced 2) refl (nothing (advanced 2)))

read_all-Writes_example :
    (r' : Session) × (read_all plain server wires ≡ some (r', codes "hi" ∷ [] ∷ []))
    × InStep (advanced 2) r'
read_all-Writes_example =
    read_all-Writes plain plain-Laws client server (advanced 2) (codes "hi" ∷ [] ∷ []) wires
      two_records (refl, refl)

short_run : read_record plain server (codes "short") ≡ (server, err bad_length)
unfolding read_record
short_run = refl
