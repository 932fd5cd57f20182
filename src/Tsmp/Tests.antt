-- ===== src/Tsmp/Tests.antt =====
-- A ping and its pong.
use lando.Prelude.{ℕ, ◌≡◌, refl, none, some, [], ◌∷◌, ◌++◌, drop, replicate, arith}
use lando.Prelude.Bytes.{Bytes, codes}
use lando.Tsmp.{Ping, parse_ping, checksum, write_pong}
use lando.Tsmp.Answer.{pong_header, write_pong_lem}

abbrev question : Ping
question = record {
  data_bytes = codes "8 bytes!";
  src = 100 ∷ 64 ∷ 0 ∷ 2 ∷ [];
  dst = 100 ∷ 64 ∷ 0 ∷ 1 ∷ [];
}

abbrev packet : Bytes
packet =
    (0x45 ∷ 0 ∷ 0 ∷ 29 ∷ 0 ∷ 0 ∷ 0 ∷ 0 ∷ 64 ∷ 99 ∷ 0 ∷ 0 ∷ 100 ∷ 64 ∷ 0 ∷ 2 ∷ 100 ∷ 64 ∷ 0 ∷ 1
      ∷ b'p' ∷ [])
    ++ codes "8 bytes!"

ping_run : parse_ping packet ≡ some question
unfolding parse_ping
ping_run = refl

other_run : parse_ping (0x65 ∷ drop 1 packet) ≡ none
unfolding parse_ping
other_run = refl

write_pong_lem_example :
    (header : Bytes) × (sum : ℕ) × (write_pong question (replicate 40 7)
      ≡ (header ++ (b'o' ∷ (codes "8 bytes!" ++ (0 ∷ 0 ∷ drop 31 (replicate 40 7)))), some 31))
    × (header ≡ pong_header sum (100 ∷ 64 ∷ 0 ∷ 1 ∷ []) (100 ∷ 64 ∷ 0 ∷ 2 ∷ []))
    × (checksum header ≡ 0)
write_pong_lem_example =
    write_pong_lem 100 64 0 2 100 64 0 1 (codes "8 bytes!") (replicate 40 7) (omega arith) refl
      (omega arith)
