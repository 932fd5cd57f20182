-- ===== src/Disco/Tests.antt =====
-- A ping, and its pong over the toy box.
use lando.Prelude.{◌≡◌, refl, some, none, [], ◌∷◌, ◌++◌, take, replicate, ok, err, arith}
use lando.Prelude.Bytes.{Bytes, eq_bytes}
use lando.Crypto.Tests.{toy_box, toy_box-BoxLaws}
use lando.Disco.{
  Header, not_disco, parse_header, parse_ping, open_, place_header, place_pong, write_pong,
}
use lando.Disco.Pongs.{pong_text, write_pong-opens}

abbrev ours : Bytes
ours = replicate 32 1

abbrev theirs : Bytes
theirs = replicate 32 2

abbrev stamp : Bytes
stamp = replicate 24 3

abbrev pong : Bytes
pong =
    (write_pong toy_box ours (toy_box.public ours) (toy_box.public theirs) stamp (replicate 12 9)
      (192 ∷ 168 ∷ 1 ∷ 7 ∷ []) 41641 (replicate 120 0)).0

write_pong-opens_example :
    (header : Header) × (sealed : Bytes) × (parse_header (take 110 pong) ≡ ok (header, sealed))
    × (header ≡ record { sender = toy_box.public ours; nonce = stamp })
    × (open_ toy_box theirs header sealed 64
        ≡ ok (pong_text (replicate 12 9) (192 ∷ 168 ∷ 1 ∷ 7 ∷ []) 41641))
unfolding write_pong place_header place_pong
write_pong-opens_example =
    write_pong-opens toy_box toy_box-BoxLaws ours theirs stamp (replicate 12 9)
      (192 ∷ 168 ∷ 1 ∷ 7 ∷ []) (replicate 120 0) 41641 64 refl refl refl (omega arith) refl

other_run : parse_header (replicate 80 4) ≡ err not_disco
unfolding parse_header eq_bytes
other_run = refl

ping_run :
    parse_ping (1 ∷ 0 ∷ replicate 12 9 ++ replicate 33 5)
    ≡ ok (record { tx_id = replicate 12 9; node_key = some (replicate 32 5) })
unfolding parse_ping
ping_run = refl

old_ping_run :
    parse_ping (1 ∷ 0 ∷ replicate 12 9 ++ replicate 31 5)
    ≡ ok (record { tx_id = replicate 12 9; node_key = none })
unfolding parse_ping
old_ping_run = refl
