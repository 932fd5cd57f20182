-- ===== src/Derp/Handshake/Tests.antt =====
-- The sealed payloads over the toy box.
use lando.Prelude.{◌+◌, ◌≡◌, refl, length, take, drop, replicate, ok}
use lando.Prelude.Bytes.{Bytes, codes}
use lando.Prelude.Decimal.{decimal}
use lando.Crypto.Tests.{toy_box, toy_box-BoxLaws}
use lando.Json.Writer.{begin_object, field_u64, end_object}
use lando.Derp.Handshake.{write_info, seal, open_, client_info_payload}
use lando.Derp.Handshake.Opens.{open-seal, client_info_payload_lem}

abbrev ours : Bytes
ours = replicate 32 1

abbrev theirs : Bytes
theirs = replicate 32 2

abbrev stamp : Bytes
stamp = replicate 24 3

abbrev sealed : Bytes
sealed = (seal toy_box ours (toy_box.public theirs) stamp (codes "hello") (replicate 50 0)).0

open-seal_run :
    (open_ toy_box theirs (toy_box.public ours) (take 45 sealed) ≡ ok (codes "hello"))
    × (45 ≡ 40 + length (codes "hello"))
unfolding seal
open-seal_run =
    open-seal toy_box toy_box-BoxLaws ours theirs stamp (codes "hello") (replicate 50 0) refl refl

abbrev info : Bytes
info =
    (client_info_payload toy_box ours (toy_box.public ours) (toy_box.public theirs) stamp
      (replicate 90 0)).0

client_info_payload_lem_example :
    (take 32 info ≡ toy_box.public ours)
    × (open_ toy_box theirs (toy_box.public ours) (drop 32 (take 85 info))
        ≡ ok (codes "{\"Version\":2}"))
unfolding client_info_payload write_info seal begin_object field_u64 end_object decimal
client_info_payload_lem_example =
    client_info_payload_lem toy_box toy_box-BoxLaws ours theirs stamp (replicate 90 0) refl refl
