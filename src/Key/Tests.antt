-- ===== src/Key/Tests.antt =====
-- Keys at concrete inputs.
use lando.Prelude.{
  ℕ, ◌≡◌, refl, [], ◌∷◌, All, length, take, replicate, ok, err, arith, if◌then◌else◌,
}
use lando.Prelude.Bytes.{Bytes, IsByte, codes, strip_prefix}
use lando.Key.{bad_prefix, machine, node, key_len, nibble, parse_pairs, parse_hex, parse, write}
use lando.Key.RoundTrip.{parse-write, parse-bytes, same_kind}

-- The key of the control server.
abbrev control_text : Bytes
control_text = codes "mkey:7d2792f9c98d753d2042471536801949104c247f95eac770f8fb321595e2173b"

abbrev control_key : Bytes
control_key =
    0x7d ∷ 0x27 ∷ 0x92 ∷ 0xf9 ∷ 0xc9 ∷ 0x8d ∷ 0x75 ∷ 0x3d ∷ 0x20 ∷ 0x42 ∷ 0x47 ∷ 0x15 ∷ 0x36 ∷ 0x80
    ∷ 0x19 ∷ 0x49 ∷ 0x10 ∷ 0x4c ∷ 0x24 ∷ 0x7f ∷ 0x95 ∷ 0xea ∷ 0xc7 ∷ 0x70 ∷ 0xf8 ∷ 0xfb ∷ 0x32
    ∷ 0x15 ∷ 0x95 ∷ 0xe2 ∷ 0x17 ∷ 0x3b ∷ []

control_run : parse machine control_text ≡ ok control_key
unfolding parse strip_prefix parse_hex parse_pairs nibble
control_run = refl

wrong_kind_run : parse node control_text ≡ err bad_prefix
unfolding parse strip_prefix
wrong_kind_run = refl

parse-write_example :
    (n : ℕ) × ((write machine control_key (replicate 80 0)).1 ≡ ok n)
    × (parse node (take n (write machine control_key (replicate 80 0)).0)
        ≡ (if same_kind node machine then ok control_key else err bad_prefix))
parse-write_example =
    parse-write machine node control_key (replicate 80 0) refl (omega arith) (omega arith)

parse-bytes_run : (length control_key ≡ key_len) × All IsByte control_key
parse-bytes_run = parse-bytes machine control_text control_run
