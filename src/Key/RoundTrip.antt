-- ===== src/Key/RoundTrip.antt =====
-- Keys of every kind: what is written parses back, as that kind only, and what parses is a key.
use lando.Prelude.{
  ℕ, zero, suc, ◌+◌, ◌*◌, ◌<◌, ◌≤◌, ◌≡◌, refl, ap, ◌∙◌, Bool, true, false, [], ◌∷◌, ◌++◌, All,
  length, inl, inr, Option-cases, Bool-cases, Result-cases, take, ltb, ◌==◌, ==_iff, if◌then◌else◌,
  ok, err, arith, over, take-over, length-append,
}
use lando.Prelude.Bytes.{Bytes, IsByte, copy_at-over, strip_prefix, strip_prefix-append}
use lando.Prelude.Bits.{bit_or-lt}
use lando.Key.{
  KeyKind, machine, node, disco, bad_prefix, key_len, prefix, nibble, parse_pairs, parse_hex, parse,
  write_pairs, write,
}
use lando.Key.Hex.{hex_of, length-hex_of, parse_pairs-hex_of, write_pairs-over}

-- The text of a key.
abbrev pub key_text : KeyKind → Bytes → Bytes
key_text kind key = prefix kind ++ hex_of key

parse_hex-hex_of :
    (key : Bytes) → length key ≡ key_len → All IsByte key → parse_hex (hex_of key) ≡ ok key
unfolding parse_hex
parse_hex-hex_of key e h =
    rw ((==_iff (length (hex_of key)) (key_len * 2)).1 (omega (arith, length-hex_of key)))
      (parse_pairs-hex_of key h)

pub parse-key_text :
    (kind : KeyKind) (key : Bytes)
    → length key ≡ key_len
    → All IsByte key
    → parse kind (key_text kind key) ≡ ok key
unfolding parse
parse-key_text kind key e h =
    rw (strip_prefix-append (prefix kind) (hex_of key), parse) (parse_hex-hex_of key e h)

pub write_lem :
    (kind : KeyKind) (key out : Bytes)
    → length key ≡ key_len
    → length (prefix kind) + key_len * 2 ≤ length out
    → write kind key out ≡ (over (key_text kind key) out, ok (length (prefix kind) + key_len * 2))
unfolding write
write_lem kind key out e room =
    let short : ltb (length out) (length (prefix kind) + key_len * 2) ≡ false = ground arith in
    let written =
      ap (write_pairs (length (prefix kind)) key) (copy_at-over [] (prefix kind) out 0 refl)
      ∙ write_pairs-over (length (prefix kind)) key (prefix kind) out refl (omega arith) in
    rw short (rw written refl)

abbrev pub same_kind : KeyKind → KeyKind → Bool
same_kind machine machine = true
same_kind node node = true
same_kind disco disco = true
same_kind _ _ = false

-- The prefixes of two kinds differ before either ends.
parse-key_text_any :
    (kind other : KeyKind) (key : Bytes)
    → length key ≡ key_len
    → All IsByte key
    → parse other (key_text kind key) ≡ (if same_kind other kind then ok key else err bad_prefix)
unfolding parse strip_prefix
parse-key_text_any machine machine key e h = parse-key_text machine key e h
parse-key_text_any node node key e h = parse-key_text node key e h
parse-key_text_any disco disco key e h = parse-key_text disco key e h
parse-key_text_any machine node key e h = refl
parse-key_text_any machine disco key e h = refl
parse-key_text_any node machine key e h = refl
parse-key_text_any node disco key e h = refl
parse-key_text_any disco machine key e h = refl
parse-key_text_any disco node key e h = refl

-- A key of 32 bytes that is written into a buffer with room for it parses back from the bytes
-- written as a key of its own kind, and is refused as a key of any other kind.
pub parse-write :
    (kind other : KeyKind) (key out : Bytes)
    → length key ≡ key_len
    → All IsByte key
    → length (prefix kind) + key_len * 2 ≤ length out
    → (n : ℕ) × ((write kind key out).1 ≡ ok n)
      × (parse other (take n (write kind key out).0)
          ≡ (if same_kind other kind then ok key else err bad_prefix))
parse-write kind other key out e h room =
    let done = write_lem kind key out e room in
    let n = length (prefix kind) + key_len * 2 in
    let size : n ≡ length (key_text kind key) =
      omega (arith, length-append (prefix kind) (hex_of key), length-hex_of key) in
    (
      n,
      ap (λ r. r.1) done,
      ap (λ r. parse other (take n r.0)) done
          ∙ ap (parse other) (take-over (key_text kind key) out n size)
          ∙ parse-key_text_any kind other key e h,
    )

nibble-lt : (c : ℕ) {v : ℕ} → nibble c ≡ ok v → v < 16
unfolding nibble
nibble-lt c h = ground arith

-- A read of pairs makes a byte of each.
parse_pairs_bytes :
    (n : ℕ) (s : Bytes) {out : Bytes}
    → length s ≡ n * 2
    → parse_pairs s ≡ ok out
    → (length out ≡ n) × All IsByte out
unfolding parse_pairs
parse_pairs_bytes zero [] e h = ground arith
parse_pairs_bytes zero (a ∷ s) e h = absurd (omega arith)
parse_pairs_bytes (suc n) [] e h = absurd (omega arith)
parse_pairs_bytes (suc n) (a ∷ []) e h = absurd (omega arith)
parse_pairs_bytes (suc n) (a ∷ b ∷ s) e h = elim (Result-cases (nibble a)) [
  | inr (x, p) ↦ ground arith
  | inl (hi, p) ↦ elim (Result-cases (nibble b)) [
    | inr (x, q) ↦ ground arith
    | inl (lo, q) ↦ elim (Result-cases (parse_pairs s)) [
      | inr (x, r) ↦ ground arith
      | inl (rest, r) ↦ ground (
        arith,
        parse_pairs_bytes n s {out = rest},
        bit_or-lt 8 (hi * 16) lo,
        nibble-lt a p,
        nibble-lt b q,
      )
    ]
  ]
]

parse_hex-bytes :
    (hex : Bytes) {key : Bytes} → parse_hex hex ≡ ok key → (length key ≡ key_len) × All IsByte key
unfolding parse_hex
parse_hex-bytes hex h = elim (Bool-cases (length hex == key_len * 2)) [
  | inl t ↦ parse_pairs_bytes key_len hex ((==_iff (length hex) (key_len * 2)).0 t) (rw t at h)
  | inr t ↦ let odd = rw t at h in cc
]

-- What parses as a key is 32 bytes.
pub parse-bytes :
    (kind : KeyKind) (s : Bytes) {key : Bytes}
    → parse kind s ≡ ok key
    → (length key ≡ key_len) × All IsByte key
unfolding parse
parse-bytes kind s h = elim (Option-cases (strip_prefix (prefix kind) s)) [
  | inl e ↦ let odd = rw (e, parse) at h in cc
  | inr (hex, e) ↦ parse_hex-bytes hex (rw (e, parse) at h)
]
