-- ===== src/H2/Writer/Integers.antt =====
-- HPACK integers and literals, against a decoder written from RFC 7541, section 5.1.
use lando.Prelude.{
  ℕ, zero, suc, ◌+◌, ◌-◌, ◌*◌, ◌/◌, ◌%◌, ◌^◌, ◌<◌, ◌≤◌, ◌≡◌, refl, ap, ap₂, ◌∙◌, true, false,
  bit_or, [], ◌∷◌, ◌++◌, take-append_self, drop-append_self, append_assoc, length, take, drop, ltb,
  leb, ◌==◌, if◌then◌else◌, arith, inl, inr, Bool-cases,
}
use lando.Prelude.Bytes.{Bytes}
use lando.H2.Writer.{◌>>◌, put_u8, put, encode_rest, encode_integer, literal, new_writer}
use lando.H2.Writer.Emits.{wrote, Emits, put-Emits, >>-Emits}
use lando.Prelude.Bits.{bit_or-nothing, bit_or-above}
use native.Mathlib.Nat.{pow-suc}

-- Groups of seven bits, the low ones first, and what follows them.
abbrev pub decode_rest : Bytes → ℕ × Bytes
decode_rest [] = (0, [])
decode_rest (b ∷ s) =
    let more = decode_rest s in if ltb b 128 then (b, s) else ((b - 128) + 128 * more.0, more.1)

abbrev pub decode_integer : ℕ → Bytes → ℕ × Bytes
decode_integer max [] = (0, [])
decode_integer max (b ∷ s) =
    if b % suc max == max then (max + (decode_rest s).0, (decode_rest s).1) else (b % suc max, s)

rest_bytes : ℕ → ℕ → Bytes
rest_bytes zero rest = rest ∷ []
rest_bytes (suc fuel) rest =
    let more = rest_bytes fuel (rest / 128) in
    if leb 128 rest then (rest % 128 + 128) ∷ more else rest ∷ []

put_u8-Emits : (b : ℕ) → Emits (put_u8 b) (b ∷ [])
unfolding put_u8
put_u8-Emits b = put-Emits (b ∷ [])

encode_rest-Emits : (fuel rest : ℕ) → Emits (encode_rest fuel rest) (rest_bytes fuel rest)
unfolding encode_rest rest_bytes
encode_rest-Emits zero rest = put_u8-Emits rest
encode_rest-Emits (suc fuel) rest = elim (Bool-cases (leb 128 rest)) [
  | inl e ↦ rw e (
      >>-Emits (put_u8 (rest % 128 + 128)) (encode_rest fuel (rest / 128)) ((rest % 128 + 128) ∷ [])
        (rest_bytes fuel (rest / 128)) (put_u8-Emits (rest % 128 + 128))
        (encode_rest-Emits fuel (rest / 128)))
  | inr e ↦ rw e (put_u8-Emits rest)
]

decode_rest-rest_bytes :
    (fuel rest : ℕ) (tail : Bytes)
    → rest < 128 ^ suc fuel
    → decode_rest (rest_bytes fuel rest ++ tail) ≡ (rest, tail)
unfolding rest_bytes
decode_rest-rest_bytes zero rest tail h =
    let low : ltb rest 128 ≡ true = ground arith in rw low refl
decode_rest-rest_bytes (suc fuel) rest tail h = elim (Bool-cases (leb 128 rest)) [
  | inl e ↦
      let ih =
        decode_rest-rest_bytes fuel (rest / 128) tail (omega (arith, pow-suc 128 (suc fuel))) in
      let high : ltb (rest % 128 + 128) 128 ≡ false = ground arith in
      rw e (
        rw high (
          ap₂ (λ (a : ℕ) (s : Bytes). (a, s)) (omega (arith, ap (λ r. r.0) ih)) (ap (λ r. r.1) ih)))
  | inr e ↦ let low : ltb rest 128 ≡ true = ground arith in rw e (rw low refl)
]

-- The bytes of an integer whose first byte holds `flags` above the bits of `max`.
integer_bytes : ℕ → ℕ → ℕ → Bytes
integer_bytes value max flags =
    if ltb value max then bit_or flags value ∷ [] else bit_or flags max ∷ rest_bytes 5 (value - max)

encode_integer-Emits :
    (value prefix_bits flags : ℕ)
    → Emits
        (encode_integer value prefix_bits flags)
        (integer_bytes value (2 ^ prefix_bits - 1) flags)
unfolding encode_integer integer_bytes
encode_integer-Emits value prefix_bits flags =
    let max = 2 ^ prefix_bits - 1 in
    elim (Bool-cases (ltb value max)) [
      | inl e ↦ rw e (put_u8-Emits (bit_or flags value))
      | inr e ↦ rw e (
          >>-Emits (put_u8 (bit_or flags max)) (encode_rest 5 (value - max)) (bit_or flags max ∷ [])
            (rest_bytes 5 (value - max)) (put_u8-Emits (bit_or flags max))
            (encode_rest-Emits 5 (value - max)))
    ]

decode_integer-integer_bytes :
    (value max flags : ℕ) (tail : Bytes)
    → ((v : ℕ) → v ≤ max → bit_or flags v % suc max ≡ v)
    → value < 2 ^ 32
    → decode_integer max (integer_bytes value max flags ++ tail) ≡ (value, tail)
unfolding integer_bytes
decode_integer-integer_bytes value max flags tail apart h = elim (Bool-cases (ltb value max)) [
  | inl e ↦
      let low = apart value (ground arith) in
      let part : (bit_or flags value % suc max == max) ≡ false = ground arith in
      rw e (rw part (ap (λ (a : ℕ). (a, tail)) low))
  | inr e ↦
      let full : (bit_or flags max % suc max == max) ≡ true = ground (arith, apart max) in
      let rest = decode_rest-rest_bytes 5 (value - max) tail (omega arith) in
      rw e (
        rw full (
          ap₂ (λ (a : ℕ) (s : Bytes). (a, s)) (ground (arith, ap (λ r. r.0) rest))
            (ap (λ r. r.1) rest)))
]

-- A literal header field with an indexed name: the name, the value, and what follows.
abbrev pub decode_literal : Bytes → ℕ × Bytes × Bytes
decode_literal b =
    let name = decode_integer 15 b in
    let size = decode_integer 127 name.1 in (name.0, take size.0 size.1, drop size.0 size.1)

-- What `literal` writes for a name index and a value, into a buffer that it fits, a decoder of HPACK
-- integers reads back as the index and the value, whatever follows. The index is of 8 bits and the
-- value's length of 32; the write is refused where it does not fit.
pub literal_lem :
    (name_index : ℕ) (value tail out : Bytes)
    → name_index < 256
    → length value < 2 ^ 32
    → (text : Bytes) × (literal name_index value (new_writer out) ≡ wrote text out)
      × (decode_literal (text ++ tail) ≡ (name_index, value, tail))
unfolding literal
literal_lem name_index value tail out hn hv =
    let name = integer_bytes name_index 15 0x10 in
    let size = integer_bytes (length value) 127 0 in
    let joined =
      append_assoc name (size ++ value) tail ∙ ap (λ t. name ++ t) (append_assoc size value tail) in
    let first =
      decode_integer-integer_bytes name_index 15 0x10 (size ++ (value ++ tail))
        (λ v k. omega (arith, bit_or-above 4 v)) (omega arith) in
    let second =
      decode_integer-integer_bytes (length value) 127 0 (value ++ tail)
        (λ v k. omega (arith, bit_or-nothing 7 v)) hv in
    (
      name ++ (size ++ value),
      >>-Emits (encode_integer name_index 4 0x10) (encode_integer (length value) 7 0 >> put value)
          name (size ++ value) (encode_integer-Emits name_index 4 0x10)
          (>>-Emits (encode_integer (length value) 7 0) (put value) size value
            (encode_integer-Emits (length value) 7 0) (put-Emits value))
          [] out (omega arith),
      ap decode_literal joined
          ∙ ap
              (λ r. (
                r.0,
                take (decode_integer 127 r.1).0 (decode_integer 127 r.1).1,
                drop (decode_integer 127 r.1).0 (decode_integer 127 r.1).1,
              ))
              first
          ∙ ap (λ r. (name_index, take r.0 r.1, drop r.0 r.1)) second
          ∙ ap₂ (λ (a b : Bytes). (name_index, a, b))
              (take-append_self value tail (length value) refl)
              (drop-append_self value tail (length value) refl),
    )
