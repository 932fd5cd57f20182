-- ===== src/Key.antt =====
-- Keys as text, crates/tailscale-core/src/key.rs. The macro makes three pairs of types that differ in
-- the prefix: here one function each, with the kind as an argument. A public key is its 32 bytes.
pub mod Hex
pub mod RoundTrip
mod Tests
use lando.Prelude.{
  ℕ, zero, suc, ◌+◌, ◌-◌, ◌*◌, ◌/◌, ◌%◌, Bool, true, false, Option, none, some, List, [], ◌∷◌,
  length, get_or, set, ltb, leb, ◌==◌, ◌&&◌, if◌then◌else◌, Result, ok, err, ◌>>=◌, bit_or,
}
use lando.Prelude.Bytes.{Bytes, codes, copy_at, strip_prefix}

abbrev pub key_len : ℕ
key_len = 32

pub data KeyError : Type 0 where
  bad_hex bad_prefix short_buffer : KeyError

unfoldable pub nibble : ℕ → Result KeyError ℕ
nibble c =
    if leb b'0' c && leb c b'9'
    then ok (c - b'0')
    else if leb b'a' c && leb c b'f'
    then ok (c - b'a' + 10)
    else if leb b'A' c && leb c b'F'
    then ok (c - b'A' + 10)
    else err bad_hex

abbrev pub hex_digits : Bytes
hex_digits = codes "0123456789abcdef"

-- The machine, node and disco keys.
pub data KeyKind : Type 0 where
  machine node disco : KeyKind

-- `PREFIX`
abbrev pub prefix : KeyKind → Bytes
prefix machine = codes "mkey:"
prefix node = codes "nodekey:"
prefix disco = codes "discokey:"

-- The loop of `parse_hex` over the pairs of digits.
unfoldable pub parse_pairs : Bytes → Result KeyError Bytes
parse_pairs (a ∷ b ∷ s) =
    nibble a >>= λ hi. nibble b >>= λ lo. parse_pairs s >>= λ out. ok (bit_or (hi * 16) lo ∷ out)
parse_pairs _ = ok []

unfoldable pub parse_hex : Bytes → Result KeyError Bytes
unfolding parse_pairs
parse_hex hex = if length hex == key_len * 2 then parse_pairs hex else err bad_hex

unfoldable pub parse : KeyKind → Bytes → Result KeyError Bytes
unfolding strip_prefix parse_hex
parse kind s = elim (strip_prefix (prefix kind) s) [
  | none ↦ err bad_prefix
  | some hex ↦ parse_hex hex
]

-- The loop of `write`, at the index of the first of two digits.
unfoldable pub write_pairs : ℕ → Bytes → Bytes → Bytes
write_pairs at [] out = out
write_pairs at (b ∷ bs) out =
    write_pairs (at + 2) bs
      (set (set out at (get_or hex_digits (b / 16) 0)) (at + 1) (get_or hex_digits (b % 16) 0))

-- The buffer after the call, and the bytes written.
unfoldable pub write : KeyKind → Bytes → Bytes → Bytes × Result KeyError ℕ
unfolding write_pairs
write kind key out =
    let total = length (prefix kind) + key_len * 2 in
    if ltb (length out) total
    then (out, err short_buffer)
    else (write_pairs (length (prefix kind)) key (copy_at out 0 (prefix kind)), ok total)
