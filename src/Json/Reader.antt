-- ===== src/Json/Reader.antt =====
-- The field extractor of the same file. The parser's position is the bytes still ahead of it, and a
-- slice that it returns holds the bytes that it passed.
pub mod Strings
pub mod Nested
pub mod Printed
mod Total
pub mod Fields
pub mod RoundTrip
use lando.Prelude.{
  ℕ, zero, suc, ◌+◌, ◌-◌, Bool, true, false, Option, none, some, List, [], ◌∷◌, ◌++◌, length, ltb,
  leb, ◌==◌, ◌&&◌, ◌||◌, if◌then◌else◌, Result, ok, err, ◌>>=◌,
}
use lando.Prelude.Bytes.{Bytes, codes, eq_bytes, strip_prefix}
use lando.Json.{JsonError, truncated, malformed, out_of_fuel}
use lando.Json.Utf8.{is_utf8}

pub data Value : Type 0 where
  str : Bytes → Value
  number : Bytes → Value
  bool : Bool → Value
  null : Value
  raw : Bytes → Value

unfoldable pub as_str : Value → Option Bytes
as_str (str s) = some s
as_str v = none

unfoldable pub as_bool : Value → Option Bool
as_bool (bool b) = some b
as_bool v = none

unfoldable pub is_empty_str : Value → Bool
is_empty_str (str []) = true
is_empty_str v = false

-- What a step of the parser reads, and the bytes ahead after it.
abbrev pub Read : Type 0 → Type 0
Read A = Result JsonError (A × Bytes)

pub expect : ℕ → Bytes → Result JsonError Bytes
expect c [] = err malformed
expect c (b ∷ s) = if b == c then ok s else err malformed

abbrev is_ws : ℕ → Bool
is_ws b = b == b' ' || b == b'\t' || b == b'\n' || b == b'\r'

unfoldable pub skip_ws : Bytes → Bytes
skip_ws [] = []
skip_ws (b ∷ s) = let rest = skip_ws s in if is_ws b then rest else b ∷ s

-- The byte before what was read.
abbrev pub push : ℕ → Read Bytes → Read Bytes
push b (ok (t, rest)) = ok (b ∷ t, rest)
push b (err e) = err e

-- The loop of `parse_string`, and whether the byte before was a backslash.
pub string_loop : Bool → Bytes → Read Bytes
string_loop escaped [] = err truncated
string_loop true (b ∷ s) = push b (string_loop false s)
string_loop false (b ∷ s) =
    let rest = push b (string_loop (b == 0x5c) s) in if b == b'"' then ok ([], s) else rest

abbrev pub checked : Read Bytes → Read Bytes
checked (ok (t, rest)) = if is_utf8 t then ok (t, rest) else err malformed
checked (err e) = err e

pub parse_string : Bytes → Read Bytes
unfolding expect string_loop
parse_string s = expect b'"' s >>= λ rest. checked (string_loop false rest)

abbrev pub is_number : ℕ → Bool
is_number b =
    b == b'-' || b == b'+' || b == b'.' || b == b'e' || b == b'E' || (leb b'0' b && leb b b'9')

pub number_span : Bytes → Bytes × Bytes
number_span [] = ([], [])
number_span (b ∷ s) =
    let (t, rest) = number_span s in if is_number b then (b ∷ t, rest) else ([], b ∷ s)

-- One round of the loop of `skip_nested`: it ends, or passes some bytes at a new depth. (The depth is
-- one or more here, since the loop starts at an opening bracket.)
pub data Step : Type 0 where
  stop : Read Bytes → Step
  go : Bytes → Bytes → ℕ → Step

abbrev pub over_string : ℕ → Read Bytes → Step
over_string depth (ok (t, rest)) = go (b'"' ∷ (t ++ b'"' ∷ [])) rest depth
over_string depth (err e) = stop (err e)

pub nested_step : ℕ → ℕ → Bytes → ℕ → Step
unfolding parse_string
nested_step open_ close [] depth = stop (err truncated)
nested_step open_ close (b ∷ s) depth =
    if b == b'"'
    then over_string depth (parse_string (b ∷ s))
    else if b == open_
    then go (b ∷ []) s (depth + 1)
    else if b == close
    then if depth - 1 == 0 then stop (ok (b ∷ [], s)) else go (b ∷ []) s (depth - 1)
    else go (b ∷ []) s depth

abbrev pub passed : Bytes → Read Bytes → Read Bytes
passed t (ok (u, rest)) = ok (t ++ u, rest)
passed t (err e) = err e

pub nested_loop : ℕ → ℕ → ℕ → Bytes → ℕ → Read Bytes
unfolding nested_step
nested_loop zero open_ close s depth = err out_of_fuel
nested_loop (suc fuel) open_ close s depth = elim (nested_step open_ close s depth) [
  | stop r ↦ r
  | go t s' depth' ↦ passed t (nested_loop fuel open_ close s' depth')
]

-- A round passes a byte at least.
pub skip_nested : ℕ → ℕ → Bytes → Read Bytes
unfolding nested_loop
skip_nested open_ close s = nested_loop (suc (length s)) open_ close s 0

pub literal : Bytes → Bytes → Result JsonError Bytes
unfolding strip_prefix
literal lit s = elim (strip_prefix lit s) [ none ↦ err malformed | some rest ↦ ok rest ]

pub literal_value : Bytes → Value → Bytes → Read Value
unfolding literal
literal_value lit v s = literal lit s >>= λ rest. ok (v, rest)

abbrev pub valued : {A : Type 0} → (A → Value) → Read A → Read Value
valued f (ok (a, rest)) = ok (f a, rest)
valued f (err e) = err e

pub parse_number : Bytes → Read Value
unfolding number_span
parse_number s =
    let (t, rest) = number_span s in
    if length t == 0 then err malformed else valued number (checked (ok (t, rest)))

pub parse_value : Bytes → Read Value
unfolding parse_string skip_nested literal_value parse_number
parse_value [] = err truncated
parse_value (b ∷ s) =
    if b == b'"'
    then valued str (parse_string (b ∷ s))
    else if b == b'{'
    then valued raw (skip_nested b'{' b'}' (b ∷ s))
    else if b == b'['
    then valued raw (skip_nested b'[' b']' (b ∷ s))
    else if b == b't'
    then literal_value (codes "true") (bool true) (b ∷ s)
    else if b == b'f'
    then literal_value (codes "false") (bool false) (b ∷ s)
    else if b == b'n'
    then literal_value (codes "null") null (b ∷ s)
    else parse_number (b ∷ s)

-- One round of the loop of `field`: the key and the value, and the bytes behind them.
pub field_member : Bytes → Read (Bytes × Value)
unfolding skip_ws parse_string expect parse_value
field_member s = parse_string (skip_ws s) >>= λ (key, s1). expect b':' (skip_ws s1) >>= λ s2.
    parse_value (skip_ws s2) >>= λ (value, s3). ok ((key, value), s3)

pub field_loop : ℕ → Bytes → Bytes → Result JsonError (Option Value)
unfolding field_member skip_ws eq_bytes
field_loop zero s want = err out_of_fuel
field_loop (suc fuel) s want = field_member s >>= λ ((key, value), rest).
    if eq_bytes key want then ok (some value) else elim (skip_ws rest) [
      | [] ↦ err malformed
      | b ∷ after ↦
          let next = field_loop fuel after want in
          if b == b',' then next else if b == b'}' then ok none else err malformed
    ]

-- `peek() == Some(b)`
abbrev pub peeks : ℕ → Bytes → Bool
peeks c [] = false
peeks c (b ∷ s) = b == c

-- A member takes a byte at least.
unfoldable pub field : Bytes → Bytes → Result JsonError (Option Value)
unfolding skip_ws expect field_loop
field json want = expect b'{' (skip_ws json) >>= λ s.
    if peeks b'}' (skip_ws s) then ok none else field_loop (suc (length s)) (skip_ws s) want
