-- ===== src/Json/Reader/Printed.antt =====
-- A printed value is read back where it stands.
use lando.Prelude.{
  ℕ, ◌<◌, ◌≡◌, refl, ap, ◌∙◌, Bool, true, false, [], ◌∷◌, ◌++◌, All, length, ◌==◌, ok, arith,
}
use lando.Prelude.Bytes.{Bytes, codes}
use lando.Json.Utf8.{IsAscii, is_utf8-IsAscii}
use lando.Json.Doc.{
  Doc, Members, Items, str, number, bool, null, object, array, no_members, member, no_items, item,
  escaped, comma_text, print, print_members, print_items,
}
use lando.Json.Reader
use lando.Json.Reader.{
  Value, Read, checked, valued, is_ws, skip_ws, parse_string, is_number, number_span, parse_number,
  literal_value, parse_value, skip_nested,
}
use lando.Json.Reader.Strings.{parse_string-quoted}
use lando.Json.Reader.Nested.{
  IsNumber, Fine, FineMembers, FineItems, Brackets, curly, square, IsPlain, Skips, enclosed,
  Skips-nil, Skips-append, Skips-byte, Skips-bytes, Skips-quoted, Skips-enclosed,
  skip_nested-enclosed,
}

number-IsPlain : (p : Brackets) (t : Bytes) → All (λ b. is_number b ≡ true) t → All (IsPlain p) t
number-IsPlain p [] h = tt
number-IsPlain curly (b ∷ t) (hb, h) =
    ((λ e. ground arith, λ e. ground arith, λ e. ground arith), number-IsPlain curly t h)
number-IsPlain square (b ∷ t) (hb, h) =
    ((λ e. ground arith, λ e. ground arith, λ e. ground arith), number-IsPlain square t h)

letters-Skips : (p : Brackets) (t : Bytes) → All (λ b. (93 < b) × (b < 123)) t → Skips p t
letters-Skips p t h = Skips-bytes p t (plain p t h)
  where
    plain : (p : Brackets) (t : Bytes) → All (λ b. (93 < b) × (b < 123)) t → All (IsPlain p) t
    plain p [] h = tt
    plain curly (b ∷ t) (hb, h) =
        ((λ e. omega arith, λ e. omega arith, λ e. omega arith), plain curly t h)
    plain square (b ∷ t) (hb, h) =
        ((λ e. omega arith, λ e. omega arith, λ e. omega arith), plain square t h)

comma-Skips : (p : Brackets) (c : Bool) → Skips p (comma_text c)
comma-Skips p false = Skips-nil p
comma-Skips curly true =
    Skips-byte curly b',' (λ e. omega arith, λ e. omega arith, λ e. omega arith)
comma-Skips square true =
    Skips-byte square b',' (λ e. omega arith, λ e. omega arith, λ e. omega arith)

colon-Skips : (p : Brackets) → Skips p (b':' ∷ [])
colon-Skips curly = Skips-byte curly b':' (λ e. omega arith, λ e. omega arith, λ e. omega arith)
colon-Skips square = Skips-byte square b':' (λ e. omega arith, λ e. omega arith, λ e. omega arith)

-- In brackets of either kind.
bracketed-Skips : (p q : Brackets) (t : Bytes) → Skips p t → Skips p (enclosed q t)
unfolding enclosed
bracketed-Skips curly curly t x = Skips-enclosed curly t x
bracketed-Skips square square t x = Skips-enclosed square t x
bracketed-Skips curly square t x =
    Skips-append (Skips-byte curly b'[' (λ e. omega arith, λ e. omega arith, λ e. omega arith)) (
      Skips-append x (Skips-byte curly b']' (λ e. omega arith, λ e. omega arith, λ e. omega arith)))
bracketed-Skips square curly t x =
    Skips-append (Skips-byte square b'{' (λ e. omega arith, λ e. omega arith, λ e. omega arith)) (
      Skips-append x
        (Skips-byte square b'}' (λ e. omega arith, λ e. omega arith, λ e. omega arith)))

mutual
  unfolding print enclosed

  print-Skips : (p : Brackets) (d : Doc) → Fine d → Skips p (print d)
  print-Skips p (str s) h = Skips-quoted p s h
  print-Skips p (number t) h = Skips-bytes p t (number-IsPlain p t h.1)
  print-Skips p (bool true) h = letters-Skips p (codes "true") (omega arith)
  print-Skips p (bool false) h = letters-Skips p (codes "false") (omega arith)
  print-Skips p null h = letters-Skips p (codes "null") (omega arith)
  print-Skips p (object ms) h =
      bracketed-Skips p curly (print_members false ms) (members-Skips p false ms h)
  print-Skips p (array xs) h =
      bracketed-Skips p square (print_items false xs) (items-Skips p false xs h)

  members-Skips :
      (p : Brackets) (c : Bool) (ms : Members) → FineMembers ms → Skips p (print_members c ms)
  members-Skips p c no_members h = Skips-nil p
  members-Skips p c (member k d ms) h = Skips-append (comma-Skips p c) (
      Skips-append (Skips-quoted p k h.0) (
        Skips-append (colon-Skips p)
          (Skips-append (print-Skips p d h.1) (members-Skips p true ms h.2))))

  items-Skips : (p : Brackets) (c : Bool) (xs : Items) → FineItems xs → Skips p (print_items c xs)
  items-Skips p c no_items h = Skips-nil p
  items-Skips p c (item d xs) h =
      Skips-append (comma-Skips p c)
        (Skips-append (print-Skips p d h.0) (items-Skips p true xs h.1))

-- What the reader makes of a value.
unfoldable pub value_of : Doc → Value
unfolding print
value_of (str s) = Reader.str (escaped s)
value_of (number t) = Reader.number t
value_of (bool b) = Reader.bool b
value_of null = Reader.null
value_of (object ms) = Reader.raw (print (object ms))
value_of (array xs) = Reader.raw (print (array xs))

-- What ends a number.
abbrev pub Stops : Bytes → Type 0
Stops [] = Unit
Stops (b ∷ s) = is_number b ≡ false

number_span-append :
    (t rest : Bytes)
    → All (λ b. is_number b ≡ true) t
    → Stops rest
    → number_span (t ++ rest) ≡ (t, rest)
unfolding number_span
number_span-append [] [] h k = refl
number_span-append [] (b ∷ rest) h k = rw k refl
number_span-append (b ∷ t) rest (hb, h) k =
    rw hb (ap (λ r. (b ∷ r.0, r.1)) (number_span-append t rest h k))

number-IsAscii : (t : Bytes) → All (λ b. is_number b ≡ true) t → All IsAscii t
number-IsAscii [] h = tt
number-IsAscii (b ∷ t) (hb, h) = (ground arith, number-IsAscii t h)

parse_number-append :
    (t rest : Bytes)
    → IsNumber t
    → Stops rest
    → parse_number (t ++ rest) ≡ ok (Reader.number t, rest)
unfolding parse_number
parse_number-append t rest h k =
    let some_digits : length t == 0 ≡ false = ground arith in
    let text = is_utf8-IsAscii t (number-IsAscii t h.1) in
    rw (number_span-append t rest h.1 k) (rw some_digits (rw text refl))

number_start : (b : ℕ) (s : Bytes) → is_number b ≡ true → parse_value (b ∷ s) ≡ parse_number (b ∷ s)
unfolding parse_value
number_start b s h =
    let q : b == b'"' ≡ false = ground arith in
    let o : b == b'{' ≡ false = ground arith in
    let a : b == b'[' ≡ false = ground arith in
    let t : b == b't' ≡ false = ground arith in
    let f : b == b'f' ≡ false = ground arith in
    let n : b == b'n' ≡ false = ground arith in rw q (rw o (rw a (rw t (rw f (rw n refl)))))

-- A value and what follows it.
pub parse_value-print :
    (d : Doc) (rest : Bytes)
    → Fine d
    → Stops rest
    → parse_value (print d ++ rest) ≡ ok (value_of d, rest)
unfolding parse_value print value_of enclosed
parse_value-print (str s) rest h k = ap (valued Reader.str) (parse_string-quoted s rest h)
parse_value-print (number []) rest h k = absurd (omega (arith, h.0))
parse_value-print (number (b ∷ t)) rest h k =
    number_start b (t ++ rest) h.1.0 ∙ parse_number-append (b ∷ t) rest h k
parse_value-print (bool true) rest h k = refl
parse_value-print (bool false) rest h k = refl
parse_value-print null rest h k = refl
parse_value-print (object ms) rest h k =
    ap (valued Reader.raw)
      (skip_nested-enclosed curly (print_members false ms) rest (members-Skips curly false ms h))
parse_value-print (array xs) rest h k =
    ap (valued Reader.raw)
      (skip_nested-enclosed square (print_items false xs) rest (items-Skips square false xs h))

skip_ws_start : (b : ℕ) (s : Bytes) → is_ws b ≡ false → skip_ws (b ∷ s) ≡ b ∷ s
unfolding skip_ws
skip_ws_start b s h = rw h refl

number_no_ws : (b : ℕ) → is_number b ≡ true → is_ws b ≡ false
number_no_ws b h = ground arith

-- No value starts with white space.
pub skip_ws-print : (d : Doc) (rest : Bytes) → Fine d → skip_ws (print d ++ rest) ≡ print d ++ rest
unfolding print skip_ws
skip_ws-print (str s) rest h = refl
skip_ws-print (number []) rest h = absurd (omega (arith, h.0))
skip_ws-print (number (b ∷ t)) rest h = skip_ws_start b (t ++ rest) (number_no_ws b h.1.0)
skip_ws-print (bool true) rest h = refl
skip_ws-print (bool false) rest h = refl
skip_ws-print null rest h = refl
skip_ws-print (object ms) rest h = refl
skip_ws-print (array xs) rest h = refl
