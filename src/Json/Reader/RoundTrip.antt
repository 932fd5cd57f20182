-- ===== src/Json/Reader/RoundTrip.antt =====
-- Looking a field up in a printed object.
use lando.Prelude.{
  ℕ, zero, suc, ◌≤◌, ◌≡◌, refl, ap, ◌∙◌, Bool, true, false, Option, none, some, [], ◌∷◌, ◌++◌,
  append_assoc, length, length-append, if◌then◌else◌, Result, ok, ◌>>=◌, arith,
}
use lando.Prelude.Bytes.{Bytes, eq_bytes}
use lando.Json.{JsonError}
use lando.Json.Doc.{
  Doc, Members, object, no_members, member, escaped, quoted, comma_text, print, print_members,
}
use lando.Json.Reader.{Value, skip_ws, expect, field_member, field_loop, field}
use lando.Json.Reader.Strings.{IsText, parse_string-quoted}
use lando.Json.Reader.Nested.{Fine, FineMembers}
use lando.Json.Reader.Printed.{value_of, Stops, parse_value-print, skip_ws-print}

-- The value of the first member with that key, keys compared with their escapes.
abbrev pub find : Members → Bytes → Option Value
find no_members want = none
find (member k d ms) want = if eq_bytes (escaped k) want then some (value_of d) else find ms want

-- Members after the first, and the end of the object.
abbrev tail : Members → Bytes → Bytes
tail ms rest = print_members true ms ++ (b'}' ∷ rest)

tail-Stops : (ms : Members) (rest : Bytes) → Stops (tail ms rest)
unfolding print_members
tail-Stops no_members rest = refl
tail-Stops (member k d ms) rest = refl

field_member-print :
    (k : Bytes) (d : Doc) (rest : Bytes)
    → IsText k
    → Fine d
    → Stops rest
    → field_member (quoted k ++ (b':' ∷ (print d ++ rest))) ≡ ok ((escaped k, value_of d), rest)
unfolding field_member skip_ws expect
field_member-print k d rest hk hd stops =
    rw (parse_string-quoted k (b':' ∷ (print d ++ rest)) hk, ◌>>=◌)
      (rw (skip_ws-print d rest hd) (rw (parse_value-print d rest hd stops, ◌>>=◌) refl))

abbrev count : Members → ℕ
count no_members = 0
count (member k d ms) = suc (count ms)

member_text :
    (k : Bytes) (d : Doc) (ms : Members) (rest : Bytes)
    → print_members false (member k d ms) ++ (b'}' ∷ rest)
      ≡ quoted k ++ (b':' ∷ (print d ++ tail ms rest))
unfolding print_members
member_text k d ms rest = simp append_assoc

module _ (fuel : ℕ) (k : Bytes) (d : Doc) (rest want : Bytes) (hk : IsText k) (hd : Fine d) where
  loop_last :
      field_loop (suc fuel) (quoted k ++ (b':' ∷ (print d ++ b'}' ∷ rest))) want
      ≡ (if eq_bytes (escaped k) want then ok (some (value_of d)) else ok none)
  unfolding field_loop
  loop_last = rw (field_member-print k d (b'}' ∷ rest) hk hd refl, ◌>>=◌) refl

  loop_more :
      field_loop (suc fuel) (quoted k ++ (b':' ∷ (print d ++ b',' ∷ rest))) want
      ≡ (if eq_bytes (escaped k) want then ok (some (value_of d)) else field_loop fuel rest want)
  unfolding field_loop
  loop_more = rw (field_member-print k d (b',' ∷ rest) hk hd refl, ◌>>=◌) refl

found :
    (b : Bool) (v : Value) (o : Option Value) {r : Result JsonError (Option Value)}
    → r ≡ ok o
    → ◌≡◌ {A = Result JsonError (Option Value)}
        (if b then ok (some v) else r)
        (ok (if b then some v else o))
found true v o e = refl
found false v o e = e

field_loop-print :
    (fuel : ℕ) (k : Bytes) (d : Doc) (ms : Members) (rest want : Bytes)
    → FineMembers (member k d ms)
    → count (member k d ms) ≤ fuel
    → field_loop fuel (quoted k ++ (b':' ∷ (print d ++ tail ms rest))) want
      ≡ ok (find (member k d ms) want)
unfolding print_members
field_loop-print zero k d ms rest want h few = absurd (omega arith)
field_loop-print (suc fuel) k d no_members rest want h few =
    loop_last fuel k d rest want h.0 h.1 ∙ found (eq_bytes (escaped k) want) (value_of d) none refl
field_loop-print (suc fuel) k d (member j e ms) rest want h few =
    ap (λ t. field_loop (suc fuel) (quoted k ++ (b':' ∷ (print d ++ (b',' ∷ t)))) want)
      (member_text j e ms rest)
    ∙ loop_more fuel k d (quoted j ++ (b':' ∷ (print e ++ tail ms rest))) want h.0 h.1
    ∙ found (eq_bytes (escaped k) want) (value_of d) (find (member j e ms) want)
        (field_loop-print fuel j e ms rest want h.2 (omega arith))

count-le-length : (c : Bool) (ms : Members) → count ms ≤ length (print_members c ms)
unfolding print_members
count-le-length c no_members = omega arith
count-le-length c (member k d ms) = omega (
  arith,
  length-append (comma_text c) (quoted k ++ (b':' ∷ (print d ++ print_members true ms))),
  length-append (quoted k) (b':' ∷ (print d ++ print_members true ms)),
  length-append (print d) (print_members true ms),
  count-le-length true ms,
)

-- In a printed object, whatever follows it, `field` finds the value of the first member with the key
-- and passes over all others, however nested they are. (Keys compare with their escapes; strings are
-- well-formed text, and numbers have only the bytes of numbers.)
pub field-print :
    (ms : Members) (rest want : Bytes)
    → FineMembers ms
    → field (print (object ms) ++ rest) want ≡ ok (find ms want)
unfolding field print skip_ws expect
field-print no_members rest want h = refl
field-print (member k d ms) rest want h =
    let body = print_members false (member k d ms) in
    ap (λ t. field (b'{' ∷ t) want) (append_assoc body (b'}' ∷ []) rest ∙ member_text k d ms rest)
    ∙ field_loop-print (suc (length (quoted k ++ (b':' ∷ (print d ++ tail ms rest))))) k d ms rest
        want h
        (omega (
          arith,
          count-le-length false (member k d ms),
          length-append body (b'}' ∷ rest),
          ap length (member_text k d ms rest),
        ))
