-- ===== src/Json/Tests.antt =====
-- The writer and the reader at concrete inputs.
use lando.Prelude.{
  ◌<◌, ◌≤◌, All, ◌≡◌, ◌≢◌, ◌++◌, refl, map, true, false, [], ◌∷◌, none, some, length, replicate, ok,
  err, arith,
}
use lando.Prelude.Bytes.{Bytes, codes, eq_bytes, strip_prefix}
use lando.Prelude.Decimal.{decimal, value_from, IsDigit, decimal_lem}
use lando.Json.Writer.{new_writer, len, is_empty}
use lando.Json.Utf8.{is_utf8}
use lando.Json.{out_of_fuel}
use lando.Json.Reader.{Value, raw, bool, field, is_empty_str}
use lando.Json.Doc.{
  Members, Items, str, number, null, object, array, no_members, member, no_items, item, print,
}
use lando.Json.Reader.Nested.{FineMembers, FineItems}
use lando.Json.Reader.RoundTrip.{find, field-print}
use lando.Json.Reader.Fields.{field_total}
use lando.Json.Elements.{collect_all}
use lando.Json.Elements.Printed.{values_of, collect_all-print}

abbrev response : Bytes
response = codes "{ \"User\": {\"a\":[1,{\"b\":2}],\"c\":\"}\"},\n\"n\" : -1.5e3, \"ok\":true}"

nested_run :
    field response (codes "User") ≡ ok (some (raw (codes "{\"a\":[1,{\"b\":2}],\"c\":\"}\"}")))
unfolding field is_utf8 eq_bytes strip_prefix
nested_run = refl

bool_run : field response (codes "ok") ≡ ok (some (bool true))
unfolding field is_utf8 eq_bytes strip_prefix
bool_run = refl

empty_run :
    map is_empty_str (Value.str [] ∷ Value.str (codes "x") ∷ raw [] ∷ [])
    ≡ true ∷ false ∷ false ∷ []
unfolding is_empty_str
empty_run = refl

missing_run : field response (codes "b") ≡ ok none
unfolding field is_utf8 eq_bytes strip_prefix
missing_run = refl

decimal_lem_run :
    (value_from 0 (decimal 20 65535) ≡ 65535)
    × All IsDigit (decimal 20 65535)
    × (0 < length (decimal 20 65535))
    × (length (decimal 20 65535) ≤ 20)
decimal_lem_run = decimal_lem 20 65535 (omega arith) (omega arith)

-- What the writer says of itself.
written_run :
    (len (new_writer (replicate 4 0)) ≡ 0) × (is_empty (new_writer (replicate 4 0)) ≡ true)
written_run = (refl, refl)

abbrev inner : Members
inner = member (codes "a}") (str (codes "x\"]")) (member (codes "b") null no_members)

abbrev entries : Items
entries = item (number (codes "-12")) (item (array (item (object inner) no_items)) no_items)

abbrev account : Members
account =
    member (codes "Login") (object inner)
      (member (codes "Nodes") (array entries) (member (codes "b") (str (codes "last")) no_members))

inner-Fine : FineMembers inner
unfolding is_utf8
inner-Fine = (refl, refl, (refl, tt, tt))

entries-Fine : FineItems entries
unfolding is_utf8
entries-Fine = ((omega arith, (refl, (refl, (refl, tt)))), ((inner-Fine, tt), tt))

account-Fine : FineMembers account
unfolding is_utf8
account-Fine = (refl, inner-Fine, (refl, entries-Fine, (refl, refl, tt)))

field-print_example :
    field (print (object account) ++ codes ",\"b\":1}") (codes "b") ≡ ok (find account (codes "b"))
field-print_example = field-print account (codes ",\"b\":1}") (codes "b") account-Fine

field_total_example : field (codes "{\"a\":[[{") (codes "b") ≢ err out_of_fuel
field_total_example = field_total (codes "{\"a\":[[{") (codes "b")

collect_all-print_run : collect_all (print (array entries) ++ codes ", 7]") ≡ values_of entries
collect_all-print_run = collect_all-print entries (codes ", 7]") entries-Fine
