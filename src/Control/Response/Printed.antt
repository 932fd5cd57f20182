-- ===== src/Control/Response/Printed.antt =====
-- What the client reads of printed JSON is what the values say.
use lando.Prelude.{
  ◌≡◌, refl, sym, ap, ap₂, ◌∙◌, Bool, true, false, Option, none, some, List, [], ◌∷◌, ◌++◌,
  append-nil, if◌then◌else◌, ok,
}
use lando.Prelude.Bytes.{Bytes, codes, eq_bytes}
use lando.Json.Doc.{
  Doc, Members, Items, str, number, bool, null, object, array, no_members, member, no_items, item,
  escaped, print,
}
use lando.Json.Reader.{Value, skip_ws, field}
use lando.Json.Reader.Nested.{Fine, FineMembers, FineItems}
use lando.Json.Reader.Printed.{value_of}
use lando.Json.Reader.RoundTrip.{find, field-print}
use lando.Json.Elements.{collect_all}
use lando.Json.Elements.Printed.{values_of, collect_all-print}
use lando.Control.Response.{
  peer_from, field_of, peer_entry, keep, peer_entries, peer_list, raw_or_empty, and_then, to_option,
  peers, response_from, parse_register_response,
}
use lando.Control.Response.Spec.{peer_said, outcome_said}
use lando.Control.Response.Said.{map_value, peer_from-value, response_from-value}
use lando.Control.Response.{PeerInfo}
use mathlib.Core.Path.{fun_ext}

-- Looking fields up in a printed object is looking them up in the object.
field-members : (ms : Members) → FineMembers ms → field (print (object ms)) ≡ (λ k. ok (find ms k))
field-members ms h =
    fun_ext
      (λ k. ap (λ t. field t k) (sym (append-nil (print (object ms)))) ∙ field-print ms [] k h)

field_of-members : (ms : Members) → FineMembers ms → field_of (print (object ms)) ≡ find ms
unfolding field_of
field_of-members ms h =
    ap (λ get k. and_then (to_option (get k)) (λ (o : Option Value). o)) (field-members ms h)

-- The member with a key, keys compared with their escapes.
abbrev pub find_doc : Members → Bytes → Option Doc
find_doc no_members want = none
find_doc (member k d ms) want = if eq_bytes (escaped k) want then some d else find_doc ms want

abbrev pub items_of : Option Doc → Items
items_of (some (array xs)) = xs
items_of o = no_items

-- The peer that an entry stands for.
abbrev pub peer_of : Doc → Option PeerInfo
peer_of (object ns) = peer_said (find_doc ns)
peer_of d = none

abbrev pub peers_of : Items → List PeerInfo
peers_of no_items = []
peers_of (item d xs) = keep (peer_of d) (peers_of xs)

find-find_doc : (ms : Members) (want : Bytes) → find ms want ≡ map_value (find_doc ms want)
find-find_doc no_members want = refl
find-find_doc (member k d ms) want =
    choose (eq_bytes (escaped k) want) d (find_doc ms want) (find-find_doc ms want)
  where
    choose :
        (b : Bool) (d : Doc) (o : Option Doc) {r : Option Value}
        → r ≡ map_value o
        → (if b then some (value_of d) else r) ≡ map_value (if b then some d else o)
    choose true d o e = refl
    choose false d o e = e

-- An array has no fields.
no_fields : (xs : Items) → peer_from (field_of (print (array xs))) ≡ none
unfolding peer_from field_of field print
no_fields xs = refl

entry_lem : (d : Doc) → Fine d → peer_entry (value_of d) ≡ peer_of d
unfolding peer_entry value_of
entry_lem (str s) h = refl
entry_lem (number t) h = refl
entry_lem (bool b) h = refl
entry_lem null h = refl
entry_lem (array xs) h = no_fields xs
entry_lem (object ns) h =
    ap peer_from (field_of-members ns h ∙ fun_ext (find-find_doc ns))
    ∙ peer_from-value (find_doc ns)

peer_entries-values_of : (xs : Items) → FineItems xs → peer_entries (values_of xs) ≡ peers_of xs
unfolding peer_entries
peer_entries-values_of no_items h = refl
peer_entries-values_of (item d xs) h = ap₂ keep (entry_lem d h.0) (peer_entries-values_of xs h.1)

keep-append : (o : Option PeerInfo) (ps qs : List PeerInfo) → keep o ps ++ qs ≡ keep o (ps ++ qs)
keep-append none ps qs = refl
keep-append (some p) ps qs = refl

peer_entries-append :
    (us vs : List Value) → peer_entries (us ++ vs) ≡ peer_entries us ++ peer_entries vs
unfolding peer_entries
peer_entries-append [] vs = refl
peer_entries-append (u ∷ us) vs =
    ap (keep (peer_entry u)) (peer_entries-append us vs)
    ∙ sym (keep-append (peer_entry u) (peer_entries us) (peer_entries vs))

abbrev FineOption : Option Doc → Type 0
FineOption none = Unit
FineOption (some d) = Fine d

find_doc-Fine : (ms : Members) (want : Bytes) → FineMembers ms → FineOption (find_doc ms want)
find_doc-Fine no_members want h = tt
find_doc-Fine (member k d ms) want h =
    choose (eq_bytes (escaped k) want) (find_doc ms want) (find_doc-Fine ms want h.2)
  where
    choose : (b : Bool) (o : Option Doc) → FineOption o → FineOption (if b then some d else o)
    choose true o p = h.1
    choose false o p = p

no_bytes : collect_all [] ≡ []
unfolding collect_all skip_ws
no_bytes = refl

-- An object has no elements.
no_array : (ms : Members) → collect_all (print (object ms)) ≡ []
unfolding collect_all skip_ws print
no_array ms = refl

collect_list :
    (o : Option Doc)
    → FineOption o
    → collect_all (raw_or_empty (map_value o)) ≡ values_of (items_of o)
unfolding value_of
collect_list none h = no_bytes
collect_list (some (str s)) h = no_bytes
collect_list (some (number t)) h = no_bytes
collect_list (some (bool b)) h = no_bytes
collect_list (some null) h = no_bytes
collect_list (some (object ms)) h = no_array ms
collect_list (some (array xs)) h =
    ap collect_all (sym (append-nil (print (array xs)))) ∙ collect_all-print xs [] h

peer_list-members :
    (ms : Members) (k : Bytes)
    → FineMembers ms
    → peer_entries (collect_all (peer_list (print (object ms)) k))
      ≡ peers_of (items_of (find_doc ms k))
unfolding peer_list
peer_list-members ms k h =
    let fine = find_doc-Fine ms k h in
    ap (λ get. peer_entries (collect_all (raw_or_empty (get k)))) (field_of-members ms h)
    ∙ ap (λ o. peer_entries (collect_all (raw_or_empty o))) (find-find_doc ms k)
    ∙ ap peer_entries (collect_list (find_doc ms k) fine)
    ∙ peer_entries-values_of (items_of (find_doc ms k)) (fine_items (find_doc ms k) fine)
  where
    fine_items : (o : Option Doc) → FineOption o → FineItems (items_of o)
    fine_items none h = tt
    fine_items (some (array xs)) h = h
    fine_items (some (str s)) h = tt
    fine_items (some (number t)) h = tt
    fine_items (some (bool b)) h = tt
    fine_items (some null) h = tt
    fine_items (some (object ms)) h = tt

-- The registration's outcome, read from the text of a JSON object: the flags are those of its members
-- `MachineAuthorized` and `NodeKeyExpired`, and the texts those of `AuthURL` and `Error`; a missing
-- member, or one of another type, counts as false or as empty.
pub parse_register_response-print :
    (ms : Members)
    → FineMembers ms
    → parse_register_response (print (object ms)) ≡ ok (outcome_said (find_doc ms))
unfolding parse_register_response
parse_register_response-print ms h =
    ap response_from (field-members ms h ∙ fun_ext (λ k. ap ok (find-find_doc ms k)))
    ∙ response_from-value (find_doc ms)

-- The peers read from the text of a map are those that its members `Peers` and `PeersChanged` list,
-- both of them and in that order: one for each entry that is an object whose member `Key` is a text that
-- reads as a node key, whatever other entries stand between. Its disco key is that of `DiscoKey`, its
-- region the number in `HomeDERP`, or else the one behind `127.3.3.40:` in `DERP`, or else 0; its flag is
-- `Online`, and its addresses are the text of `AllowedIPs`, or else of `Addresses`.
pub peers-print :
    (ms : Members)
    → FineMembers ms
    → peers (print (object ms))
      ≡ peers_of (items_of (find_doc ms (codes "Peers")))
        ++ peers_of (items_of (find_doc ms (codes "PeersChanged")))
unfolding peers
peers-print ms h =
    peer_entries-append (collect_all (peer_list (print (object ms)) (codes "Peers")))
      (collect_all (peer_list (print (object ms)) (codes "PeersChanged")))
    ∙ ap₂ (λ ps qs. ps ++ qs) (peer_list-members ms (codes "Peers") h)
        (peer_list-members ms (codes "PeersChanged") h)
