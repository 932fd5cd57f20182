-- ===== src/Control/Response/Spec.antt =====
-- What the members of a JSON object say of a peer or of a registration, apart from the code that reads
-- them. A text stands with its escapes, as the code leaves it.
use lando.Prelude.{
  ℕ, ◌^◌, Bool, true, false, ◌&&◌, Option, none, some, [], ◌∷◌, take, drop, ltb, leb, ◌==◌,
  if◌then◌else◌,
}
use lando.Prelude.Bytes.{Bytes, codes, eq_bytes}
use lando.Prelude.Decimal.{value_from}
use lando.Key
use lando.Key.{node, disco}
use lando.Json.Doc.{Doc, Members, str, number, bool, null, object, array, print}
use lando.Json.Doc
use lando.Control.Response.{PeerInfo, RegisterResponse, and_then, to_option, unwrap_or}

abbrev pub text_of : Option Doc → Option Bytes
text_of (some (str s)) = some (Doc.escaped s)
text_of o = none

abbrev pub text_said : Option Doc → Bytes
text_said (some (str s)) = Doc.escaped s
text_said o = []

abbrev pub is_said : Option Doc → Bool
is_said (some (bool b)) = b
is_said o = false

-- The text of a list, or of an object in its place.
abbrev pub list_said : Option Doc → Bytes
list_said (some (array xs)) = print (array xs)
list_said (some (object ms)) = print (object ms)
list_said o = []

abbrev pub are_digits : Bytes → Bool
are_digits [] = true
are_digits (c ∷ s) = leb b'0' c && leb c b'9' && are_digits s

-- The number that digits spell, if it fits in 32 bits.
abbrev pub small_number : Bytes → Option ℕ
small_number s =
    if are_digits s && ltb (value_from 0 s) (2 ^ 32) then some (value_from 0 s) else none

-- A number that may have a plus sign in front.
abbrev pub number_said : Bytes → Option ℕ
number_said [] = none
number_said (c ∷ []) = small_number (c ∷ [])
number_said (c ∷ d ∷ s) = small_number (if c == b'+' then d ∷ s else c ∷ d ∷ s)

abbrev pub after_address : Bytes → Option ℕ
after_address s =
    if eq_bytes (take 11 s) (codes "127.3.3.40:") then number_said (drop 11 s) else none

-- The home relay: the number in `HomeDERP`, or else the one behind the placeholder address in `DERP`.
abbrev pub region_of_text : Option Doc → ℕ
region_of_text (some (str s)) = unwrap_or (after_address (Doc.escaped s)) 0
region_of_text o = 0

abbrev pub region_said : Option Doc → Option Doc → ℕ
region_said (some (number t)) o = unwrap_or (number_said t) (region_of_text o)
region_said p o = region_of_text o

abbrev pub first_of : Option Doc → Option Doc → Option Doc
first_of (some d) o = some d
first_of none o = o

abbrev pub disco_said : Option Doc → Option Bytes
disco_said (some (str s)) = to_option (Key.parse disco (Doc.escaped s))
disco_said o = none

-- A peer with the key that its object names, if there is one, by the object's members.
abbrev pub peer_as : (Bytes → Option Doc) → Bytes → PeerInfo
peer_as said key = record {
  node_key = key;
  disco_key = disco_said (said (codes "DiscoKey"));
  home_derp = region_said (said (codes "HomeDERP")) (said (codes "DERP"));
  online = is_said (said (codes "Online"));
  allowed_ips = list_said (first_of (said (codes "AllowedIPs")) (said (codes "Addresses")));
}

abbrev pub peer_said : (Bytes → Option Doc) → Option PeerInfo
peer_said said =
    and_then (text_of (said (codes "Key")))
      λ text. and_then (to_option (Key.parse node text)) λ key. some (peer_as said key)

abbrev pub outcome_said : (Bytes → Option Doc) → RegisterResponse
outcome_said said = record {
  machine_authorized = is_said (said (codes "MachineAuthorized"));
  node_key_expired = is_said (said (codes "NodeKeyExpired"));
  auth_url = text_said (said (codes "AuthURL"));
  error = text_said (said (codes "Error"));
}
