-- ===== src/Control/Response.antt =====
-- What the client reads of the control server's JSON: the registration's outcome, and the peers of a
-- map.
pub mod Spec
pub mod Said
pub mod Printed
pub mod Regions
use lando.Prelude.{
  ℕ, zero, suc, ◌+◌, ◌-◌, ◌*◌, ◌^◌, Bool, true, false, not, Option, none, some, List, [], ◌∷◌, ◌++◌,
  length, ltb, leb, ◌==◌, ◌&&◌, if◌then◌else◌, Result, ok, err, ◌>>=◌,
}
use lando.Prelude.Bytes.{Bytes, codes, strip_prefix}
use lando.Key
use lando.Key.{node, disco}
use lando.Json.{JsonError}
use lando.Json.Reader.{Value, str, number, bool, null, raw, as_str, as_bool, field}
use lando.Json.Elements.{collect_all}

-- Chains of `Option`: `and_then`, `or_else`, `unwrap_or`, and `Result::ok`.
abbrev pub and_then {ℓ κ} : {A : Type ℓ} {B : Type κ} → Option A → (A → Option B) → Option B
and_then none f = none
and_then (some a) f = f a

abbrev pub or_else {ℓ} : {A : Type ℓ} → Option A → Option A → Option A
or_else (some a) o = some a
or_else none o = o

abbrev pub unwrap_or {ℓ} : {A : Type ℓ} → Option A → A → A
unwrap_or (some a) d = a
unwrap_or none d = d

abbrev pub to_option : {E A : Type 0} → Result E A → Option A
to_option (ok a) = some a
to_option (err e) = none

-- `str::parse::<u32>`: digits behind at most one plus sign, and no overflow on the way.
unfoldable pub digits_u32 : ℕ → Bytes → Option ℕ
digits_u32 n [] = some n
digits_u32 n (c ∷ s) =
    let rest = digits_u32 (n * 10 + (c - b'0')) s in
    if leb b'0' c && leb c b'9' && ltb (n * 10 + (c - b'0')) (2 ^ 32) then rest else none

unfoldable pub parse_u32 : Bytes → Option ℕ
unfolding digits_u32
parse_u32 [] = none
parse_u32 (c ∷ []) = digits_u32 0 (c ∷ [])
parse_u32 (c ∷ d ∷ s) = digits_u32 0 (if c == b'+' then d ∷ s else c ∷ d ∷ s)

unfoldable pub derp_region : Bytes → Option ℕ
unfolding parse_u32
derp_region s = and_then (strip_prefix (codes "127.3.3.40:") s) parse_u32

pub record PeerInfo : Type 0 where
  pub node_key : Bytes
  pub disco_key : Option Bytes
  pub home_derp : ℕ
  pub online : Bool
  pub allowed_ips : Bytes

abbrev pub number_u32 : Value → Option ℕ
number_u32 (number n) = parse_u32 n
number_u32 v = none

abbrev pub raw_or_empty : Option Value → Bytes
raw_or_empty (some (raw r)) = r
raw_or_empty o = []

-- The fields of a peer besides its key, by the function that looks a field up.
unfoldable pub peer_with : (Bytes → Option Value) → Bytes → PeerInfo
unfolding as_str as_bool derp_region
peer_with get node_key = record {
  node_key = node_key;
  disco_key =
      and_then (and_then (get (codes "DiscoKey")) as_str) λ s. to_option (Key.parse disco s);
  home_derp =
      unwrap_or
        (or_else (and_then (get (codes "HomeDERP")) number_u32)
          (and_then (get (codes "DERP")) λ v. and_then (as_str v) derp_region))
        0;
  online = unwrap_or (and_then (get (codes "Online")) as_bool) false;
  allowed_ips = raw_or_empty (or_else (get (codes "AllowedIPs")) (get (codes "Addresses")));
}

unfoldable pub peer_from : (Bytes → Option Value) → Option PeerInfo
unfolding as_str peer_with
peer_from get =
    and_then (and_then (get (codes "Key")) as_str)
      λ s. and_then (to_option (Key.parse node s)) λ k. some (peer_with get k)

-- `json::field(node, k).ok().flatten()`
unfoldable pub field_of : Bytes → Bytes → Option Value
field_of body k = and_then (to_option (field body k)) λ o. o

-- The closure of `filter_map`.
unfoldable pub peer_entry : Value → Option PeerInfo
unfolding peer_from field_of
peer_entry (raw body) = peer_from (field_of body)
peer_entry v = none

abbrev pub keep : Option PeerInfo → List PeerInfo → List PeerInfo
keep none ps = ps
keep (some p) ps = p ∷ ps

-- `filter_map` over the entries.
unfoldable pub peer_entries : List Value → List PeerInfo
unfolding peer_entry
peer_entries [] = []
peer_entries (v ∷ vs) = keep (peer_entry v) (peer_entries vs)

-- The raw value of a list, or nothing.
unfoldable pub peer_list : Bytes → Bytes → Bytes
unfolding field_of
peer_list netmap k = raw_or_empty (field_of netmap k)

unfoldable pub peers : Bytes → List PeerInfo
unfolding peer_entries peer_list collect_all
peers netmap = peer_entries (
    collect_all (peer_list netmap (codes "Peers"))
    ++ collect_all (peer_list netmap (codes "PeersChanged")))

pub record RegisterResponse : Type 0 where
  pub machine_authorized : Bool
  pub node_key_expired : Bool
  pub auth_url : Bytes
  pub error : Bytes

unfoldable pub is_success : RegisterResponse → Bool
is_success r = length r.error == 0 && length r.auth_url == 0 && not r.node_key_expired

-- The closures `s` and `b`.
abbrev pub text_or_empty : Option Value → Bytes
text_or_empty o = unwrap_or (and_then o as_str) []

abbrev pub flag_or_false : Option Value → Bool
flag_or_false o = unwrap_or (and_then o as_bool) false

unfoldable pub response_from :
    (Bytes → Result JsonError (Option Value)) → Result JsonError RegisterResponse
unfolding as_str as_bool
response_from get = get (codes "MachineAuthorized") >>= λ authorized.
    get (codes "NodeKeyExpired") >>= λ expired. get (codes "AuthURL") >>= λ url.
    get (codes "Error") >>= λ error. ok (record {
      machine_authorized = flag_or_false authorized;
      node_key_expired = flag_or_false expired;
      auth_url = text_or_empty url;
      error = text_or_empty error;
    })

unfoldable pub parse_register_response : Bytes → Result JsonError RegisterResponse
unfolding response_from
parse_register_response body = response_from (field body)

unfoldable pub nested_str : Value → Bytes → Option Bytes
unfolding as_str field_of
nested_str (raw bytes) key = and_then (field_of bytes key) as_str
nested_str v key = none

abbrev pub as_raw : Value → Option Bytes
as_raw (raw inner) = some inner
as_raw v = none

unfoldable pub nested_raw : Value → Bytes → Option Bytes
unfolding field_of
nested_raw (raw bytes) key = and_then (field_of bytes key) as_raw
nested_raw v key = none
