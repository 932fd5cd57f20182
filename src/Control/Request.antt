-- ===== src/Control/Request.antt =====
-- The requests for registration and for the map, as the code writes them.
pub mod Spec
mod Shared
pub mod Seconds
pub mod Prints
use lando.Prelude.{
  ℕ, zero, suc, ◌+◌, ◌/◌, ◌%◌, Bool, true, false, not, Option, none, some, List, [], ◌∷◌, ◌++◌,
  length, take, replicate, ◌==◌, if◌then◌else◌, Result, ok, err,
}
use lando.Prelude.Bytes.{Bytes, codes}
use lando.Prelude.Decimal.{decimal}
use lando.Key.{KeyError, KeyKind, node, disco, write}
use lando.Json.{JsonError, short_buffer, malformed}
use lando.Json.Utf8.{is_utf8}
use lando.Json.Writer.{
  Writer, new_writer, Method, ◌>>◌, skip, begin_object, end_object, begin_array, end_array, key,
  str_value, raw_value, u64_value, field_str, field_u64, field_bool,
}

pub record Hostinfo : Type 0 where
  pub hostname : Bytes
  pub ipn_version : Bytes
  pub os : Bytes
  pub os_version : Bytes
  pub machine : Bytes
  pub routable_ips : List Bytes
  pub preferred_derp : ℕ
  pub derp_latency_ms : Option ℕ
  pub working_udp : Bool

abbrev pub default_hostinfo : Hostinfo
default_hostinfo = record {
  hostname = codes "lando";
  ipn_version = codes "1.98.9";
  os = codes "linux";
  os_version = [];
  machine = codes "thumbv8m";
  routable_ips = [];
  preferred_derp = 0;
  derp_latency_ms = none;
  working_udp = false;
}

-- The methods that follow, `core::str::from_utf8` on the bytes before them.
unfoldable pub with_text : Bytes → (Bytes → Method) → Method
with_text text f w = if is_utf8 text then f text w else err malformed

-- A region has at most ten digits.
unfoldable pub write_region_key : ℕ → Bytes
unfolding decimal
write_region_key region = decimal 10 region ++ codes "-v4"

unfoldable pub write_seconds : ℕ → Bytes
write_seconds ms =
    let whole = ms / 1000 in
    let frac = ms % 1000 in
    (b'0' + whole % 10)
    ∷ b'.'
    ∷ (b'0' + frac / 100)
    ∷ (b'0' + (frac / 10) % 10)
    ∷ (b'0' + frac % 10)
    ∷ []

-- `for s in list { w.str_value(s)? }`
unfoldable pub write_strings : List Bytes → Method
write_strings [] = skip
write_strings (s ∷ ss) = do str_value s; write_strings ss

unfoldable pub string_array : List Bytes → Method
unfolding write_strings
string_array ss = do begin_array; write_strings ss; end_array

unfoldable pub write_numbers : List ℕ → Method
write_numbers [] = skip
write_numbers (n ∷ ns) = do u64_value n; write_numbers ns

unfoldable pub number_array : List ℕ → Method
unfolding write_numbers
number_array ns = do begin_array; write_numbers ns; end_array

unfoldable pub write_latency : ℕ → Option ℕ → Method
unfolding write_region_key write_seconds with_text
write_latency region none = skip
write_latency region (some ms) = do
  key (codes "DERPLatency")
  begin_object
  with_text (write_region_key region) key
  raw_value (write_seconds ms)
  end_object

unfoldable pub write_net_info : Hostinfo → Method
unfolding write_latency
write_net_info h = do
  key (codes "NetInfo")
  begin_object
  field_bool (codes "MappingVariesByDestIP") false
  field_bool (codes "WorkingIPv6") false
  field_bool (codes "OSHasIPv6") false
  field_bool (codes "WorkingUDP") h.working_udp
  field_bool (codes "HavePortMap") false
  field_bool (codes "UPnP") false
  field_bool (codes "PMP") false
  field_bool (codes "PCP") false
  field_u64 (codes "PreferredDERP") h.preferred_derp
  write_latency h.preferred_derp h.derp_latency_ms
  field_str (codes "LinkType") (codes "wifi")
  end_object

unfoldable pub write_routable_ips : List Bytes → Method
unfolding string_array
write_routable_ips cidrs =
    if length cidrs == 0 then skip else key (codes "RoutableIPs") >> string_array cidrs

-- `Hostinfo::write`
unfoldable pub write_hostinfo : Hostinfo → Method
unfolding write_net_info write_routable_ips
write_hostinfo h = do
  begin_object
  field_str (codes "IPNVersion") h.ipn_version
  field_str (codes "OS") h.os
  if length h.os_version == 0 then skip else field_str (codes "OSVersion") h.os_version
  field_str (codes "Hostname") h.hostname
  field_str (codes "Machine") h.machine
  if h.preferred_derp == 0 then skip else write_net_info h
  write_routable_ips h.routable_ips
  end_object

pub record Register : Type 0 where
  pub capability_version : ℕ
  pub node_key : Bytes
  pub auth_key : Option Bytes
  pub followup : Option Bytes
  pub hostinfo : Hostinfo
  pub ephemeral : Bool

unfoldable pub key_slice : Bytes → Result KeyError ℕ → Result JsonError Bytes
key_slice out (ok n) = if is_utf8 (take n out) then ok (take n out) else err malformed
key_slice out (err e) = err short_buffer

-- A key in a buffer of 80 bytes, as text: `short_buffer` where it would not fit.
unfoldable pub key_string : KeyKind → Bytes → Result JsonError Bytes
unfolding write key_slice
key_string kind k = key_slice (write kind k (replicate 80 0)).0 (write kind k (replicate 80 0)).1

unfoldable pub write_auth : Option Bytes → Method
write_auth none = skip
write_auth (some auth) = do
  key (codes "Auth")
  begin_object
  field_str (codes "AuthKey") auth
  end_object

unfoldable pub write_followup : Option Bytes → Method
write_followup none = skip
write_followup (some url) = field_str (codes "Followup") url

-- The calls of the writer in `write_register_request`.
unfoldable pub register_calls : Register → Bytes → Method
unfolding write_auth write_followup write_hostinfo
register_calls req key_str = do
  begin_object
  field_u64 (codes "Version") req.capability_version
  field_str (codes "NodeKey") key_str
  write_auth req.auth_key
  write_followup req.followup
  key (codes "Hostinfo")
  write_hostinfo req.hostinfo
  if req.ephemeral then field_bool (codes "Ephemeral") true else skip
  end_object

-- The buffer with the request, and its length.
abbrev pub Written : Type 0
Written = Result JsonError (Bytes × ℕ)

abbrev pub finish : Result JsonError Writer → Written
finish (ok w) = ok (w.buf, w.pos)
finish (err e) = err e

-- With the key's text.
abbrev pub register_with : Bytes → Register → Result JsonError Bytes → Written
register_with out req (ok key_str) = finish (register_calls req key_str (new_writer out))
register_with out req (err e) = err e

unfoldable pub write_register_request : Bytes → Register → Written
write_register_request out req = register_with out req (key_string node req.node_key)

pub record MapRequest : Type 0 where
  pub capability_version : ℕ
  pub node_key : Bytes
  pub disco_key : Bytes
  pub hostinfo : Hostinfo
  pub stream : Bool
  pub keep_alive : Bool
  pub omit_peers : Bool
  pub endpoints : List Bytes
  pub endpoint_types : List ℕ

unfoldable pub write_endpoint_types : List ℕ → Method
unfolding number_array
write_endpoint_types types =
    if length types == 0 then skip else key (codes "EndpointTypes") >> number_array types

unfoldable pub write_endpoints : MapRequest → Method
unfolding string_array write_endpoint_types
write_endpoints req =
    if length req.endpoints == 0
    then skip
    else key (codes "Endpoints")
      >> (string_array req.endpoints >> write_endpoint_types req.endpoint_types)

-- The calls of the writer in `write_map_request`.
unfoldable pub map_calls : MapRequest → Bytes → Bytes → Method
unfolding write_endpoints write_hostinfo
map_calls req node_str disco_str = do
  begin_object
  field_u64 (codes "Version") req.capability_version
  field_str (codes "Compress") []
  field_bool (codes "KeepAlive") req.keep_alive
  field_str (codes "NodeKey") node_str
  field_str (codes "DiscoKey") disco_str
  if req.stream then field_bool (codes "Stream") true else skip
  if req.omit_peers then field_bool (codes "OmitPeers") true else skip
  write_endpoints req
  key (codes "Hostinfo")
  write_hostinfo req.hostinfo
  end_object

-- With the keys' texts.
abbrev pub map_with : Bytes → MapRequest → Result JsonError Bytes → Result JsonError Bytes → Written
map_with out req (ok node_str) (ok disco_str) =
    finish (map_calls req node_str disco_str (new_writer out))
map_with out req (ok node_str) (err e) = err e
map_with out req (err e) disco_str = err e

unfoldable pub write_map_request : Bytes → MapRequest → Written
write_map_request out req =
    map_with out req (key_string node req.node_key) (key_string disco req.disco_key)
