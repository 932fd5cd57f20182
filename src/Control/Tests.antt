-- ===== src/Control/Tests.antt =====
-- The control protocol's requests and frames at concrete inputs.
use lando.Prelude.{
  ◌+◌, ◌*◌, ltb, length, if◌then◌else◌, ◌%◌, ◌≡◌, refl, true, false, none, some, List, [], ◌∷◌,
  ◌++◌, All, take, drop, replicate, ok, arith,
}
use lando.Prelude.Bytes.{Bytes, codes, eq_bytes, strip_prefix}
use lando.Prelude.Decimal.{value_from, IsDigit}
use lando.Control.Request.{
  Hostinfo, default_hostinfo, Register, MapRequest, write_seconds, write_register_request,
  write_map_request,
}
use lando.Control.Request.Spec.{register_doc, map_doc}
use lando.Control.Request.Prints.{printed, write_register_request_lem, write_map_request_lem}
use lando.Control.Request.Seconds.{write_seconds_lem}
use lando.Prelude.Decimal.{decimal}
use lando.Json.Utf8.{is_utf8}
use lando.Json.Doc.{
  Members, str, bool, null, object, array, no_members, member, no_items, item, print,
}
use lando.Json.Reader.Nested.{FineMembers}
use lando.Json.Reader.{raw, field}
use lando.Control.Response.{
  is_success, nested_str, nested_raw, peers, parse_register_response, derp_region,
}
use lando.Control.Response.Printed.{
  find_doc, items_of, peers_of, peers-print, parse_register_response-print,
}
use lando.Control.Response.Spec.{outcome_said}
use lando.Control.Response.Regions.{derp_region-decimal}
use lando.Control.Frames.{new_frames, parse_early_payload, present, incomplete}
use lando.Control.Frames.Stream.{frames_events}
use lando.Control.Frames.Early.{framed_early, parse_early_payload-take}
use lando.Control.Frames.Pieces.{feed_pieces, feed_pieces-encode_frames, feed_pieces-pieces}

abbrev hostinfo : Hostinfo
hostinfo = record default_hostinfo {
  routable_ips = codes "10.0.0.0/8" ∷ [];
  preferred_derp = 12;
  derp_latency_ms = some 55;
}

abbrev registration : Register
registration = record {
  capability_version = 145;
  node_key = replicate 32 5;
  auth_key = some (codes "tskey-\"x\"");
  followup = none;
  hostinfo = hostinfo;
  ephemeral = true;
}

abbrev poll : MapRequest
poll = record {
  capability_version = 145;
  node_key = replicate 32 5;
  disco_key = replicate 32 7;
  hostinfo = hostinfo;
  stream = true;
  keep_alive = true;
  omit_peers = false;
  endpoints = codes "192.168.1.7:41641" ∷ [];
  endpoint_types = 1 ∷ [];
}

write_register_request_lem_example :
    write_register_request (replicate 1024 0) registration
    ≡ printed (register_doc registration) (replicate 1024 0)
write_register_request_lem_example =
    write_register_request_lem (replicate 1024 0) registration refl (omega arith)

write_map_request_lem_example :
    write_map_request (replicate 100 0) poll ≡ printed (map_doc poll) (replicate 100 0)
write_map_request_lem_example = write_map_request_lem (replicate 100 0) poll refl refl (omega arith)

write_seconds_lem_example :
    (value_from 0 (take 1 (write_seconds 12345)) * 1000
        + value_from 0 (drop 2 (write_seconds 12345))
      ≡ 12345 % 10000)
    × All IsDigit (take 1 (write_seconds 12345))
    × (take 1 (drop 1 (write_seconds 12345)) ≡ b'.' ∷ [])
    × All IsDigit (drop 2 (write_seconds 12345))
write_seconds_lem_example = write_seconds_lem 12345

-- A keep-alive and two frames, in pieces that break lengths and bodies.
abbrev bodies : List Bytes
bodies = codes "{}" ∷ [] ∷ codes "{\"a\":1}" ∷ []

abbrev pieces : List Bytes
pieces =
    (2 ∷ 0 ∷ [])
    ∷ (0 ∷ 0 ∷ b'{' ∷ [])
    ∷ (b'}' ∷ 0 ∷ 0 ∷ 0 ∷ 0 ∷ 7 ∷ [])
    ∷ []
    ∷ (0 ∷ 0 ∷ 0 ∷ codes "{\"a\"")
    ∷ codes ":1}"
    ∷ []

feed_pieces-encode_frames_example : (feed_pieces new_frames pieces).1 ≡ frames_events bodies
feed_pieces-encode_frames_example = feed_pieces-encode_frames bodies pieces (omega arith) refl

feed_pieces-pieces_run :
    (feed_pieces new_frames ((2 ∷ 0 ∷ []) ∷ (0 ∷ 0 ∷ b'{' ∷ []) ∷ [])).1
    ≡ (feed_pieces new_frames ((2 ∷ 0 ∷ 0 ∷ 0 ∷ b'{' ∷ []) ∷ [])).1
feed_pieces-pieces_run =
    feed_pieces-pieces ((2 ∷ 0 ∷ []) ∷ (0 ∷ 0 ∷ b'{' ∷ []) ∷ []) ((2 ∷ 0 ∷ 0 ∷ 0 ∷ b'{' ∷ []) ∷ [])
      refl

early_run :
    parse_early_payload ((0xff ∷ 0xff ∷ 0xff ∷ b'T' ∷ b'S' ∷ 0 ∷ 0 ∷ 0 ∷ 2 ∷ []) ++ codes "{}PRI")
    ≡ present 11 (codes "{}")
unfolding parse_early_payload
early_run = refl

early_cut_run : parse_early_payload (0xff ∷ 0xff ∷ []) ≡ incomplete
unfolding parse_early_payload
early_cut_run = refl

parse_early_payload-take_run :
    parse_early_payload (take 13 (framed_early (codes "{\"n\":1}") ++ codes "PRI")) ≡ (
      if ltb 13 (9 + length (codes "{\"n\":1}"))
      then incomplete
      else present (9 + length (codes "{\"n\":1}")) (codes "{\"n\":1}"))
parse_early_payload-take_run =
    parse_early_payload-take (codes "{\"n\":1}") (codes "PRI") 13 (omega arith)

-- A map with a peer in each list, and an entry that is no peer.
abbrev peer_node : Members
peer_node = member (codes "Addresses") (array (item (str (codes "100.64.0.2/32")) no_items)) (
    member (codes "Key")
      (str (codes "nodekey:0505050505050505050505050505050505050505050505050505050505050505"))
      (member (codes "DERP") (str (codes "127.3.3.40:12"))
        (member (codes "Online") (bool true) no_members)))

abbrev netmap : Members
netmap = member (codes "Domain") (object (member (codes "Peers") null no_members)) (
    member (codes "PeersChanged") (array (item (object peer_node) no_items))
      (member (codes "Peers") (array (item null (item (object peer_node) no_items))) no_members))

peer_node-Fine : FineMembers peer_node
unfolding is_utf8
peer_node-Fine = (refl, (refl, tt), (refl, refl, (refl, refl, (refl, tt, tt))))

netmap-Fine : FineMembers netmap
unfolding is_utf8
netmap-Fine =
    (refl, (refl, tt, tt), (refl, (peer_node-Fine, tt), (refl, (tt, (peer_node-Fine, tt)), tt)))

peers-print_example :
    peers (print (object netmap))
    ≡ peers_of (items_of (find_doc netmap (codes "Peers")))
      ++ peers_of (items_of (find_doc netmap (codes "PeersChanged")))
peers-print_example = peers-print netmap netmap-Fine

parse_register_response-print_example :
    parse_register_response (print (object peer_node)) ≡ ok (outcome_said (find_doc peer_node))
parse_register_response-print_example = parse_register_response-print peer_node peer_node-Fine

region_run : derp_region (codes "127.3.3.40:" ++ decimal 10 12) ≡ some 12
region_run = derp_region-decimal 12 (omega arith)

outcome_run :
    parse_register_response
      (codes "{\"AuthURL\":\"\",\"NodeKeyExpired\":false,\"MachineAuthorized\":true}")
    ≡ ok (record { machine_authorized = true; node_key_expired = false; auth_url = []; error = [] })
unfolding parse_register_response is_utf8 eq_bytes strip_prefix field
outcome_run = refl

success_run :
    is_success
      (record { machine_authorized = true; node_key_expired = false; auth_url = []; error = [] })
    ≡ true
unfolding is_success
success_run = refl

nested_run : nested_str (raw (codes "{\"b\":\"x\"}")) (codes "b") ≡ some (codes "x")
unfolding nested_str field is_utf8 eq_bytes strip_prefix
nested_run = refl

nested_raw_run : nested_raw (raw (codes "{\"b\":[1]}")) (codes "b") ≡ some (codes "[1]")
unfolding nested_raw field is_utf8 eq_bytes strip_prefix
nested_raw_run = refl
