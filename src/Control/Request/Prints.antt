-- ===== src/Control/Request/Prints.antt =====
-- The requests, byte for byte: the text of the values in Spec, wherever there is room for it.
use lando.Prelude.{
  ℕ, ◌+◌, ◌*◌, ◌/◌, ◌%◌, ◌^◌, ◌<◌, ◌≤◌, ◌≡◌, refl, ap, ap₂, ◌∙◌, Bool, true, false, Option, none,
  some, List, [], ◌∷◌, All, length, replicate, ◌==◌, leb, if◌then◌else◌, ok, err, over, take-over,
  length-append, arith,
}
use lando.Prelude.Bytes.{Bytes, codes}
use lando.Key.{KeyKind, machine, node, disco, key_len, prefix, hex_digits}
use lando.Key.Hex.{hex_of, length-hex_of}
use lando.Key.RoundTrip.{key_text, write_lem}
use lando.Json.{short_buffer, malformed}
use lando.Json.Utf8.{is_utf8, IsAscii, is_utf8-IsAscii, get_or-IsAscii}
use lando.Json.Writer.{Writer, new_writer, Method}
use lando.Json.Doc.{Doc, array, print}
use lando.Json.Writer.Emits.{after, wrote}
use lando.Json.Writer.Texts.{
  Puts, Adds, key_value-Adds, key_then-Closes, key_then-Adds, field_str-Adds, field_u64-Adds,
  field_bool-Adds, skip-Adds, >>-Closes, end_object-Closes, object-Puts,
}
use lando.Control.Request.{
  Hostinfo, Register, MapRequest, key_slice, key_string, write_auth, write_followup, register_calls,
  Written, finish, register_with, map_with, write_register_request, write_endpoint_types,
  write_endpoints, map_calls, write_map_request,
}
use lando.Control.Request.Spec.{
  numbers, only, unless, auth_members, followup_members, register_doc, endpoint_members, map_doc,
}
use lando.Control.Request.Shared.{
  then-Closes, when-Adds, unless-Adds, append-IsAscii, string_array-Puts, number_array-Puts,
  write_hostinfo-Puts,
}

hex_of-IsAscii : (k : Bytes) → All IsAscii (hex_of k)
hex_of-IsAscii [] = tt
hex_of-IsAscii (b ∷ k) = (
  get_or-IsAscii hex_digits (b / 16) (omega arith),
  (get_or-IsAscii hex_digits (b % 16) (omega arith), hex_of-IsAscii k),
)

prefix_fits : (kind : KeyKind) → (length (prefix kind) ≤ 9) × All IsAscii (prefix kind)
prefix_fits machine = omega arith
prefix_fits node = omega arith
prefix_fits disco = omega arith

key_string_lem :
    (kind : KeyKind) (k : Bytes) → length k ≡ key_len → key_string kind k ≡ ok (key_text kind k)
unfolding key_string key_slice
key_string_lem kind k e =
    let blank = replicate {A = ℕ} 80 0 in
    let n = length (prefix kind) + key_len * 2 in
    let size : n ≡ length (key_text kind k) =
      omega (arith, length-append (prefix kind) (hex_of k), length-hex_of k) in
    let text = take-over (key_text kind k) blank n size in
    let ascii = append-IsAscii (prefix kind) (hex_of k) (prefix_fits kind).1 (hex_of-IsAscii k) in
    ap (λ r. key_slice r.0 r.1) (write_lem kind k blank e (omega (arith, prefix_fits kind)))
    ∙ ap (λ t. if is_utf8 t then ok t else err malformed) text
    ∙ ap (λ b. if b then ok (key_text kind k) else err malformed)
        (is_utf8-IsAscii (key_text kind k) ascii)

auth-Adds : (auth : Option Bytes) → Adds (write_auth auth) true (auth_members auth)
unfolding write_auth
auth-Adds none = skip-Adds true
auth-Adds (some auth) =
    key_value-Adds (codes "Auth") true (
      object-Puts
        (>>-Closes (field_str-Adds (codes "AuthKey") auth false) (end_object-Closes true)))

followup-Adds : (url : Option Bytes) → Adds (write_followup url) true (followup_members url)
unfolding write_followup
followup-Adds none = skip-Adds true
followup-Adds (some url) = field_str-Adds (codes "Followup") url true

-- A `u32`.
abbrev pub HasRegion : Hostinfo → Type 0
HasRegion h = h.preferred_derp < 2 ^ 32

register_calls-Puts :
    (r : Register)
    → HasRegion r.hostinfo
    → Puts (register_calls r (key_text node r.node_key)) (register_doc r)
unfolding register_calls
register_calls-Puts r small = object-Puts (
    >>-Closes (field_u64-Adds (codes "Version") r.capability_version false) (
      >>-Closes (field_str-Adds (codes "NodeKey") (key_text node r.node_key) true) (
        then-Closes (auth-Adds r.auth_key) (
          then-Closes (followup-Adds r.followup) (
            key_then-Closes (codes "Hostinfo") true (write_hostinfo-Puts r.hostinfo (omega arith)) (
              then-Closes (when-Adds r.ephemeral (field_bool-Adds (codes "Ephemeral") true true))
                (end_object-Closes true)))))))

-- A request that is the text of `d`, in a buffer with room for it.
abbrev pub printed : Doc → Bytes → Written
printed d out =
    if leb (length (print d)) (length out)
    then ok (over (print d) out, length (print d))
    else err short_buffer

finish-Puts :
    (f : Method) (d : Doc) (out : Bytes) → Puts f d → finish (f (new_writer out)) ≡ printed d out
unfolding wrote
finish-Puts f d out p =
    ap finish ((p.emits false).runs [] out (omega arith))
    ∙ branch (leb (length (print d)) (length out)) (after (print d) out true)
  where
    branch :
        (b : Bool) (w : Writer)
        → finish (if b then ok w else err short_buffer)
          ≡ (if b then ok (w.buf, w.pos) else err short_buffer)
    branch true w = refl
    branch false w = refl

-- The registration request is the text of its JSON value, where the buffer has room for it, and is
-- refused as too long where it has not. (The node key is 32 bytes and the relay's number a `u32`.)
pub write_register_request_lem :
    (out : Bytes) (r : Register)
    → length r.node_key ≡ key_len
    → HasRegion r.hostinfo
    → write_register_request out r ≡ printed (register_doc r) out
unfolding write_register_request
write_register_request_lem out r e small =
    ap (register_with out r) (key_string_lem node r.node_key e)
    ∙ (finish-Puts (register_calls r (key_text node r.node_key)) (register_doc r) out
        (register_calls-Puts r small))

endpoint_types-Adds :
    (types : List ℕ)
    → Adds
        (write_endpoint_types types)
        true
        (unless (length types == 0) (only (codes "EndpointTypes") (array (numbers types))))
unfolding write_endpoint_types
endpoint_types-Adds types =
    unless-Adds (length types == 0)
      (key_value-Adds (codes "EndpointTypes") true (number_array-Puts types))

endpoints-Adds : (r : MapRequest) → Adds (write_endpoints r) true (endpoint_members r)
unfolding write_endpoints
endpoints-Adds r = unless-Adds (length r.endpoints == 0) (
    key_then-Adds (codes "Endpoints") true (string_array-Puts r.endpoints)
      (endpoint_types-Adds r.endpoint_types))

map_calls-Puts :
    (r : MapRequest)
    → HasRegion r.hostinfo
    → Puts (map_calls r (key_text node r.node_key) (key_text disco r.disco_key)) (map_doc r)
unfolding map_calls
map_calls-Puts r small = object-Puts (
    >>-Closes (field_u64-Adds (codes "Version") r.capability_version false) (
      >>-Closes (field_str-Adds (codes "Compress") [] true) (
        >>-Closes (field_bool-Adds (codes "KeepAlive") r.keep_alive true) (
          >>-Closes (field_str-Adds (codes "NodeKey") (key_text node r.node_key) true) (
            >>-Closes (field_str-Adds (codes "DiscoKey") (key_text disco r.disco_key) true) (
              then-Closes (when-Adds r.stream (field_bool-Adds (codes "Stream") true true)) (
                then-Closes (when-Adds r.omit_peers (field_bool-Adds (codes "OmitPeers") true true))
                  (then-Closes (endpoints-Adds r) (
                    key_then-Closes (codes "Hostinfo") true
                      (write_hostinfo-Puts r.hostinfo (omega arith))
                      (end_object-Closes true))))))))))

-- The map request is the text of its JSON value, where the buffer has room for it, and is refused as
-- too long where it has not. (The two keys are 32 bytes and the relay's number a `u32`.)
pub write_map_request_lem :
    (out : Bytes) (r : MapRequest)
    → length r.node_key ≡ key_len
    → length r.disco_key ≡ key_len
    → HasRegion r.hostinfo
    → write_map_request out r ≡ printed (map_doc r) out
unfolding write_map_request
write_map_request_lem out r e d small =
    ap₂ (map_with out r) (key_string_lem node r.node_key e) (key_string_lem disco r.disco_key d)
    ∙ (finish-Puts (map_calls r (key_text node r.node_key) (key_text disco r.disco_key)) (map_doc r)
        out (map_calls-Puts r small))
