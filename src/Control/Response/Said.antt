-- ===== src/Control/Response/Said.antt =====
-- The code's accessors on the members of a printed object, against what the members say.
use lando.Prelude.{
  ℕ, ◌+◌, ◌-◌, ◌*◌, ◌^◌, ◌<◌, ◌≤◌, ◌≡◌, refl, ap, ◌∙◌, inl, inr, Bool, true, Bool-cases, ◌&&◌,
  Option, none, some, [], ◌∷◌, length, take, drop, ltb, ◌==◌, if◌then◌else◌, arith,
}
use lando.Prelude.Bytes.{Bytes, codes, eq_bytes, strip_prefix}
use lando.Prelude.Decimal.{value_from}
use lando.Key
use lando.Key.{node, disco}
use lando.Json.Doc.{Doc, Members, str, number, bool, null, object, array, print}
use lando.Json.Doc
use lando.Json.Reader.{Value, as_str, as_bool}
use lando.Json.Reader.Printed.{value_of}
use lando.Control.Response.{
  PeerInfo, digits_u32, parse_u32, derp_region, and_then, to_option, number_u32, raw_or_empty,
  text_or_empty, flag_or_false, unwrap_or, or_else,
}
use lando.Control.Response.{peer_with, peer_from, response_from}
use lando.Control.Response.Spec.{
  text_of, text_said, is_said, list_said, are_digits, number_said, after_address, region_of_text,
  region_said, first_of, disco_said, peer_as, peer_said, outcome_said,
}
use lando.Prelude.{ok}
use mathlib.Core.Path.{fun_ext}

-- The code's accessors on the value of a member.
abbrev pub map_value : Option Doc → Option Value
map_value none = none
map_value (some d) = some (value_of d)

pub as_str-value : (o : Option Doc) → and_then (map_value o) as_str ≡ text_of o
unfolding as_str value_of
as_str-value none = refl
as_str-value (some (str s)) = refl
as_str-value (some (number t)) = refl
as_str-value (some (bool b)) = refl
as_str-value (some null) = refl
as_str-value (some (object ms)) = refl
as_str-value (some (array xs)) = refl

pub text_or_empty-value : (o : Option Doc) → text_or_empty (map_value o) ≡ text_said o
unfolding as_str value_of
text_or_empty-value none = refl
text_or_empty-value (some (str s)) = refl
text_or_empty-value (some (number t)) = refl
text_or_empty-value (some (bool b)) = refl
text_or_empty-value (some null) = refl
text_or_empty-value (some (object ms)) = refl
text_or_empty-value (some (array xs)) = refl

pub flag_or_false-value : (o : Option Doc) → flag_or_false (map_value o) ≡ is_said o
unfolding as_bool value_of
flag_or_false-value none = refl
flag_or_false-value (some (str s)) = refl
flag_or_false-value (some (number t)) = refl
flag_or_false-value (some (bool b)) = refl
flag_or_false-value (some null) = refl
flag_or_false-value (some (object ms)) = refl
flag_or_false-value (some (array xs)) = refl

pub raw_or_empty-value :
    (o p : Option Doc)
    → raw_or_empty (or_else (map_value o) (map_value p)) ≡ list_said (first_of o p)
unfolding value_of
raw_or_empty-value none none = refl
raw_or_empty-value none (some (str s)) = refl
raw_or_empty-value none (some (number t)) = refl
raw_or_empty-value none (some (bool b)) = refl
raw_or_empty-value none (some null) = refl
raw_or_empty-value none (some (object ms)) = refl
raw_or_empty-value none (some (array xs)) = refl
raw_or_empty-value (some (str s)) p = refl
raw_or_empty-value (some (number t)) p = refl
raw_or_empty-value (some (bool b)) p = refl
raw_or_empty-value (some null) p = refl
raw_or_empty-value (some (object ms)) p = refl
raw_or_empty-value (some (array xs)) p = refl

le-value_from : (n : ℕ) (s : Bytes) → n ≤ value_from n s
le-value_from n [] = omega arith
le-value_from n (c ∷ s) = omega (arith, le-value_from (n * 10 + (c - b'0')) s)

digits_u32_lem :
    (n : ℕ) (s : Bytes)
    → n < 2 ^ 32
    → digits_u32 n s
      ≡ (if are_digits s && ltb (value_from n s) (2 ^ 32) then some (value_from n s) else none)
unfolding digits_u32
digits_u32_lem n [] h = let fits : ltb n (2 ^ 32) ≡ true = ground arith in rw fits refl
digits_u32_lem n (c ∷ s) h =
    let m = n * 10 + (c - b'0') in ground (arith, le-value_from m s, digits_u32_lem m s)

parse_u32_lem : (s : Bytes) → parse_u32 s ≡ number_said s
unfolding parse_u32
parse_u32_lem [] = refl
parse_u32_lem (c ∷ []) = digits_u32_lem 0 (c ∷ []) (omega arith)
parse_u32_lem (c ∷ d ∷ s) = digits_u32_lem 0 (if c == b'+' then d ∷ s else c ∷ d ∷ s) (omega arith)

strip_prefix_lem :
    (p s : Bytes)
    → strip_prefix p s ≡ (if eq_bytes (take (length p) s) p then some (drop (length p) s) else none)
unfolding strip_prefix eq_bytes
strip_prefix_lem [] [] = refl
strip_prefix_lem [] (c ∷ s) = refl
strip_prefix_lem (b ∷ p) [] = refl
strip_prefix_lem (b ∷ p) (c ∷ s) = ground (arith, strip_prefix_lem p s)

derp_region_lem : (s : Bytes) → derp_region s ≡ after_address s
unfolding derp_region
derp_region_lem s = elim (Bool-cases (eq_bytes (take 11 s) (codes "127.3.3.40:"))) [
  | inl e ↦
      ap (λ o. and_then o parse_u32) (strip_prefix_lem (codes "127.3.3.40:") s)
      ∙ rw e (parse_u32_lem (drop 11 s))
  | inr e ↦ ap (λ o. and_then o parse_u32) (strip_prefix_lem (codes "127.3.3.40:") s) ∙ rw e refl
]

number_u32-or : (x y : Option ℕ) → unwrap_or (or_else x y) 0 ≡ unwrap_or x (unwrap_or y 0)
number_u32-or none y = refl
number_u32-or (some n) y = refl

derp-value :
    (p : Option Doc)
    → unwrap_or (and_then (map_value p) λ v. and_then (as_str v) derp_region) 0 ≡ region_of_text p
unfolding value_of as_str
derp-value none = refl
derp-value (some (str s)) = ap (λ o. unwrap_or o 0) (derp_region_lem (Doc.escaped s))
derp-value (some (number t)) = refl
derp-value (some (bool b)) = refl
derp-value (some null) = refl
derp-value (some (object ms)) = refl
derp-value (some (array xs)) = refl

number_first :
    (o p : Option Doc)
    → unwrap_or (and_then (map_value o) number_u32) (region_of_text p) ≡ region_said o p
unfolding value_of
number_first none p = refl
number_first (some (str s)) p = refl
number_first (some (number t)) p = ap (λ n. unwrap_or n (region_of_text p)) (parse_u32_lem t)
number_first (some (bool b)) p = refl
number_first (some null) p = refl
number_first (some (object ms)) p = refl
number_first (some (array xs)) p = refl

home_derp-value :
    (o p : Option Doc)
    → unwrap_or
        (or_else
          (and_then (map_value o) number_u32)
          (and_then (map_value p) λ v. and_then (as_str v) derp_region))
        0
      ≡ region_said o p
home_derp-value o p =
    number_u32-or (and_then (map_value o) number_u32)
      (and_then (map_value p) λ v. and_then (as_str v) derp_region)
    ∙ ap (unwrap_or (and_then (map_value o) number_u32)) (derp-value p)
    ∙ number_first o p

disco_key-value :
    (o : Option Doc)
    → and_then (and_then (map_value o) as_str) (λ s. to_option (Key.parse disco s)) ≡ disco_said o
unfolding value_of as_str
disco_key-value none = refl
disco_key-value (some (str s)) = refl
disco_key-value (some (number t)) = refl
disco_key-value (some (bool b)) = refl
disco_key-value (some null) = refl
disco_key-value (some (object ms)) = refl
disco_key-value (some (array xs)) = refl

abbrev peer_of_parts : Bytes → Option Bytes → ℕ → Bool → Bytes → PeerInfo
peer_of_parts key d h o a = record {
  node_key = key;
  disco_key = d;
  home_derp = h;
  online = o;
  allowed_ips = a;
}

peer_with-value :
    (said : Bytes → Option Doc) (key : Bytes)
    → peer_with (λ k. map_value (said k)) key ≡ peer_as said key
unfolding peer_with
peer_with-value said key =
    let d = disco_key-value (said (codes "DiscoKey")) in
    let h = home_derp-value (said (codes "HomeDERP")) (said (codes "DERP")) in
    let o = flag_or_false-value (said (codes "Online")) in
    let a = raw_or_empty-value (said (codes "AllowedIPs")) (said (codes "Addresses")) in
    ap
      (peer_of_parts key
        (and_then (and_then (map_value (said (codes "DiscoKey"))) as_str)
          (λ s. to_option (Key.parse disco s)))
        (unwrap_or
          (or_else (and_then (map_value (said (codes "HomeDERP"))) number_u32)
            (and_then (map_value (said (codes "DERP"))) λ v. and_then (as_str v) derp_region))
          0)
        (flag_or_false (map_value (said (codes "Online")))))
      a
    ∙ rw (d, h, o) refl

-- The peer of an object, and the outcome of a registration, as the code reads them.
pub peer_from-value :
    (said : Bytes → Option Doc) → peer_from (λ k. map_value (said k)) ≡ peer_said said
unfolding peer_from
peer_from-value said =
    let get = λ (k : Bytes). map_value (said k) in
    ap (λ t. and_then t λ s. and_then (to_option (Key.parse node s)) λ k. some (peer_with get k))
      (as_str-value (said (codes "Key")))
    ∙ ap
        (λ (f : Bytes → PeerInfo).
          and_then (text_of (said (codes "Key")))
            λ s. and_then (to_option (Key.parse node s)) λ k. some (f k))
        (fun_ext (peer_with-value said))

pub response_from-value :
    (said : Bytes → Option Doc)
    → response_from (λ k. ok (map_value (said k))) ≡ ok (outcome_said said)
unfolding response_from
response_from-value said =
    rw
      (
        flag_or_false-value (said (codes "MachineAuthorized")),
        flag_or_false-value (said (codes "NodeKeyExpired")),
        text_or_empty-value (said (codes "AuthURL")),
        text_or_empty-value (said (codes "Error")),
      )
      refl
