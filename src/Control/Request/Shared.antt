-- ===== src/Control/Request/Shared.antt =====
-- The parts that both requests share: the host information and the lists of endpoints.
use lando.Prelude.{
  ℕ, ◌^◌, ◌<◌, ◌≡◌, refl, sym, subst, Bool, true, false, Option, none, some, List, [], ◌∷◌, ◌++◌,
  All, length, ◌==◌, if◌then◌else◌, arith,
}
use lando.Prelude.Bytes.{Bytes, codes}
use lando.Prelude.Decimal.{decimal, decimal_lem, IsDigit}
use lando.Json.Utf8.{is_utf8, IsAscii, is_utf8-IsAscii}
use lando.Json.Writer.{Method, ◌>>◌, skip, end_object, key, raw_value}
use lando.Json.Doc.{
  Members, number, array, no_members, member, append_members, any_members, strings,
}
use lando.Json.Writer.Texts.{
  Puts, Adds, Closes, key_value-Adds, key_then-Closes, field_str-Adds, field_u64-Adds,
  field_bool-Adds, skip-Adds, >>-Closes, end_object-Closes, object-Puts, raw_value-Puts,
  str_value-Puts, u64_value-Puts, skip-Lists, Lists, >>-Lists, array-Puts,
}
use lando.Control.Request.{
  Hostinfo, with_text, write_region_key, write_seconds, write_strings, string_array, write_numbers,
  number_array, write_latency, write_net_info, write_routable_ips, write_hostinfo,
}
use lando.Control.Request.Spec.{
  numbers, only, when, unless, latency_members, net_info_doc, hostinfo_doc,
}
use mathlib.Core.Path.{fun_ext}

-- After a member another one follows a comma.
any_true : (ms : Members) → any_members true ms ≡ true
any_true no_members = refl
any_true (member k d ms) = refl

pub then-Closes :
    {f g : Method} {ms ns : Members}
    → Adds f true ms
    → Closes g true ns
    → Closes (f >> g) true (append_members ms ns)
then-Closes {f} {g} {ms} {ns} p q = >>-Closes p (subst (λ c. Closes g c ns) (sym (any_true ms)) q)

pub when-Adds :
    {f : Method} {ms : Members} (b : Bool)
    → Adds f true ms
    → Adds (if b then f else skip) true (when b ms)
when-Adds true p = p
when-Adds false p = skip-Adds true

pub unless-Adds :
    {f : Method} {ms : Members} (b : Bool)
    → Adds f true ms
    → Adds (if b then skip else f) true (unless b ms)
unless-Adds true p = skip-Adds true
unless-Adds false p = p

with_text_lem : (t : Bytes) (f : Bytes → Method) → is_utf8 t ≡ true → with_text t f ≡ f t
unfolding with_text
with_text_lem t f e = fun_ext (λ w. rw e refl)

digits-IsAscii : (s : Bytes) → All IsDigit s → All IsAscii s
digits-IsAscii [] h = tt
digits-IsAscii (b ∷ s) (hb, h) = (omega arith, digits-IsAscii s h)

pub append-IsAscii : (s t : Bytes) → All IsAscii s → All IsAscii t → All IsAscii (s ++ t)
append-IsAscii [] t h k = k
append-IsAscii (b ∷ s) t (hb, h) k = (hb, append-IsAscii s t h k)

region-IsAscii : (region : ℕ) → region < 10 ^ 10 → All IsAscii (write_region_key region)
unfolding write_region_key
region-IsAscii region h =
    append-IsAscii (decimal 10 region) (codes "-v4")
      (digits-IsAscii (decimal 10 region) (decimal_lem 10 region h (omega arith)).1) (omega arith)

write_latency-Adds :
    (region : ℕ) (ms : Option ℕ)
    → region < 10 ^ 10
    → Adds (write_latency region ms) true (latency_members region ms)
unfolding write_latency
write_latency-Adds region none h = skip-Adds true
write_latency-Adds region (some ms) h = key_value-Adds (codes "DERPLatency") true (
    object-Puts (
      subst
        (λ f.
          Closes (f >> (raw_value (write_seconds ms) >> end_object)) false
            (only (write_region_key region) (number (write_seconds ms))))
        (sym (
          with_text_lem (write_region_key region) key
            (is_utf8-IsAscii (write_region_key region) (region-IsAscii region h))))
        (key_then-Closes (write_region_key region) false (raw_value-Puts (write_seconds ms))
          (end_object-Closes true))))

write_strings-Lists : (ss : List Bytes) (c : Bool) → Lists (write_strings ss) c (strings ss)
unfolding write_strings
write_strings-Lists [] c = skip-Lists c
write_strings-Lists (s ∷ ss) c = >>-Lists c (str_value-Puts s) (write_strings-Lists ss true)

pub string_array-Puts : (ss : List Bytes) → Puts (string_array ss) (array (strings ss))
unfolding string_array
string_array-Puts ss = array-Puts (write_strings-Lists ss false)

write_numbers-Lists : (ns : List ℕ) (c : Bool) → Lists (write_numbers ns) c (numbers ns)
unfolding write_numbers
write_numbers-Lists [] c = skip-Lists c
write_numbers-Lists (n ∷ ns) c = >>-Lists c (u64_value-Puts n) (write_numbers-Lists ns true)

pub number_array-Puts : (ns : List ℕ) → Puts (number_array ns) (array (numbers ns))
unfolding number_array
number_array-Puts ns = array-Puts (write_numbers-Lists ns false)

net_info_body :
    (h : Hostinfo)
    → h.preferred_derp < 10 ^ 10
    → Adds (write_net_info h) true (only (codes "NetInfo") (net_info_doc h))
unfolding write_net_info
net_info_body h small = key_value-Adds (codes "NetInfo") true (
    object-Puts (
      >>-Closes (field_bool-Adds _ false false) (
        >>-Closes (field_bool-Adds _ false true) (
          >>-Closes (field_bool-Adds _ false true) (
            >>-Closes (field_bool-Adds _ h.working_udp true) (
              >>-Closes (field_bool-Adds _ false true) (
                >>-Closes (field_bool-Adds _ false true) (
                  >>-Closes (field_bool-Adds _ false true) (
                    >>-Closes (field_bool-Adds _ false true) (
                      >>-Closes (field_u64-Adds _ h.preferred_derp true) (
                        then-Closes (write_latency-Adds h.preferred_derp h.derp_latency_ms small)
                          (>>-Closes (field_str-Adds _ _ true) (end_object-Closes true)))))))))))))

routable_ips-Adds :
    (ss : List Bytes)
    → Adds
        (write_routable_ips ss)
        true
        (unless (length ss == 0) (only (codes "RoutableIPs") (array (strings ss))))
unfolding write_routable_ips
routable_ips-Adds ss =
    unless-Adds (length ss == 0) (key_value-Adds (codes "RoutableIPs") true (string_array-Puts ss))

pub write_hostinfo-Puts :
    (h : Hostinfo) → h.preferred_derp < 10 ^ 10 → Puts (write_hostinfo h) (hostinfo_doc h)
unfolding write_hostinfo
write_hostinfo-Puts h small = object-Puts (
    >>-Closes (field_str-Adds _ h.ipn_version false) (
      >>-Closes (field_str-Adds _ h.os true) (
        then-Closes (unless-Adds (length h.os_version == 0) (field_str-Adds _ h.os_version true)) (
          >>-Closes (field_str-Adds _ h.hostname true) (
            >>-Closes (field_str-Adds _ h.machine true) (
              then-Closes (unless-Adds (h.preferred_derp == 0) (net_info_body h small))
                (then-Closes (routable_ips-Adds h.routable_ips) (end_object-Closes true))))))))
