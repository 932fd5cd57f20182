-- ===== src/Firmware/Config/Reads.antt =====
-- What `load` reads from the bytes of a configuration.
use lando.Prelude.{
  ℕ, zero, suc, ◌+◌, ◌%◌, ◌≤◌, ◌≡◌, refl, sym, ap, ◌∙◌, true, false, Option, none, some, [], ◌∷◌,
  ◌++◌, length, get_or, take, drop, ltb, leb, ◌==◌, arith, append_assoc, append-nil, length-append,
  drop-append_self, take-append_self, drop-drop,
}
use lando.Prelude.Bytes.{Bytes, eq_bytes, eq_bytes_refl}
use lando.Json.Utf8.{is_utf8}
use lando.Firmware.Config.{
  Config, magic, read_field, read_key, parse_config, after_ssid, after_password, read_rest,
}
use lando.Firmware.Config.Writes.{field_text, key_text, IsKey}

-- Reading depends on what is ahead.
pub get_or-drop :
    (xs rest : Bytes) (x pos : ℕ)
    → drop pos xs ≡ x ∷ rest
    → (get_or xs pos 0 ≡ x) × (length xs ≡ pos + suc (length rest))
get_or-drop [] rest x zero e = absurd (grind (arith, ap length e))
get_or-drop [] rest x (suc pos) e = absurd (grind (arith, ap length e))
get_or-drop (y ∷ xs) rest x zero e = (ap (λ l. get_or l 0 0) e, omega (arith, ap length e))
get_or-drop (y ∷ xs) rest x (suc pos) e =
    let (first, size) = get_or-drop xs rest x pos e in (first, omega arith)

pub read_field_lem :
    (buf bytes rest : Bytes) (pos : ℕ)
    → drop pos buf ≡ field_text bytes ++ rest
    → length bytes ≤ 96
    → is_utf8 bytes ≡ true
    → (read_field buf pos ≡ (some bytes, pos + 1 + length bytes))
      × (drop (pos + 1 + length bytes) buf ≡ rest)
unfolding read_field
read_field_lem buf bytes rest pos e small valid =
    let n = length bytes in
    let (first, size) = get_or-drop buf (bytes ++ rest) (n % 256) pos e in
    let is : get_or buf pos 0 ≡ n = omega (arith, first) in
    let ahead = sym (drop-drop buf 1 pos (pos + 1) refl) ∙ ap (drop 1) e in
    let text = ap (take n) ahead ∙ take-append_self bytes rest n refl in
    let whole = length-append bytes rest in
    let here : leb (length buf) pos ≡ false = ground arith in
    let short : ltb 96 n ≡ false = ground arith in
    let inside : ltb (length buf) (pos + 1 + n) ≡ false = ground arith in
    (
      rw is (rw (here, short, inside, text) (rw valid refl)),
      sym (drop-drop buf n (pos + 1) (pos + 1 + n) refl)
          ∙ ap (drop n) ahead
          ∙ drop-append_self bytes rest n refl,
    )

pub read_key_lem :
    (buf rest : Bytes) (key : Option Bytes) (pos : ℕ)
    → drop pos buf ≡ key_text key ++ rest
    → IsKey key
    → (read_key buf pos ≡ (key, pos + length (key_text key)))
      × (drop (pos + length (key_text key)) buf ≡ rest)
unfolding read_key
read_key_lem buf rest none pos e is =
    let (first, size) = get_or-drop buf rest 0 pos e in
    let here : leb (length buf) pos ≡ false = ground arith in
    (rw (here, first) refl, sym (drop-drop buf 1 pos (pos + 1) refl) ∙ ap (drop 1) e)
read_key_lem buf rest (some k) pos e is =
    let (first, size) = get_or-drop buf (k ++ rest) 1 pos e in
    let ahead = sym (drop-drop buf 1 pos (pos + 1) refl) ∙ ap (drop 1) e in
    let whole = length-append k rest in
    let here : leb (length buf) pos ≡ false = ground arith in
    let inside : ltb (length buf) (pos + 1 + 32) ≡ false = ground arith in
    let text = ap (take 32) ahead ∙ take-append_self k rest 32 (sym is) in
    (
      rw (here, first) (rw (inside, text) (ap (λ i. (some k, i)) (omega (arith, is)))),
      sym (drop-drop buf (length k) (pos + 1) (pos + suc (length k)) (omega arith))
          ∙ ap (drop (length k)) ahead
          ∙ drop-append_self k rest (length k) refl,
    )

-- A text that can be stored.
abbrev pub IsField : Bytes → Type 0
IsField text = (length text ≤ 96) × (is_utf8 text ≡ true)

-- A configuration whose texts and keys can be stored.
pub record IsValid (c : Config) : Type 0 where
  pub ssid : IsField c.ssid
  pub password : IsField c.password
  pub auth_key : IsField c.auth_key
  pub control_host : IsField c.control_host
  pub control_key : IsField c.control_key
  pub machine_key : IsKey c.machine_key
  pub node_key : IsKey c.node_key

pub read_rest_lem :
    (buf : Bytes) (c : Config) (p2 p3 p4 p5 p6 p7 : ℕ)
    → read_field buf p2 ≡ (some c.auth_key, p3)
    → read_field buf p3 ≡ (some c.control_host, p4)
    → read_field buf p4 ≡ (some c.control_key, p5)
    → read_key buf p5 ≡ (c.machine_key, p6)
    → read_key buf p6 ≡ (c.node_key, p7)
    → read_rest buf c.ssid c.password p2 ≡ c
unfolding read_rest
read_rest_lem buf c p2 p3 p4 p5 p6 p7 r3 r4 r5 r6 r7 =
    rw (read_rest, r3) (rw r4 (rw r5 (rw r6 (rw r7 refl))))

pub parse_config_lem :
    (buf rest : Bytes) (c : Config)
    → IsValid c
    → take 8 buf ≡ magic
    → get_or buf 8 0 ≡ 3
    → drop 9 buf
      ≡ field_text c.ssid
        ++ (field_text c.password
            ++ (field_text c.auth_key
                ++ (field_text c.control_host
                    ++ (field_text c.control_key
                        ++ (key_text c.machine_key ++ (key_text c.node_key ++ rest))))))
    → parse_config buf ≡ some c
unfolding parse_config after_ssid after_password
parse_config_lem buf rest c v m k e =
    let (r1, d1) = read_field_lem buf c.ssid _ 9 e v.ssid.0 v.ssid.1 in
    let (r2, d2) =
      read_field_lem buf c.password _ (9 + 1 + length c.ssid) d1 v.password.0 v.password.1 in
    let p2 = 9 + 1 + length c.ssid + 1 + length c.password in
    let (r3, d3) = read_field_lem buf c.auth_key _ p2 d2 v.auth_key.0 v.auth_key.1 in
    let p3 = p2 + 1 + length c.auth_key in
    let (r4, d4) = read_field_lem buf c.control_host _ p3 d3 v.control_host.0 v.control_host.1 in
    let p4 = p3 + 1 + length c.control_host in
    let (r5, d5) = read_field_lem buf c.control_key _ p4 d4 v.control_key.0 v.control_key.1 in
    let p5 = p4 + 1 + length c.control_key in
    let (r6, d6) = read_key_lem buf _ c.machine_key p5 d5 v.machine_key in
    let (r7, _) =
      read_key_lem buf rest c.node_key (p5 + length (key_text c.machine_key)) d6 v.node_key in
    let same : eq_bytes (take 8 buf) magic ≡ true =
      ap (λ t. eq_bytes t magic) m ∙ eq_bytes_refl magic in
    let kind : (get_or buf 8 0 == 3) ≡ true = ap (λ t. t == 3) k in
    rw (same, kind)
      (ap (after_ssid buf) r1
        ∙ ap (after_password buf c.ssid) r2
        ∙ ap some (read_rest_lem buf c p2 p3 p4 p5 _ _ r3 r4 r5 r6 r7))

pub regrouped :
    (a b c d e k l z : Bytes)
    → ((a ++ (b ++ (c ++ (d ++ (e ++ []))))) ++ (k ++ (l ++ []))) ++ z
      ≡ a ++ (b ++ (c ++ (d ++ (e ++ (k ++ (l ++ z))))))
regrouped a b c d e k l z = simp (append_assoc, append-nil) refl
