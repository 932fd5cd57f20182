-- ===== src/Firmware/Config/Stored.antt =====
-- What has been saved is loaded.
use lando.Prelude.{
  ◌+◌, ◌≡◌, ◌≢◌, refl, sym, ap, ◌∙◌, inl, inr, true, false, Bool-cases, Option, none, some,
  Option-cases, length, get_or, take, drop, over, replicate, leb, arith,
}
use lando.Prelude.Bytes.{Bytes}
use lando.Firmware.Config.{
  Flash, FlashLaws, load, save, config_offset, Config, parse_config, encode_config,
}
use lando.Prelude.Copies.{length-over}
use lando.Firmware.Config.Writes.{field_text, key_text, filled, config_text, encode_config_lem}
use lando.Firmware.Config.Reads.{IsValid, parse_config_lem, regrouped}

some-injective : {A : Type 0} {a b : A} → some a ≡ some b → a ≡ b
some-injective {A} {a} e = ap (λ (o : Option A). elim o [ none ↦ a | some x ↦ x ]) e

filled_ok :
    (text out : Bytes) {buf : Bytes}
    → filled text out ≡ some buf
    → (buf ≡ over text out) × (length buf ≡ length out)
filled_ok text out {buf} e = elim (Bool-cases (leb (length text) (length out))) [
  | inl room ↦
      let yes : filled text out ≡ some (over text out) = rw room refl in
      let is : buf ≡ over text out = some-injective (sym e ∙ yes) in
      (is, ap length is ∙ length-over text out (ground arith))
  | inr full ↦ let no : filled text out ≡ none = rw full refl in absurd (grind (arith, sym no ∙ e))
]

parse_config-encode :
    (config : Config) {buf : Bytes}
    → IsValid config
    → encode_config config ≡ some buf
    → (parse_config buf ≡ some config) × (length buf ≡ 512)
parse_config-encode config {buf} v e =
    let (is, size) =
      filled_ok (config_text config) (replicate 512 0)
        (sym (encode_config_lem config v.machine_key v.node_key) ∙ e) in
    let zeros = drop (length (config_text config)) (replicate 512 0) in
    let ahead : drop 9 (over (config_text config) (replicate 512 0)) ≡ _ =
      regrouped (field_text config.ssid) (field_text config.password) (field_text config.auth_key)
        (field_text config.control_host) (field_text config.control_key)
        (key_text config.machine_key) (key_text config.node_key) zeros in
    (
      parse_config_lem buf zeros config v (ap (take 8) is) (ap (λ b. get_or b 8 0) is)
          (ap (drop 9) is ∙ ahead),
      size,
    )

true_not_false : true ≢ false
true_not_false e = absurd (grind (arith, e))

-- A configuration whose texts are UTF-8 of at most 96 bytes and whose keys have 32 bytes: if `save`
-- reports success, `load` gives it back from then on.
pub load-save :
    (flash : Flash) (laws : FlashLaws flash) (before after : flash.Contents) (config : Config)
    → IsValid config
    → save flash before config ≡ some (after, true)
    → load flash after ≡ some config
unfolding load save
load-save flash laws before after config v e = elim (Option-cases (encode_config config)) [
  | inl n ↦
      let no : save flash before config ≡ none = rw (save, n) refl in
      absurd (grind (arith, sym no ∙ e))
  | inr (buf, f) ↦
      let (parsed, size) = parse_config-encode config v f in
      let at = config_offset flash in
      let c' = (flash.erase before at (at + flash.erase_size)).0 in
      elim (Bool-cases (flash.erase before at (at + flash.erase_size)).1) [
        | inl erased ↦
            let did : save flash before config ≡ some (flash.write c' at buf) =
              rw (save, f) (rw erased refl) in
            let written =
              laws.read-write before c' after at (at + flash.erase_size) buf
                (omega (arith, size, laws.sector)) (ap (λ b. (c', b)) erased)
                (some-injective (sym did ∙ e)) in
            let reads : flash.read after at 512 ≡ some buf =
              ap (flash.read after at) (sym size) ∙ written in
            rw (load, reads) parsed
        | inr failed ↦
            let did : save flash before config ≡ some (c', false) = rw (save, f) (rw failed refl) in
            absurd (true_not_false (ap (λ r. r.1) (some-injective (sym e ∙ did))))
      ]
]
