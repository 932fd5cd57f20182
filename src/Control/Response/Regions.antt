-- ===== src/Control/Response/Regions.antt =====
-- The relay's region in a peer's `DERP` field.
use lando.Prelude.{
  ℕ, ◌+◌, ◌-◌, ◌*◌, ◌^◌, ◌<◌, ◌≤◌, ◌≡◌, refl, ap, ◌∙◌, true, false, some, [], ◌∷◌, ◌++◌, All,
  length, ltb, leb, ◌==◌, arith,
}
use lando.Prelude.Bytes.{Bytes, codes, strip_prefix-append}
use lando.Prelude.Decimal.{value_from, IsDigit, decimal, decimal_lem}
use lando.Control.Response.{and_then, digits_u32, parse_u32, derp_region}

le-value_from : (n : ℕ) (s : Bytes) → n ≤ value_from n s
le-value_from n [] = omega arith
le-value_from n (c ∷ s) = omega (arith, le-value_from (n * 10 + (c - b'0')) s)

digits_u32-value_from :
    (n : ℕ) (s : Bytes)
    → All IsDigit s
    → value_from n s < 2 ^ 32
    → digits_u32 n s ≡ some (value_from n s)
unfolding digits_u32
digits_u32-value_from n [] h k = refl
digits_u32-value_from n (c ∷ s) (hc, h) k =
    let m = n * 10 + (c - b'0') in
    let low : leb b'0' c ≡ true = ground arith in
    let high : leb c b'9' ≡ true = ground arith in
    let fits : ltb m (2 ^ 32) ≡ true = ground (arith, le-value_from m s) in
    rw low (rw high (rw fits (digits_u32-value_from m s h k)))

parse_u32-digits :
    (s : Bytes)
    → All IsDigit s
    → 0 < length s
    → value_from 0 s < 2 ^ 32
    → parse_u32 s ≡ some (value_from 0 s)
unfolding parse_u32
parse_u32-digits [] h some_digits k = absurd (omega arith)
parse_u32-digits (c ∷ []) h some_digits k = digits_u32-value_from 0 (c ∷ []) h k
parse_u32-digits (c ∷ d ∷ s) h some_digits k =
    let digit : c == b'+' ≡ false = ground (arith, h.0) in
    rw digit (digits_u32-value_from 0 (c ∷ d ∷ s) h k)

-- A region that fits a `u32`, written in decimal behind the placeholder address, is read back.
pub derp_region-decimal :
    (region : ℕ)
    → region < 2 ^ 32
    → derp_region (codes "127.3.3.40:" ++ decimal 10 region) ≡ some region
unfolding derp_region
derp_region-decimal region h =
    let d = decimal_lem 10 region (omega arith) (omega arith) in
    let text = decimal 10 region in
    ap (λ o. and_then o parse_u32) (strip_prefix-append (codes "127.3.3.40:") text)
    ∙ parse_u32-digits text d.1 d.2 (omega (arith, d.0))
    ∙ ap some d.0
