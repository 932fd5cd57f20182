-- ===== src/Json/Utf8.antt =====
-- `core::str::from_utf8`: which bytes are well-formed UTF-8, by the table of the Unicode standard
-- (no overlong form, no surrogate, nothing past U+10FFFF).
use lando.Prelude.{
  ℕ, zero, suc, ◌/◌, ◌%◌, ◌<◌, ◌≤◌, ◌≡◌, refl, sym, ap, ◌∙◌, Bool, true, false, [], ◌∷◌, ◌++◌, All,
  ltb, leb, ◌==◌, ◌&&◌, if◌then◌else◌, arith, inl, inr, Bool-cases, length, get_or,
}
use lando.Prelude.Bytes.{Bytes, codes}
use lando.Json.Writer.{escape}
use lando.Json.Doc.{escaped}

-- How many bytes continue a character, and the range of the first of them; `none` of the leading
-- bytes is in the last case.
pub record Lead : Type 0 where
  pub more : ℕ
  pub low : ℕ
  pub high : ℕ
  pub valid : Bool

unfoldable pub lead : ℕ → Lead
lead b =
    if ltb b 0x80
    then record { more = 0; low = 0x80; high = 0xbf; valid = true }
    else if leb 0xc2 b && leb b 0xdf
    then record { more = 1; low = 0x80; high = 0xbf; valid = true }
    else if b == 0xe0
    then record { more = 2; low = 0xa0; high = 0xbf; valid = true }
    else if b == 0xed
    then record { more = 2; low = 0x80; high = 0x9f; valid = true }
    else if leb 0xe1 b && leb b 0xef
    then record { more = 2; low = 0x80; high = 0xbf; valid = true }
    else if b == 0xf0
    then record { more = 3; low = 0x90; high = 0xbf; valid = true }
    else if leb 0xf1 b && leb b 0xf3
    then record { more = 3; low = 0x80; high = 0xbf; valid = true }
    else if b == 0xf4
    then record { more = 3; low = 0x80; high = 0x8f; valid = true }
    else record { more = 0; low = 0x80; high = 0xbf; valid = false }

-- Inside a character, with `more` bytes to come.
unfoldable pub utf8_from : ℕ → ℕ → ℕ → Bytes → Bool
unfolding lead
utf8_from zero low high [] = true
utf8_from zero low high (b ∷ s) =
    (lead b).valid && utf8_from (lead b).more (lead b).low (lead b).high s
utf8_from (suc more) low high [] = false
utf8_from (suc more) low high (b ∷ s) = leb low b && leb b high && utf8_from more 0x80 0xbf s

unfoldable pub is_utf8 : Bytes → Bool
unfolding utf8_from
is_utf8 s = utf8_from 0 0x80 0xbf s

abbrev pub IsAscii : ℕ → Type 0
IsAscii b = b < 0x80

lead_ascii :
    (b : ℕ) → b < 0x80 → lead b ≡ record { more = 0; low = 0x80; high = 0xbf; valid = true }
unfolding lead
lead_ascii b h = let e : ltb b 0x80 ≡ true = ground arith in rw e refl

-- Ascii before a character starts.
utf8_ascii :
    (b : ℕ) (s : Bytes) → b < 0x80 → utf8_from 0 0x80 0xbf (b ∷ s) ≡ utf8_from 0 0x80 0xbf s
unfolding utf8_from
utf8_ascii b s h = rw (lead_ascii b h) refl

utf8_plain :
    (t s : Bytes) → All IsAscii t → utf8_from 0 0x80 0xbf (t ++ s) ≡ utf8_from 0 0x80 0xbf s
utf8_plain [] s h = refl
utf8_plain (b ∷ t) s (hb, h) = utf8_ascii b (t ++ s) hb ∙ utf8_plain t s h

pub is_utf8-IsAscii : (s : Bytes) → All IsAscii s → is_utf8 s ≡ true
unfolding is_utf8 utf8_from
is_utf8-IsAscii [] h = refl
is_utf8-IsAscii (b ∷ s) (hb, h) = utf8_ascii b s hb ∙ is_utf8-IsAscii s h

pub get_or-IsAscii : (s : Bytes) (i : ℕ) → All IsAscii s → IsAscii (get_or s i 0)
get_or-IsAscii [] i h = omega arith
get_or-IsAscii (x ∷ s) zero (p, h) = p
get_or-IsAscii (x ∷ s) (suc i) (p, h) = get_or-IsAscii s i h

hex_ascii : (n : ℕ) → get_or (codes "0123456789abcdef") n 0 < 0x80
hex_ascii n = get_or-IsAscii (codes "0123456789abcdef") n (omega arith)

-- A byte below 128 is escaped by such bytes, and any other stands for itself.
escape-IsAscii : (b : ℕ) → b < 0x80 → All IsAscii (escape b)
unfolding escape
escape-IsAscii b h = ground (arith, hex_ascii (b / 16), hex_ascii (b % 16))

escape_high : (b : ℕ) → 0x80 ≤ b → escape b ≡ b ∷ []
unfolding escape
escape_high b h = ground arith

escape_some : (b : ℕ) → 0 < length (escape b)
unfolding escape
escape_some b = ground arith

lead_low : (b : ℕ) → 0x80 ≤ (lead b).low
unfolding lead
lead_low b = ground arith

utf8_zero : (low high : ℕ) (s : Bytes) → utf8_from 0 low high s ≡ utf8_from 0 0x80 0xbf s
unfolding utf8_from
utf8_zero low high [] = refl
utf8_zero low high (b ∷ s) = refl

-- No byte below 128 continues a character.
utf8_cut :
    (more low high : ℕ) (t s : Bytes)
    → 0x80 ≤ low
    → All IsAscii t
    → 0 < length t
    → utf8_from (suc more) low high (t ++ s) ≡ false
unfolding utf8_from
utf8_cut more low high [] s l h k = absurd (omega arith)
utf8_cut more low high (b ∷ t) s l (hb, h) k = let e : leb low b ≡ false = ground arith in rw e refl

utf8_from-escaped :
    (more low high : ℕ) (s : Bytes)
    → 0x80 ≤ low
    → utf8_from more low high (escaped s) ≡ utf8_from more low high s
utf8_from-escaped more low high [] l = refl
utf8_from-escaped zero low high (b ∷ s) l = elim (Bool-cases (ltb b 0x80)) [
  | inl e ↦
      utf8_zero low high (escape b ++ escaped s)
      ∙ utf8_plain (escape b) (escaped s) (escape-IsAscii b (ground arith))
      ∙ utf8_from-escaped 0 0x80 0xbf s (omega arith)
      ∙ sym (utf8_ascii b s (ground arith))
      ∙ sym (utf8_zero low high (b ∷ s))
  | inr e ↦
      ap (λ t. utf8_from 0 low high (t ++ escaped s)) (escape_high b (ground arith))
      ∙ leads b (escaped s)
      ∙ ap (λ v. (lead b).valid && v)
          (utf8_from-escaped (lead b).more (lead b).low (lead b).high s (lead_low b))
      ∙ sym (leads b s)
]
  where
    leads :
        (b : ℕ) (s : Bytes)
        → utf8_from 0 low high (b ∷ s)
          ≡ ((lead b).valid && utf8_from (lead b).more (lead b).low (lead b).high s)
    leads b s = unfold utf8_from in refl
utf8_from-escaped (suc more) low high (b ∷ s) l = elim (Bool-cases (ltb b 0x80)) [
  | inl e ↦
      utf8_cut more low high (escape b) (escaped s) l (escape-IsAscii b (ground arith))
        (escape_some b)
      ∙ sym (utf8_cut more low high (b ∷ []) s l (ground arith, tt) (omega arith))
  | inr e ↦
      ap (λ t. utf8_from (suc more) low high (t ++ escaped s)) (escape_high b (ground arith))
      ∙ goes_on b (escaped s)
      ∙ ap (λ v. leb low b && leb b high && v) (utf8_from-escaped more 0x80 0xbf s (omega arith))
      ∙ sym (goes_on b s)
]
  where
    goes_on :
        (b : ℕ) (s : Bytes)
        → utf8_from (suc more) low high (b ∷ s)
          ≡ (leb low b && leb b high && utf8_from more 0x80 0xbf s)
    goes_on b s = unfold utf8_from in refl

-- Escaping keeps a text well-formed.
pub is_utf8-escaped : (s : Bytes) → is_utf8 (escaped s) ≡ is_utf8 s
unfolding is_utf8
is_utf8-escaped s = utf8_from-escaped 0 0x80 0xbf s (omega arith)
