-- ===== src/Prelude/Bytes.antt =====
-- Byte buffers: slices, copies into a buffer, and integers as big-endian and little-endian bytes.
use lando.Prelude.{
  ℕ, zero, suc, ◌+◌, ◌*◌, ◌/◌, ◌%◌, ◌^◌, ◌<◌, ◌≤◌, ◌≡◌, refl, sym, ap, ap₂, ◌∙◌, Bool, true, false,
  ◌&&◌, ◌||◌, List, [], ◌∷◌, ◌++◌, length, take, drop, All, length-append, length-take, length-drop,
  over, over-append, ltb, ◌==◌, ==_iff, if◌then◌else◌, Option, none, some, arith,
}
use native.Mathlib.Nat.{pow-suc}
use Prim.Native.Char.{code}
use Prim.Native.String.{String}

abbrev pub Bytes : Type 0
Bytes = List ℕ

abbrev pub IsByte : ℕ → Type 0
IsByte b = b < 256

-- The bytes of an ASCII text.
abbrev pub codes : String → Bytes
codes String.[] = []
codes (String.◌∷◌ c s) = code c ∷ codes s

-- `str::strip_prefix`
unfoldable pub strip_prefix : Bytes → Bytes → Option Bytes
strip_prefix [] s = some s
strip_prefix (p ∷ ps) [] = none
strip_prefix (p ∷ ps) (c ∷ s) = if p == c then strip_prefix ps s else none

pub strip_prefix-append : (p s : Bytes) → strip_prefix p (p ++ s) ≡ some s
unfolding strip_prefix
strip_prefix-append [] s = refl
strip_prefix-append (c ∷ p) s = rw ((==_iff c c).1 refl) (strip_prefix-append p s)

-- `xs[start .. start + n]`
abbrev pub slice : Bytes → ℕ → ℕ → Bytes
slice xs start n = take n (drop start xs)

-- `buf[start .. start + bs.len()].copy_from_slice(bs)`
abbrev pub copy_at : Bytes → ℕ → Bytes → Bytes
copy_at buf start bs = take start buf ++ (bs ++ drop (start + length bs) buf)

-- `==` on byte slices, and the lexicographic `<` of byte arrays.
unfoldable pub eq_bytes : Bytes → Bytes → Bool
eq_bytes [] [] = true
eq_bytes [] (y ∷ ys) = false
eq_bytes (x ∷ xs) [] = false
eq_bytes (x ∷ xs) (y ∷ ys) = x == y && eq_bytes xs ys

pub eq_bytes_refl : (xs : Bytes) → eq_bytes xs xs ≡ true
unfolding eq_bytes
eq_bytes_refl [] = refl
eq_bytes_refl (x ∷ xs) = rw ((==_iff x x).1 refl) (eq_bytes_refl xs)

pub eq_bytes→≡ : (xs ys : Bytes) → eq_bytes xs ys ≡ true → xs ≡ ys
unfolding eq_bytes
eq_bytes→≡ [] [] h = refl
eq_bytes→≡ [] (y ∷ ys) h = ground arith
eq_bytes→≡ (x ∷ xs) [] h = ground arith
eq_bytes→≡ (x ∷ xs) (y ∷ ys) h = ap₂ (λ a s. a ∷ s) (ground arith) (eq_bytes→≡ xs ys (ground arith))

unfoldable pub lex_lt : Bytes → Bytes → Bool
lex_lt [] [] = false
lex_lt [] (y ∷ ys) = true
lex_lt (x ∷ xs) [] = false
lex_lt (x ∷ xs) (y ∷ ys) = ltb x y || (x == y && lex_lt xs ys)

-- The `n` low bytes of a number, least or most significant first.
abbrev pub to_le : ℕ → ℕ → Bytes
to_le zero v = []
to_le (suc n) v = (v % 256) ∷ to_le n (v / 256)

abbrev pub to_be : ℕ → ℕ → Bytes
to_be zero v = []
to_be (suc n) v = to_be n (v / 256) ++ ((v % 256) ∷ [])

abbrev pub from_le : Bytes → ℕ
from_le [] = 0
from_le (b ∷ bs) = b + 256 * from_le bs

abbrev from_be_after : ℕ → Bytes → ℕ
from_be_after acc [] = acc
from_be_after acc (b ∷ bs) = from_be_after (acc * 256 + b) bs

abbrev pub from_be : Bytes → ℕ
from_be bs = from_be_after 0 bs

pub length-to_be : (n v : ℕ) → length (to_be n v) ≡ n
length-to_be zero v = refl
length-to_be (suc n) v =
    omega (arith, length-append (to_be n (v / 256)) ((v % 256) ∷ []), length-to_be n (v / 256))

pub length-to_le : (n v : ℕ) → length (to_le n v) ≡ n
length-to_le zero v = refl
length-to_le (suc n) v = ap suc (length-to_le n (v / 256))

pub from_le-to_le : (n v : ℕ) → v < 256 ^ n → from_le (to_le n v) ≡ v
from_le-to_le zero v h = omega arith
from_le-to_le (suc n) v h = omega (arith, from_le-to_le n (v / 256) (omega (arith, pow-suc 256 n)))

from_be_after-snoc :
    (acc : ℕ) (bs : Bytes) (b : ℕ)
    → from_be_after acc (bs ++ (b ∷ [])) ≡ from_be_after acc bs * 256 + b
from_be_after-snoc acc [] b = refl
from_be_after-snoc acc (x ∷ bs) b = from_be_after-snoc (acc * 256 + x) bs b

pub from_be-to_be : (n v : ℕ) → v < 256 ^ n → from_be (to_be n v) ≡ v
from_be-to_be zero v h = omega arith
from_be-to_be (suc n) v h = omega (
  arith,
  from_be_after-snoc 0 (to_be n (v / 256)) (v % 256),
  from_be-to_be n (v / 256) (omega (arith, pow-suc 256 n)),
)

All-append_IsByte : (xs ys : Bytes) → All IsByte xs → All IsByte ys → All IsByte (xs ++ ys)
All-append_IsByte [] ys p q = q
All-append_IsByte (x ∷ xs) ys p q = (p.0, All-append_IsByte xs ys p.1 q)

pub to_be-IsByte : (n v : ℕ) → All IsByte (to_be n v)
to_be-IsByte zero v = tt
to_be-IsByte (suc n) v =
    All-append_IsByte (to_be n (v / 256)) ((v % 256) ∷ []) (to_be-IsByte n (v / 256)) (omega arith)

-- With the accumulator split off, the value of bytes is below the power of their number.
from_be_after-split :
    (acc : ℕ) (bs : Bytes) → from_be_after acc bs ≡ acc * 256 ^ length bs + from_be bs
from_be_after-split acc [] = omega arith
from_be_after-split acc (b ∷ bs) = omega (
  arith,
  from_be_after-split (acc * 256 + b) bs,
  from_be_after-split (0 * 256 + b) bs,
  ap (λ (t : ℕ). acc * t) (pow-suc 256 (length bs)),
)

from_be-cons : (b : ℕ) (bs : Bytes) → from_be (b ∷ bs) ≡ b * 256 ^ length bs + from_be bs
from_be-cons b bs = omega (arith, from_be_after-split (0 * 256 + b) bs)

below_next : (b p r : ℕ) → b < 256 → r < p → b * p + r < p * 256
below_next b p r hb hr = grind arith

pub from_be-lt : (bs : Bytes) → All IsByte bs → from_be bs < 256 ^ length bs
from_be-lt [] h = omega arith
from_be-lt (b ∷ bs) h = omega (
  arith,
  from_be-cons b bs,
  below_next b (256 ^ length bs) (from_be bs) h.0 (from_be-lt bs h.1),
  pow-suc 256 (length bs),
)

leading_lt : (x y p r s : ℕ) → r < p → x < y → x * p + r < y * p + s
leading_lt x y p r s h lt = grind arith

compare_split :
    (x y p r s : ℕ) → r < p → s < p → ltb (x * p + r) (y * p + s) ≡ (ltb x y || (x == y && ltb r s))
compare_split x y p r s hr hs =
    ground (arith, leading_lt x y p r s hr, leading_lt y x p s r hs, ap (λ (t : ℕ). t * p))

-- Big-endian bytes of one length compare as the numbers that they stand for.
pub lex_lt-from_be :
    (xs ys : Bytes)
    → length xs ≡ length ys
    → All IsByte xs
    → All IsByte ys
    → lex_lt xs ys ≡ ltb (from_be xs) (from_be ys)
unfolding lex_lt
lex_lt-from_be [] [] e p q = refl
lex_lt-from_be [] (y ∷ ys) e p q = absurd (omega arith)
lex_lt-from_be (x ∷ xs) [] e p q = absurd (omega arith)
lex_lt-from_be (x ∷ xs) (y ∷ ys) e p q =
    ap (λ t. ltb x y || (x == y && t)) (lex_lt-from_be xs ys (omega arith) p.1 q.1)
    ∙ sym (
        compare_split x y (256 ^ length xs) (from_be xs) (from_be ys) (from_be-lt xs p.1)
          (omega (arith, from_be-lt ys q.1, ap (λ (n : ℕ). 256 ^ n) (same))))
    ∙ ap₂ ltb (sym (from_be-cons x xs)) (reach)
  where
    same : length xs ≡ length ys
    same = omega arith

    reach : y * 256 ^ length xs + from_be ys ≡ from_be (y ∷ ys)
    reach = ap (λ n. y * 256 ^ n + from_be ys) same ∙ sym (from_be-cons y ys)

from_be_after-append :
    (acc : ℕ) (xs ys : Bytes)
    → from_be_after acc (xs ++ ys) ≡ from_be_after (from_be_after acc xs) ys
from_be_after-append acc [] ys = refl
from_be_after-append acc (x ∷ xs) ys = from_be_after-append (acc * 256 + x) xs ys

pub from_be-append :
    (xs ys : Bytes) → from_be (xs ++ ys) ≡ from_be xs * 256 ^ length ys + from_be ys
from_be-append xs ys = from_be_after-append 0 xs ys ∙ from_be_after-split (from_be xs) ys

pub append-IsByte : (xs ys : Bytes) → All IsByte xs → All IsByte ys → All IsByte (xs ++ ys)
append-IsByte = All-append_IsByte

-- Copying where the written front of a buffer ends makes the front longer.
pub copy_at-over :
    (front bs out : Bytes) (n : ℕ)
    → n ≡ length front
    → copy_at (over front out) n bs ≡ over (front ++ bs) out
copy_at-over front bs out n e = over-append front bs out n e

pub length-slice :
    (xs : Bytes) (start n : ℕ) → start + n ≤ length xs → length (slice xs start n) ≡ n
length-slice xs start n h = omega (arith, length-take n (drop start xs), length-drop start xs)

-- A copy within a buffer keeps its length.
pub length-copy_at :
    (buf : Bytes) (start : ℕ) (bs : Bytes)
    → start + length bs ≤ length buf
    → length (copy_at buf start bs) ≡ length buf
length-copy_at buf start bs h = omega (
  arith,
  length-append (take start buf) (bs ++ drop (start + length bs) buf),
  length-append bs (drop (start + length bs) buf),
  length-take start buf,
  length-drop (start + length bs) buf,
)
