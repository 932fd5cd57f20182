-- ===== src/Prelude/Bits.antt =====
-- The binary digits of a number, and what `bit_and`, `bit_or` and the complement do to each.
use Prim.Native.Nat.{
  ℕ, zero, suc, ◌+◌, ◌-◌, ◌*◌, ◌/◌, ◌%◌, ◌^◌, ◌≤◌, ◌<◌, min, max, bit_and, bit_or, digits, bitwise,
  bit_and-bitwise, bit_or-bitwise,
}
use mathlib.Core.Path.{◌≡◌, refl, ap, ◌∙◌}
use mathlib.Core.Logic.{◌≢◌}
use native.Mathlib.Nat.{pow-suc}
use native.Mathlib.Omega.{arith}

-- The digit of weight `2 ^ i`.
abbrev pub digit : ℕ → ℕ → ℕ
digit a zero = a % 2
digit a (suc i) = digit (a / 2) i

module _ (z : ℕ → ℕ) (f : ℕ → ℕ → ℕ) where
  -- Any fuel that covers the first number gives the same result.
  enough : (n m a b : ℕ) → a ≤ n → a ≤ m → digits z f n a b ≡ digits z f m a b
  enough zero zero zero b p q = refl
  enough zero (suc m) zero b p q = refl
  enough (suc n) zero zero b p q = refl
  enough (suc n) (suc m) zero b p q = refl
  enough zero m (suc a) b p q = absurd (omega arith)
  enough (suc n) zero (suc a) b p q = absurd (omega arith)
  enough (suc n) (suc m) (suc a) b p q =
      ap (λ t. t * 2 + f (suc a % 2) (b % 2))
        (enough n m (suc a / 2) (b / 2) (omega arith) (omega arith))

  -- One step of the digit recursion at a positive number.
  unroll :
      (a b : ℕ)
      → bitwise z f (suc a) b ≡ bitwise z f (suc a / 2) (b / 2) * 2 + f (suc a % 2) (b % 2)
  unroll a b =
      ap (λ t. t * 2 + f (suc a % 2) (b % 2))
        (enough a (suc a / 2) (suc a / 2) (b / 2) (omega arith) (omega arith))

pub bit_or_lem : (a b : ℕ) → bit_or a b ≡ bit_or (a / 2) (b / 2) * 2 + max (a % 2) (b % 2)
bit_or_lem zero b = omega (arith, bit_or-bitwise 0 b, bit_or-bitwise 0 (b / 2))
bit_or_lem (suc a) b =
    omega
      (arith, bit_or-bitwise (suc a) b, bit_or-bitwise (suc a / 2) (b / 2), unroll (λ y. y) max a b)

pub bit_and_lem : (a b : ℕ) → bit_and a b ≡ bit_and (a / 2) (b / 2) * 2 + min (a % 2) (b % 2)
bit_and_lem zero b = omega (arith, bit_and-bitwise 0 b, bit_and-bitwise 0 (b / 2))
bit_and_lem (suc a) b =
    omega (
      arith,
      bit_and-bitwise (suc a) b,
      bit_and-bitwise (suc a / 2) (b / 2),
      unroll (λ y. 0) min a b,
    )

-- Halving a bitwise operation halves its operands.
half-bit_or : (a b : ℕ) → bit_or a b / 2 ≡ bit_or (a / 2) (b / 2)
half-bit_or a b = omega (arith, bit_or_lem a b)

half-bit_and : (a b : ℕ) → bit_and a b / 2 ≡ bit_and (a / 2) (b / 2)
half-bit_and a b = omega (arith, bit_and_lem a b)

pub digit-bit_or : (a b i : ℕ) → digit (bit_or a b) i ≡ max (digit a i) (digit b i)
digit-bit_or a b zero = omega (arith, bit_or_lem a b)
digit-bit_or a b (suc i) = ap (λ t. digit t i) (half-bit_or a b) ∙ digit-bit_or (a / 2) (b / 2) i

pub digit-bit_and : (a b i : ℕ) → digit (bit_and a b) i ≡ min (digit a i) (digit b i)
digit-bit_and a b zero = omega (arith, bit_and_lem a b)
digit-bit_and a b (suc i) = ap (λ t. digit t i) (half-bit_and a b) ∙ digit-bit_and (a / 2) (b / 2) i

pub digit-le : (a i : ℕ) → digit a i ≤ 1
digit-le a zero = omega arith
digit-le a (suc i) = digit-le (a / 2) i

half-pow : (k : ℕ) → 2 ^ suc k / 2 ≡ 2 ^ k
half-pow k = omega (arith, pow-suc 2 k)

pub digit-zero : (i : ℕ) → digit 0 i ≡ 0
digit-zero zero = refl
digit-zero (suc i) = digit-zero i

pub digit-pow_self : (k : ℕ) → digit (2 ^ k) k ≡ 1
digit-pow_self zero = refl
digit-pow_self (suc k) = ap (λ t. digit t k) (half-pow k) ∙ digit-pow_self k

pub digit-pow_ne : (k i : ℕ) → i ≢ k → digit (2 ^ k) i ≡ 0
digit-pow_ne zero zero h = absurd (h refl)
digit-pow_ne zero (suc i) h = digit-zero i
digit-pow_ne (suc k) zero h = omega (arith, pow-suc 2 k)
digit-pow_ne (suc k) (suc i) h =
    ap (λ t. digit t i) (half-pow k) ∙ digit-pow_ne k i (λ e. h (ap suc e))

-- The complement of a `w`-bit number flips each of its digits.
pub digit-complement : (w a i : ℕ) → a < 2 ^ w → i < w → digit (2 ^ w - 1 - a) i ≡ 1 - digit a i
digit-complement zero a i p q = absurd (omega arith)
digit-complement (suc w) a zero p q = omega (arith, pow-suc 2 w)
digit-complement (suc w) a (suc i) p q =
    ap (λ t. digit t i) halved
    ∙ digit-complement w (a / 2) i (omega (arith, pow-suc 2 w)) (omega arith)
  where
    halved : (2 ^ suc w - 1 - a) / 2 ≡ 2 ^ w - 1 - a / 2
    halved = omega (arith, pow-suc 2 w)

pub bit_and-zero : (n a : ℕ) → a ≤ n → bit_and a 0 ≡ 0
bit_and-zero n zero h = bit_and-bitwise 0 0
bit_and-zero zero (suc a) h = absurd (omega arith)
bit_and-zero (suc n) (suc a) h =
    omega (arith, bit_and_lem (suc a) 0, bit_and-zero n (suc a / 2) (omega arith))

-- Masking by one bit leaves that digit in its place.
pub bit_and-pow : (a k : ℕ) → bit_and a (2 ^ k) ≡ digit a k * 2 ^ k
bit_and-pow a zero = omega (arith, bit_and_lem a 1, bit_and-zero (a / 2) (a / 2) (omega arith))
bit_and-pow a (suc k) = omega (
  arith,
  bit_and_lem a (2 ^ suc k),
  ap (λ (t : ℕ). bit_and (a / 2) t) (half-pow k),
  bit_and-pow (a / 2) k,
  ap (λ (t : ℕ). digit (a / 2) k * t) (pow-suc 2 k),
  pow-suc 2 k,
)

pub two-pow_pos : (k : ℕ) → 0 < 2 ^ k
two-pow_pos zero = omega arith
two-pow_pos (suc k) = omega (arith, pow-suc 2 k, two-pow_pos k)

-- Joining two `w`-bit numbers stays within `w` bits.
pub bit_or-lt : (w a b : ℕ) → a < 2 ^ w → b < 2 ^ w → bit_or a b < 2 ^ w
bit_or-lt zero zero zero p q = omega (arith, bit_or-bitwise 0 0)
bit_or-lt zero zero (suc b) p q = absurd (omega arith)
bit_or-lt zero (suc a) b p q = absurd (omega arith)
bit_or-lt (suc w) a b p q = omega (
  arith,
  bit_or_lem a b,
  pow-suc 2 w,
  bit_or-lt w (a / 2) (b / 2) (omega (arith, pow-suc 2 w)) (omega (arith, pow-suc 2 w)),
)

pub bit_and-le : (n a b : ℕ) → a ≤ n → bit_and a b ≤ a
bit_and-le n zero b h = omega (arith, bit_and-bitwise 0 b)
bit_and-le zero (suc a) b h = absurd (omega arith)
bit_and-le (suc n) (suc a) b h =
    omega (arith, bit_and_lem (suc a) b, bit_and-le n (suc a / 2) (b / 2) (omega arith))

-- Masks of ones keep remainders.
bit_and_1 : (a : ℕ) → bit_and a 1 ≡ a % 2
bit_and_1 a = omega (arith, bit_and_lem a 1, bit_and-zero (a / 2) (a / 2) (omega arith))

bit_and_3 : (a : ℕ) → bit_and a 3 ≡ a % 4
bit_and_3 a = omega (arith, bit_and_lem a 3, bit_and_1 (a / 2))

bit_and_7 : (a : ℕ) → bit_and a 7 ≡ a % 8
bit_and_7 a = omega (arith, bit_and_lem a 7, bit_and_3 (a / 2))

bit_and_15 : (a : ℕ) → bit_and a 15 ≡ a % 16
bit_and_15 a = omega (arith, bit_and_lem a 15, bit_and_7 (a / 2))

bit_and_31 : (a : ℕ) → bit_and a 31 ≡ a % 32
bit_and_31 a = omega (arith, bit_and_lem a 31, bit_and_15 (a / 2))

bit_and_63 : (a : ℕ) → bit_and a 63 ≡ a % 64
bit_and_63 a = omega (arith, bit_and_lem a 63, bit_and_31 (a / 2))

-- A mask of seven ones keeps the remainder by 128.
pub bit_and_127 : (a : ℕ) → bit_and a 127 ≡ a % 128
bit_and_127 a = omega (arith, bit_and_lem a 127, bit_and_63 (a / 2))

-- A bit does not touch those below it.
bit_or_2 : (a : ℕ) → bit_or a 2 % 2 ≡ a % 2
bit_or_2 a = omega (arith, bit_or_lem a 2)

bit_or_4 : (a : ℕ) → bit_or a 4 % 4 ≡ a % 4
bit_or_4 a = omega (arith, bit_or_lem a 4, bit_or_2 (a / 2))

bit_or_8 : (a : ℕ) → bit_or a 8 % 8 ≡ a % 8
bit_or_8 a = omega (arith, bit_or_lem a 8, bit_or_4 (a / 2))

bit_or_16 : (a : ℕ) → bit_or a 16 % 16 ≡ a % 16
bit_or_16 a = omega (arith, bit_or_lem a 16, bit_or_8 (a / 2))

bit_or_32 : (a : ℕ) → bit_or a 32 % 32 ≡ a % 32
bit_or_32 a = omega (arith, bit_or_lem a 32, bit_or_16 (a / 2))

bit_or_64 : (a : ℕ) → bit_or a 64 % 64 ≡ a % 64
bit_or_64 a = omega (arith, bit_or_lem a 64, bit_or_32 (a / 2))

-- The eighth bit does not touch the remainder by 128.
pub bit_or_128 : (a : ℕ) → bit_or a 128 % 128 ≡ a % 128
bit_or_128 a = omega (arith, bit_or_lem a 128, bit_or_64 (a / 2))

-- A mask of the low bits keeps a number that they hold.
pub bit_and-mask : (n a m : ℕ) → a < 2 ^ n → m + 1 ≡ 2 ^ n → bit_and a m ≡ a
bit_and-mask zero zero m h e = bit_and-bitwise 0 m
bit_and-mask zero (suc a) m h e = absurd (omega arith)
bit_and-mask (suc n) a m h e = omega (
  arith,
  bit_and_lem a m,
  pow-suc 2 n,
  bit_and-mask n (a / 2) (m / 2) (omega (arith, pow-suc 2 n)) (omega (arith, pow-suc 2 n)),
)

pub bit_or-nothing : (n a : ℕ) → a < 2 ^ n → bit_or 0 a ≡ a
bit_or-nothing zero zero h = refl
bit_or-nothing zero (suc a) h = absurd (omega arith)
bit_or-nothing (suc n) a h =
    omega (arith, bit_or_lem 0 a, bit_or-nothing n (a / 2) (omega (arith, pow-suc 2 n)))

-- A bit above a number is added to it.
pub bit_or-above : (n a : ℕ) → a < 2 ^ n → bit_or (2 ^ n) a ≡ 2 ^ n + a
bit_or-above zero zero h = refl
bit_or-above zero (suc a) h = absurd (omega arith)
bit_or-above (suc n) a h =
    let half : 2 ^ suc n / 2 ≡ 2 ^ n = omega (arith, pow-suc 2 n) in
    omega (
      arith,
      bit_or_lem (2 ^ suc n) a,
      pow-suc 2 n,
      ap (λ t. bit_or t (a / 2)) half,
      bit_or-above n (a / 2) (omega (arith, pow-suc 2 n)),
    )
