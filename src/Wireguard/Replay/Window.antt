-- ===== src/Wireguard/Replay/Window.antt =====
-- What setting, clearing and testing a counter's bit do to the 2048 bits of the window.
use lando.Prelude.{
  ℕ, zero, suc, ◌+◌, ◌-◌, ◌/◌, ◌%◌, ◌^◌, ◌≤◌, ◌<◌, ◌≡◌, refl, ap, ◌∙◌, ◌≢◌, List, length, get_or,
  set, replicate, ◌==◌, get_or-set_self, get_or-set_ne, length-set, if◌then◌else◌, arith, bit_and,
  bit_or, ℕ_discrete,
}
use lando.Prelude.Bits.{
  digit, digit-le, digit-bit_or, digit-bit_and, digit-pow_self, digit-pow_ne, digit-complement,
  bit_and-pow, two-pow_pos, digit-zero,
}
use lando.Wireguard.Replay.{window_words, get_bit, set_bit, clear_bit, shift_from}
use native.Mathlib.Nat.{pow-le-pow_right}

-- The bit at a place below 2048.
abbrev pub place : List ℕ → ℕ → ℕ
place bits k = digit (get_or bits (k / 64) 0) (k % 64)

-- A write to one word, read at another place.
place-set_word :
    (bits : List ℕ) (w v k : ℕ)
    → w < length bits
    → place (set bits w v) k ≡ (if k / 64 == w then digit v (k % 64) else place bits k)
place-set_word bits w v k h = elim (ℕ_discrete w (k / 64)) [
  | yes e ↦ ground (arith, get_or-set_self bits w v 0 h)
  | no ne ↦ ground (arith, get_or-set_ne bits w (k / 64) v 0 ne)
]

pow-lt : (b : ℕ) → b < 64 → 2 ^ b < 2 ^ 64
pow-lt b h = omega (arith, pow-le-pow_right {n = 2} (omega arith) {i = b} {j = 63} (omega arith))

module _ (bits : List ℕ) (full : length bits ≡ window_words) (c k : ℕ) where
  pub place-set_bit_self : k ≡ c % 2048 → place (set_bit bits c) k ≡ 1
  unfolding set_bit
  place-set_bit_self e = ground (
    arith,
    place-set_word bits (c % 2048 / 64)
        (bit_or (get_or bits (c % 2048 / 64) 0) (2 ^ (c % 2048 % 64))) k,
    digit-bit_or (get_or bits (c % 2048 / 64) 0) (2 ^ (c % 2048 % 64)) (c % 2048 % 64),
    digit-pow_self (c % 2048 % 64),
    digit-le (get_or bits (c % 2048 / 64) 0) (c % 2048 % 64),
  )

  pub place-set_bit_ne : k ≢ c % 2048 → k < 2048 → place (set_bit bits c) k ≡ place bits k
  unfolding set_bit
  place-set_bit_ne ne small = ground (
    arith,
    place-set_word bits (c % 2048 / 64)
        (bit_or (get_or bits (c % 2048 / 64) 0) (2 ^ (c % 2048 % 64))) k,
    digit-bit_or (get_or bits (c % 2048 / 64) 0) (2 ^ (c % 2048 % 64)) (k % 64),
    digit-pow_ne (c % 2048 % 64) (k % 64),
  )

  pub place-clear_bit_self : k ≡ c % 2048 → place (clear_bit bits c) k ≡ 0
  unfolding clear_bit
  place-clear_bit_self e = ground (
    arith,
    place-set_word bits (c % 2048 / 64)
        (bit_and (get_or bits (c % 2048 / 64) 0) (2 ^ 64 - 1 - 2 ^ (c % 2048 % 64))) k,
    digit-bit_and (get_or bits (c % 2048 / 64) 0) (2 ^ 64 - 1 - 2 ^ (c % 2048 % 64))
        (c % 2048 % 64),
    digit-complement 64 (2 ^ (c % 2048 % 64)) (c % 2048 % 64)
        (pow-lt (c % 2048 % 64) (omega arith)),
    digit-pow_self (c % 2048 % 64),
  )

  pub place-clear_bit_ne : k ≢ c % 2048 → k < 2048 → place (clear_bit bits c) k ≡ place bits k
  unfolding clear_bit
  place-clear_bit_ne ne small = ground (
    arith,
    place-set_word bits (c % 2048 / 64)
        (bit_and (get_or bits (c % 2048 / 64) 0) (2 ^ 64 - 1 - 2 ^ (c % 2048 % 64))) k,
    digit-bit_and (get_or bits (c % 2048 / 64) 0) (2 ^ 64 - 1 - 2 ^ (c % 2048 % 64)) (k % 64),
    digit-complement 64 (2 ^ (c % 2048 % 64)) (k % 64) (pow-lt (c % 2048 % 64) (omega arith)),
    digit-pow_ne (c % 2048 % 64) (k % 64),
    digit-le (get_or bits (k / 64) 0) (k % 64),
  )

pub length-set_bit : (bits : List ℕ) (c : ℕ) → length (set_bit bits c) ≡ length bits
unfolding set_bit
length-set_bit bits c =
    length-set bits (c % 2048 / 64) (bit_or (get_or bits (c % 2048 / 64) 0) (2 ^ (c % 2048 % 64)))

pub length-clear_bit : (bits : List ℕ) (c : ℕ) → length (clear_bit bits c) ≡ length bits
unfolding clear_bit
length-clear_bit bits c =
    length-set bits (c % 2048 / 64)
      (bit_and (get_or bits (c % 2048 / 64) 0) (2 ^ 64 - 1 - 2 ^ (c % 2048 % 64)))

-- The test answers whether the bit at the counter's place is 1.
pub get_bit_lem : (bits : List ℕ) (c : ℕ) → get_bit bits c ≡ (place bits (c % 2048) == 1)
unfolding get_bit
get_bit_lem bits c = ground (
  arith,
  bit_and-pow (get_or bits (c % 2048 / 64) 0) (c % 2048 % 64),
  digit-le (get_or bits (c % 2048 / 64) 0) (c % 2048 % 64),
  two-pow_pos (c % 2048 % 64),
)

-- An array of zero words has no bit set.
get_or-replicate : (n i : ℕ) → get_or {A = ℕ} (replicate n 0) i 0 ≡ 0
get_or-replicate zero i = refl
get_or-replicate (suc n) zero = refl
get_or-replicate (suc n) (suc i) = get_or-replicate n i

pub place-replicate : (n k : ℕ) → place (replicate n 0) k ≡ 0
place-replicate n k = ap (λ t. digit t (k % 64)) (get_or-replicate n (k / 64)) ∙ digit-zero (k % 64)

pub length-shift_from :
    (n i highest : ℕ) (bits : List ℕ) → length (shift_from n i highest bits) ≡ length bits
unfolding shift_from
length-shift_from zero i highest bits = refl
length-shift_from (suc n) i highest bits =
    length-shift_from n (i + 1) highest (clear_bit bits ((highest + i) % 2 ^ 64))
    ∙ length-clear_bit bits ((highest + i) % 2 ^ 64)

-- The loop leaves alone a place that no counter it visits has.
pub place-shift_from_ne :
    (n i highest : ℕ) (bits : List ℕ) (k : ℕ)
    → length bits ≡ window_words
    → k < 2048
    → highest + i + n ≤ 2 ^ 64
    → ((j : ℕ) → i ≤ j → j < i + n → k ≢ (highest + j) % 2048)
    → place (shift_from n i highest bits) k ≡ place bits k
unfolding shift_from
place-shift_from_ne zero i highest bits k full small room off = refl
place-shift_from_ne (suc n) i highest bits k full small room off =
    place-shift_from_ne n (i + 1) highest (clear_bit bits ((highest + i) % 2 ^ 64)) k
      (length-clear_bit bits ((highest + i) % 2 ^ 64) ∙ full) small (omega arith)
      (λ j p q. off j (omega arith) (omega arith))
    ∙ place-clear_bit_ne bits full ((highest + i) % 2 ^ 64) k
        (omega (arith, off i (omega arith) (omega arith))) small

-- The loop clears the place of every counter it visits.
pub place-shift_from_self :
    (n i highest : ℕ) (bits : List ℕ) (j : ℕ)
    → length bits ≡ window_words
    → highest + i + n ≤ 2 ^ 64
    → i ≤ j
    → j < i + n
    → n ≤ 2048
    → place (shift_from n i highest bits) ((highest + j) % 2048) ≡ 0
unfolding shift_from
place-shift_from_self zero i highest bits j full room p q le = absurd (omega arith)
place-shift_from_self (suc n) i highest bits j full room p q le = elim (ℕ_discrete i j) [
  | yes e ↦
      place-shift_from_ne n (i + 1) highest (clear_bit bits ((highest + i) % 2 ^ 64))
        ((highest + j) % 2048) (length-clear_bit bits ((highest + i) % 2 ^ 64) ∙ full) (omega arith)
        (omega arith) (λ m a b. omega arith)
      ∙ place-clear_bit_self bits full ((highest + i) % 2 ^ 64) ((highest + j) % 2048) (omega arith)
  | no ne ↦
      place-shift_from_self n (i + 1) highest (clear_bit bits ((highest + i) % 2 ^ 64)) j
        (length-clear_bit bits ((highest + i) % 2 ^ 64) ∙ full) (omega arith) (omega arith)
        (omega arith) (omega arith)
]
