-- ===== src/Tsmp/Checksum.antt =====
-- The pong's header checksum verifies.
use lando.Prelude.{
  ℕ, zero, suc, ◌+◌, ◌-◌, ◌*◌, ◌/◌, ◌%◌, ◌^◌, ◌<◌, ◌≡◌, refl, ap, bit_and, ◌==◌, arith, inl, inr,
  Bool-cases, true,
}
use lando.Prelude.Bits.{bit_and_lem, bit_and-zero}
use native.Mathlib.Nat.{pow-suc}
use lando.Tsmp.{fold_carries}

masked :
    (n a m : ℕ) → m + 1 ≡ 2 ^ n → (q : ℕ) × (a ≡ bit_and a m + q * 2 ^ n) × (bit_and a m < 2 ^ n)
masked zero a zero h = (a, omega (arith, bit_and-zero a a), omega (arith, bit_and-zero a a))
masked zero a (suc m) h = absurd (omega arith)
masked (suc n) a m h =
    let (q, e, small) = masked n (a / 2) (m / 2) (omega (arith, pow-suc 2 n)) in
    (
      q,
      omega (arith, bit_and_lem a m, pow-suc 2 n, ap (λ (t : ℕ). q * t) (pow-suc 2 n)),
      omega (arith, bit_and_lem a m, pow-suc 2 n),
    )

-- The carries folded once.
once : (sum : ℕ) → bit_and sum 0xffff + sum / 2 ^ 16 ≡ sum % 2 ^ 16 + sum / 2 ^ 16
once sum = let (q, e, small) = masked 16 sum 0xffff (omega arith) in omega arith

-- Folding the carries keeps the sum modulo 65535.
fold_carries_lem : (fuel sum : ℕ) → (k : ℕ) × (sum ≡ fold_carries fuel sum + k * 65535)
unfolding fold_carries
fold_carries_lem zero sum = (0, omega arith)
fold_carries_lem (suc fuel) sum = elim (Bool-cases (sum / 2 ^ 16 == 0)) [
  | inl e ↦ rw e (0, omega arith)
  | inr e ↦
      let (k, h) = fold_carries_lem fuel (bit_and sum 0xffff + sum / 2 ^ 16) in
      rw e (k + sum / 2 ^ 16, omega (arith, h, once sum))
]

fold_fixed : (fuel sum : ℕ) → sum < 2 ^ 16 → fold_carries fuel sum ≡ sum
unfolding fold_carries
fold_fixed zero sum h = refl
fold_fixed (suc fuel) sum h = let e : (sum / 2 ^ 16 == 0) ≡ true = ground arith in rw e refl

one_round :
    (fuel sum : ℕ)
    → fold_carries fuel (sum % 2 ^ 16 + sum / 2 ^ 16) < 2 ^ 16
    → fold_carries (suc fuel) sum < 2 ^ 16
unfolding fold_carries
one_round fuel sum h = elim (Bool-cases (sum / 2 ^ 16 == 0)) [
  | inl e ↦ let small : sum < 2 ^ 16 = ground arith in rw e small
  | inr e ↦ rw e (omega (arith, h, ap (fold_carries fuel) (once sum)))
]

-- Below `2 ^ 20`, three rounds are enough.
fold_within : (sum : ℕ) → sum < 2 ^ 20 → fold_carries 3 sum < 2 ^ 16
fold_within sum h =
    let x = sum % 2 ^ 16 + sum / 2 ^ 16 in
    let y = x % 2 ^ 16 + x / 2 ^ 16 in
    one_round 2 sum (one_round 1 x (omega (arith, fold_fixed 1 y (omega arith))))

fold_pos : (fuel sum : ℕ) → 0 < sum → 0 < fold_carries fuel sum
unfolding fold_carries
fold_pos zero sum h = h
fold_pos (suc fuel) sum h = elim (Bool-cases (sum / 2 ^ 16 == 0)) [
  | inl e ↦ rw e h
  | inr e ↦ rw e (fold_pos fuel (bit_and sum 0xffff + sum / 2 ^ 16) (omega (arith, once sum)))
]

abbrev pub sum_checksum : ℕ → ℕ
sum_checksum sum = 0xffff - fold_carries 3 sum % 2 ^ 16

-- A sum that the checksum has been added to has checksum 0.
pub checksum-added :
    (sum : ℕ) → 0 < sum → sum + 2 ^ 16 < 2 ^ 20 → sum_checksum (sum + sum_checksum sum) ≡ 0
checksum-added sum pos h =
    let (k, e) = fold_carries_lem 3 sum in
    let small = fold_within sum (omega arith) in
    let c = sum_checksum sum in
    let (k', e') = fold_carries_lem 3 (sum + c) in
    let small' = fold_within (sum + c) (omega arith) in
    let pos' = fold_pos 3 (sum + c) (omega arith) in omega arith

pub checksum-16 : (sum : ℕ) → sum_checksum sum < 2 ^ 16
checksum-16 sum = omega arith
