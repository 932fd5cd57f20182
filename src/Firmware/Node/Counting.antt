-- ===== src/Firmware/Node/Counting.antt =====
-- `bump` counts, and starts again only when all nonces have been used.
use lando.Prelude.{
  ℕ, suc, ◌+◌, ◌%◌, ◌^◌, ◌<◌, ◌≤◌, ◌≡◌, ◌≢◌, refl, ap, ◌∙◌, ◌⊎◌, inl, inr, Bool-cases, ◌==◌, List,
  [], ◌∷◌, length, All, arith,
}
use lando.Prelude.Bytes.{Bytes, IsByte, from_le}
use native.Mathlib.Nat.{pow-suc}
use lando.Firmware.Node.{bump}

bump_lem :
    (nonce : Bytes)
    → All IsByte nonce
    → ((from_le nonce + 1 ≡ 256 ^ length nonce) × (from_le (bump nonce) ≡ 0))
      ⊎ (from_le (bump nonce) ≡ from_le nonce + 1)
unfolding bump
bump_lem [] h = inl (refl, refl)
bump_lem (b ∷ nonce) h = elim (Bool-cases ((b + 1) % 256 == 0)) [
  | inr e ↦ inr (rw e (ground arith))
  | inl e ↦ elim (bump_lem nonce h.1) [
    | inl (full, wraps) ↦ inl (ground arith, rw e (ground arith))
    | inr counts ↦ inr (rw e (ground arith))
  ]
]

bump-IsByte : (nonce : Bytes) → All IsByte nonce → All IsByte (bump nonce)
unfolding bump
bump-IsByte [] h = h
bump-IsByte (b ∷ nonce) h = elim (Bool-cases ((b + 1) % 256 == 0)) [
  | inr e ↦ rw e (omega arith, h.1)
  | inl e ↦ rw e (omega arith, bump-IsByte nonce h.1)
]

length-bump : (nonce : Bytes) → length (bump nonce) ≡ length nonce
unfolding bump
length-bump [] = refl
length-bump (b ∷ nonce) = ground (arith, length-bump nonce)

pub from_le-lt : (bs : Bytes) → All IsByte bs → from_le bs < 256 ^ length bs
from_le-lt [] h = omega arith
from_le-lt (b ∷ bs) h = omega (arith, from_le-lt bs h.1, pow-suc 256 (length bs))

-- A nonce that `k` pongs or fewer lead to from one of the value `v`, of the nonces below `p`.
abbrev pub Ahead : ℕ → ℕ → ℕ → Bytes → Type 0
Ahead p v k n = (c : ℕ) × (1 ≤ c) × (c ≤ k) × ((from_le n ≡ v + c) ⊎ (from_le n + p ≡ v + c))

pub All-Ahead_next :
    (p v v' k : ℕ) (ns : List Bytes)
    → v < p
    → suc k < p
    → (v' ≡ v + 1) ⊎ (v' + p ≡ v + 1)
    → All (Ahead p v' k) ns
    → All (Ahead p v (suc k)) ns
All-Ahead_next p v v' k [] below few h a = tt
All-Ahead_next p v v' k (n ∷ ns) below few h ((c, low, high, is), rest) =
    ((c + 1, omega arith, omega arith, ground arith), All-Ahead_next p v v' k ns below few h rest)

pub All-Ahead-ne :
    (p k : ℕ) (nonce : Bytes) (ns : List Bytes)
    → k < p
    → All (Ahead p (from_le nonce) k) ns
    → All (λ n. n ≢ nonce) ns
All-Ahead-ne p k nonce [] few a = tt
All-Ahead-ne p k nonce (n ∷ ns) few ((c, low, high, is), rest) =
    (λ e. absurd (ground (arith, ap from_le e)), All-Ahead-ne p k nonce ns few rest)

pub All-Ahead_more :
    (p v k : ℕ) (ns : List Bytes) → All (Ahead p v k) ns → All (Ahead p v (suc k)) ns
All-Ahead_more p v k [] a = tt
All-Ahead_more p v k (n ∷ ns) ((c, low, high, is), rest) =
    ((c, low, omega arith, is), All-Ahead_more p v k ns rest)

-- A nonce of bytes, of which there are `p`.
abbrev pub Counts : ℕ → Bytes → Type 0
Counts p n = All IsByte n × (256 ^ length n ≡ p)

pub bump-Counts :
    (p : ℕ) (n : Bytes)
    → Counts p n
    → Counts p (bump n)
      × ((from_le (bump n) ≡ from_le n + 1) ⊎ (from_le (bump n) + p ≡ from_le n + 1))
bump-Counts p n (bytes, size) = (
  (bump-IsByte n bytes, ap (λ k. 256 ^ k) (length-bump n) ∙ size),
  elim (bump_lem n bytes) [ inl (full, wraps) ↦ inr (omega arith) | inr counts ↦ inl counts ],
)
