-- ===== src/Prelude/Checks.antt =====
-- A test of the numbers below a bound, one by one.
use lando.Prelude.{
  ℕ, zero, suc, ◌<◌, ◌≡◌, ap, ◌∙◌, inl, inr, Bool, true, Bool-cases, ◌==◌, ◌&&◌, ==_iff, arith,
}

unfoldable pub all_below : (ℕ → Bool) → ℕ → Bool
all_below test zero = true
all_below test (suc n) = test n && all_below test n

pub both : (a b : Bool) → (a && b) ≡ true → (a ≡ true) × (b ≡ true)
both a b e = ground arith

pub all_below_lem : (test : ℕ → Bool) (n k : ℕ) → all_below test n ≡ true → k < n → test k ≡ true
unfolding all_below
all_below_lem test zero k e h = absurd (omega arith)
all_below_lem test (suc n) k e h = elim (Bool-cases (k == n)) [
  | inl same ↦ ap test ((==_iff k n).0 same) ∙ (both (test n) (all_below test n) e).0
  | inr other ↦ all_below_lem test n k (both (test n) (all_below test n) e).1 (ground arith)
]
