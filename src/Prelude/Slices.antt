-- ===== src/Prelude/Slices.antt =====
-- Taking and dropping across an append, and a buffer that is filled from its start.
use Prim.Native.Nat.{ℕ, zero, suc, ◌+◌, ◌≤◌, ◌<◌}
use mathlib.Core.Path.{◌≡◌, refl, sym, ap, ap₂, ◌∙◌}
use mathlib.Core.List.{List, [], ◌∷◌, ◌++◌, append_assoc}
use native.Mathlib.Omega.{arith}
use lando.Prelude.Lists.{length, take, drop, set, length-append, length-drop}

module _ {ℓ} {A : Type ℓ} where
  pub take-append_self : (xs ys : List A) (n : ℕ) → n ≡ length xs → take n (xs ++ ys) ≡ xs
  take-append_self [] ys zero h = refl
  take-append_self [] ys (suc n) h = absurd (omega arith)
  take-append_self (x ∷ xs) ys zero h = absurd (omega arith)
  take-append_self (x ∷ xs) ys (suc n) h = ap (λ t. x ∷ t) (take-append_self xs ys n (omega arith))

  pub drop-append_self : (xs ys : List A) (n : ℕ) → n ≡ length xs → drop n (xs ++ ys) ≡ ys
  drop-append_self [] ys zero h = refl
  drop-append_self [] ys (suc n) h = absurd (omega arith)
  drop-append_self (x ∷ xs) ys zero h = absurd (omega arith)
  drop-append_self (x ∷ xs) ys (suc n) h = drop-append_self xs ys n (omega arith)

  pub take-append_le : (xs ys : List A) (n : ℕ) → n ≤ length xs → take n (xs ++ ys) ≡ take n xs
  take-append_le xs ys zero h = refl
  take-append_le [] ys (suc n) h = absurd (omega arith)
  take-append_le (x ∷ xs) ys (suc n) h = ap (λ t. x ∷ t) (take-append_le xs ys n (omega arith))

  pub drop-append_le :
      (xs ys : List A) (n : ℕ) → n ≤ length xs → drop n (xs ++ ys) ≡ drop n xs ++ ys
  drop-append_le xs ys zero h = refl
  drop-append_le [] ys (suc n) h = absurd (omega arith)
  drop-append_le (x ∷ xs) ys (suc n) h = drop-append_le xs ys n (omega arith)

  pub take_all : (xs : List A) (n : ℕ) → length xs ≤ n → take n xs ≡ xs
  take_all [] zero h = refl
  take_all [] (suc n) h = refl
  take_all (x ∷ xs) zero h = absurd (omega arith)
  take_all (x ∷ xs) (suc n) h = ap (λ t. x ∷ t) (take_all xs n (omega arith))

  pub drop_all : (xs : List A) (n : ℕ) → length xs ≤ n → drop n xs ≡ []
  drop_all [] zero h = refl
  drop_all [] (suc n) h = refl
  drop_all (x ∷ xs) zero h = absurd (omega arith)
  drop_all (x ∷ xs) (suc n) h = drop_all xs n (omega arith)

  pub drop-drop : (xs : List A) (n m k : ℕ) → k ≡ m + n → drop n (drop m xs) ≡ drop k xs
  drop-drop xs n zero k e = ap (λ t. drop t xs) (omega arith)
  drop-drop [] zero (suc m) zero e = absurd (omega arith)
  drop-drop [] zero (suc m) (suc k) e = refl
  drop-drop [] (suc n) (suc m) zero e = absurd (omega arith)
  drop-drop [] (suc n) (suc m) (suc k) e = refl
  drop-drop (x ∷ xs) n (suc m) zero e = absurd (omega arith)
  drop-drop (x ∷ xs) n (suc m) (suc k) e = drop-drop xs n m k (omega arith)

  -- Two takes in a row.
  pub take-add : (xs : List A) (m n k : ℕ) → k ≡ m + n → take m xs ++ take n (drop m xs) ≡ take k xs
  take-add xs zero n k e = ap (λ t. take t xs) (omega arith)
  take-add xs (suc m) n zero e = absurd (omega arith)
  take-add [] (suc m) zero (suc k) e = refl
  take-add [] (suc m) (suc n) (suc k) e = refl
  take-add (x ∷ xs) (suc m) n (suc k) e = ap (λ t. x ∷ t) (take-add xs m n k (omega arith))

  -- A buffer whose front has been overwritten by `p`.
  abbrev pub over : List A → List A → List A
  over p out = p ++ drop (length p) out

  -- A copy that starts where the front ends makes the front longer.
  pub over-append :
      (p b out : List A) (n : ℕ)
      → n ≡ length p
      → take n (over p out) ++ (b ++ drop (n + length b) (over p out)) ≡ over (p ++ b) out
  over-append p b out n e =
      ap₂ (λ s t. s ++ (b ++ t)) (take-append_self p (drop (length p) out) n e) rest
      ∙ sym (append_assoc p b (drop (length (p ++ b)) out))
    where
      rest : drop (n + length b) (over p out) ≡ drop (length (p ++ b)) out
      rest =
          sym (drop-drop (over p out) (length b) n (n + length b) refl)
          ∙ ap (drop (length b)) (drop-append_self p (drop (length p) out) n e)
          ∙ drop-drop out (length b) (length p) (length (p ++ b)) (length-append p b)

  pub length-over : (p out : List A) → length p ≤ length out → length (over p out) ≡ length out
  length-over p out h =
      omega (arith, length-append p (drop (length p) out), length-drop (length p) out)

  -- A write just behind the front makes it longer by one.
  pub set-over :
      (p out : List A) (n : ℕ) (v : A)
      → n ≡ length p
      → n < length out
      → set (over p out) n v ≡ over (p ++ v ∷ []) out
  set-over [] [] n v e h = absurd (omega arith)
  set-over [] (x ∷ out) zero v e h = refl
  set-over [] (x ∷ out) (suc n) v e h = absurd (omega arith)
  set-over (y ∷ p) [] n v e h = absurd (omega arith)
  set-over (y ∷ p) (x ∷ out) zero v e h = absurd (omega arith)
  set-over (y ∷ p) (x ∷ out) (suc n) v e h =
      ap (λ t. y ∷ t) (set-over p out n v (omega arith) (omega arith))

  pub take-over : (p out : List A) (n : ℕ) → n ≡ length p → take n (over p out) ≡ p
  take-over p out n e = take-append_self p (drop (length p) out) n e
