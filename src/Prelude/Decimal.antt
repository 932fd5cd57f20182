-- ===== src/Prelude/Decimal.antt =====
-- Numbers as decimal text. Three functions of the code share this loop, which fills a buffer of
-- digits from its end.
use lando.Prelude.{
  ℕ, zero, suc, ◌+◌, ◌-◌, ◌*◌, ◌/◌, ◌%◌, ◌^◌, ◌<◌, ◌≤◌, ◌≡◌, ◌≢◌, refl, sym, ap, ◌∙◌, [], ◌∷◌, ◌++◌,
  append_assoc, append-nil, All, length, drop, set, replicate, ◌==◌, if◌then◌else◌, arith, inl, inr,
  Bool-cases, length-set, length-append, length-replicate, drop_all,
}
use lando.Prelude.Bytes.{Bytes}
use native.Mathlib.Nat.{pow-suc}

-- `while v > 0 { i -= 1; digits[i] = b'0' + v % 10; v /= 10 }`, a round of fuel for each digit that
-- the buffer has room for: where the code would write before its start, the loop stops.
pub digits_from : ℕ → ℕ → ℕ → Bytes → ℕ × Bytes
digits_from zero v i digits = (i, digits)
digits_from (suc room) v i digits =
    let rest = digits_from room (v / 10) (i - 1) (set digits (i - 1) (b'0' + v % 10)) in
    if v == 0 then (i, digits) else rest

-- The digits written, `digits[i..]`, of a buffer of `room` bytes; `0` has one.
unfoldable pub decimal : ℕ → ℕ → Bytes
unfolding digits_from
decimal room v =
    if v == 0
    then b'0' ∷ []
    else let (i, digits) = digits_from room v room (replicate room 0) in drop i digits

-- The number that digits spell behind `n`.
abbrev pub value_from : ℕ → Bytes → ℕ
value_from n [] = n
value_from n (c ∷ s) = value_from (n * 10 + (c - b'0')) s

abbrev pub IsDigit : ℕ → Type 0
IsDigit c = (b'0' ≤ c) × (c ≤ b'9')

-- The digits of a positive number, from the first.
spelled : ℕ → ℕ → Bytes
spelled zero v = []
spelled (suc room) v =
    let rest = spelled room (v / 10) ++ (b'0' + v % 10) ∷ [] in if v == 0 then [] else rest

drop-set :
    (digits : Bytes) (i c : ℕ)
    → i < length digits
    → drop i (set digits i c) ≡ c ∷ drop (suc i) digits
drop-set [] i c h = absurd (omega arith)
drop-set (x ∷ digits) zero c h = refl
drop-set (x ∷ digits) (suc i) c h = drop-set digits i c (omega arith)

digits_from-spelled :
    (room v i : ℕ) (digits : Bytes)
    → room ≤ i
    → i ≤ length digits
    → drop (digits_from room v i digits).0 (digits_from room v i digits).1
      ≡ spelled room v ++ drop i digits
unfolding digits_from spelled
digits_from-spelled zero v i digits h k = refl
digits_from-spelled (suc room) v zero digits h k = absurd (omega arith)
digits_from-spelled (suc room) v (suc i) digits h k = elim (Bool-cases (v == 0)) [
  | inl e ↦ rw e refl
  | inr e ↦
      let before : suc i - 1 ≡ i = omega arith in
      let c = b'0' + v % 10 in
      rw e (
        rw before (
          digits_from-spelled room (v / 10) i (set digits i c) (omega arith)
            (omega (arith, length-set digits i c))
          ∙ ap (λ t. spelled room (v / 10) ++ t) (drop-set digits i c (omega arith))
          ∙ sym (append_assoc (spelled room (v / 10)) (c ∷ []) (drop (suc i) digits))))
]

value_from-append :
    (n : ℕ) (xs ys : Bytes) → value_from n (xs ++ ys) ≡ value_from (value_from n xs) ys
value_from-append n [] ys = refl
value_from-append n (x ∷ xs) ys = value_from-append (n * 10 + (x - b'0')) xs ys

append-IsDigit : (xs ys : Bytes) → All IsDigit xs → All IsDigit ys → All IsDigit (xs ++ ys)
append-IsDigit [] ys p q = q
append-IsDigit (x ∷ xs) ys (p, ps) q = (p, append-IsDigit xs ys ps q)

spelled_lem :
    (room v : ℕ)
    → v < 10 ^ room
    → (value_from 0 (spelled room v) ≡ v)
      × All IsDigit (spelled room v)
      × (v ≢ 0 → 0 < length (spelled room v))
      × (length (spelled room v) ≤ room)
unfolding spelled
spelled_lem zero v h = (omega arith, tt, λ k. absurd (k (omega arith)), omega arith)
spelled_lem (suc room) v h = elim (Bool-cases (v == 0)) [
  | inl e ↦ rw e (ground arith, tt, λ k. absurd (k (ground arith)), omega arith)
  | inr e ↦
      let s = spelled room (v / 10) in
      let ih = spelled_lem room (v / 10) (omega (arith, pow-suc 10 room)) in
      let size = length-append s ((b'0' + v % 10) ∷ []) in
      rw e (
        omega (arith, value_from-append 0 s ((b'0' + v % 10) ∷ []), ih.0),
        append-IsDigit s ((b'0' + v % 10) ∷ []) ih.1 (omega arith),
        λ k. omega (arith, size),
        omega (arith, size, ih.3),
      )
]

-- The decimal text of a number below `10 ^ room` is at least one digit and at most `room`, all of
-- it digits, and spells the number.
pub decimal_lem :
    (room v : ℕ)
    → v < 10 ^ room
    → 0 < room
    → (value_from 0 (decimal room v) ≡ v)
      × All IsDigit (decimal room v)
      × (0 < length (decimal room v))
      × (length (decimal room v) ≤ room)
unfolding decimal
decimal_lem room v h k = elim (Bool-cases (v == 0)) [
  | inl e ↦ rw e (ground arith, omega arith, omega arith, omega arith)
  | inr e ↦
      let s = spelled_lem room v h in
      let blank = replicate {A = ℕ} room 0 in
      let size = length-replicate {A = ℕ} room 0 in
      let digits =
        digits_from-spelled room v room blank (omega arith) (omega (arith, size))
        ∙ ap (λ t. spelled room v ++ t) (drop_all blank room (omega (arith, size)))
        ∙ append-nil (spelled room v) in
      rw e (rw digits (s.0, s.1, s.2 (ground arith), s.3))
]
