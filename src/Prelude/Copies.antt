-- ===== src/Prelude/Copies.antt =====
-- What a copy into a buffer leaves before it and from it on.
use lando.Prelude.{
  ℕ, zero, suc, ◌+◌, ◌≤◌, ◌≡◌, refl, sym, ap, ap₂, ◌∙◌, [], ◌∷◌, ◌++◌, length, take, drop,
  length-append, length-drop, length-take, take-append_self, drop-append_self, take-append_le,
  drop-drop, over, append_assoc, arith,
}
use lando.Prelude.Bytes.{Bytes, copy_at, copy_at-over}

take-take : (xs : Bytes) (j k : ℕ) → j ≤ k → take j (take k xs) ≡ take j xs
take-take xs zero k h = refl
take-take xs (suc j) zero h = absurd (omega arith)
take-take [] (suc j) (suc k) h = refl
take-take (x ∷ xs) (suc j) (suc k) h = ap (λ t. x ∷ t) (take-take xs j k (omega arith))

module _ (b q : Bytes) (k : ℕ) (within : k ≤ length b) where
  front_size : length (take k b) ≡ k
  front_size = omega (arith, length-take k b)

  pub drop-copy_at : drop k (copy_at b k q) ≡ q ++ drop (k + length q) b
  drop-copy_at = drop-append_self (take k b) (q ++ drop (k + length q) b) k (sym front_size)

  pub take-copy_at : (j : ℕ) → j ≤ k → take j (copy_at b k q) ≡ take j b
  take-copy_at j h =
      take-append_le (take k b) (q ++ drop (k + length q) b) j (omega (arith, front_size))
      ∙ take-take b j k h

  -- What is copied to the same place over it is all that stays.
  pub copy_at-again :
      (p : Bytes) → length p ≡ length q → copy_at (copy_at b k q) k p ≡ copy_at b k p
  copy_at-again p h =
      ap₂ (λ f r. f ++ (p ++ r)) (take-copy_at k (omega arith))
        (sym (drop-drop (copy_at b k q) (length p) k (k + length p) refl)
          ∙ ap (drop (length p)) drop-copy_at
          ∙ drop-append_self q (drop (k + length q) b) (length p) h
          ∙ ap (λ n. drop n b) (omega arith))

-- A field is written into the place that was left before another.
pub copy_at-before :
    (front slot behind out : Bytes) (n k : ℕ)
    → n ≡ length front
    → k ≡ length front + length slot
    → k ≤ length (over front out)
    → copy_at (copy_at (over front out) k behind) n slot
      ≡ front ++ (slot ++ (behind ++ drop (k + length behind) (over front out)))
copy_at-before front slot behind out n k e h within =
    let b = over front out in
    ap₂ (λ f r. f ++ (slot ++ r))
      (take-copy_at b behind k within n (omega arith)
        ∙ take-append_self front (drop (length front) out) n e)
      (ap (λ i. drop i (copy_at b k behind)) (omega arith) ∙ drop-copy_at b behind k within)

-- What stands behind the front of a message.
pub drop-take_append :
    (front rest : Bytes) (k m n : ℕ)
    → k ≡ length front
    → n ≡ k + m
    → drop k (take n (front ++ rest)) ≡ take m rest
drop-take_append [] rest zero m n h e = ap (λ i. take i rest) (omega arith)
drop-take_append [] rest (suc k) m n h e = absurd (omega arith)
drop-take_append (x ∷ front) rest zero m n h e = absurd (omega arith)
drop-take_append (x ∷ front) rest (suc k) m zero h e = absurd (omega arith)
drop-take_append (x ∷ front) rest (suc k) m (suc n) h e =
    drop-take_append front rest k m n (omega arith) (omega arith)

copy_at-is_over : (b p : Bytes) (k : ℕ) → k ≤ length b → copy_at b k p ≡ over (take k b ++ p) b
copy_at-is_over b p k h =
    sym (append_assoc (take k b) p (drop (k + length p) b))
    ∙ ap (λ i. (take k b ++ p) ++ drop i b)
        (omega (arith, length-append (take k b) p, length-take k b))

-- A copy that starts where another has ended.
pub copy_at-next :
    (b p q : Bytes) (k n : ℕ)
    → k ≤ length b
    → n ≡ k + length p
    → copy_at (copy_at b k p) n q ≡ copy_at b k (p ++ q)
copy_at-next b p q k n h e =
    ap (λ t. copy_at t n q) (copy_at-is_over b p k h)
    ∙ copy_at-over (take k b ++ p) q b n
        (omega (arith, length-append (take k b) p, length-take k b))
    ∙ ap (λ f. over f b) (append_assoc (take k b) p q)
    ∙ sym (copy_at-is_over b (p ++ q) k h)

-- A buffer keeps its length when its front is overwritten.
pub length-over :
    (front out : Bytes) → length front ≤ length out → length (over front out) ≡ length out
length-over front out h =
    omega (arith, length-append front (drop (length front) out), length-drop (length front) out)
