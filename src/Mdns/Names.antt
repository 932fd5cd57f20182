-- ===== src/Mdns/Names.antt =====
-- Skipping a name ends, stays within the message, and reads nothing outside the name.
use lando.Prelude.{
  ℕ, zero, suc, ◌+◌, ◌<◌, ◌≤◌, ◌≡◌, ◌≢◌, refl, ap, ◌∙◌, inl, inr, none, some, [], ◌∷◌, length,
  get_elem?, set, ok, arith, Option-cases, get_elem?-set_ne, length-set,
}
use lando.Prelude.Bytes.{Bytes}
use lando.Mdns.{skip_name_loop, skip_name}

get_elem?-lt : (xs : Bytes) (i : ℕ) {v : ℕ} → get_elem? xs i ≡ some v → i < length xs
get_elem?-lt [] i h = cc
get_elem?-lt (x ∷ xs) zero h = omega arith
get_elem?-lt (x ∷ xs) (suc i) h = omega (arith, get_elem?-lt xs i h)

-- Where a name ends: past its start, and within the message.
skip_name_loop_bounds :
    (fuel : ℕ) (msg : Bytes) (pos : ℕ) {at : ℕ}
    → skip_name_loop fuel msg pos ≡ some (ok at)
    → (pos < at) × (at ≤ length msg)
unfolding skip_name_loop
skip_name_loop_bounds zero msg pos h = cc
skip_name_loop_bounds (suc fuel) msg pos {at} h = elim (Option-cases (get_elem? msg pos)) [
  | inl e ↦ ground arith
  | inr (len, e) ↦
      ground
        (arith, get_elem?-lt msg pos e, skip_name_loop_bounds fuel msg (pos + 1 + len) {at = at})
]

skip_name_loop_total :
    (fuel : ℕ) (msg : Bytes) (pos : ℕ)
    → length msg < pos + fuel
    → 0 < fuel
    → skip_name_loop fuel msg pos ≢ none
unfolding skip_name_loop
skip_name_loop_total zero msg pos h k = absurd (omega arith)
skip_name_loop_total (suc fuel) msg pos h k = elim (Option-cases (get_elem? msg pos)) [
  | inl e ↦ ground arith
  | inr (len, e) ↦
      ground (arith, get_elem?-lt msg pos e, skip_name_loop_total fuel msg (pos + 1 + len))
]

-- Skipping a name never runs out of fuel.
pub skip_name-ne-none : (msg : Bytes) (pos : ℕ) → skip_name msg pos ≢ none
unfolding skip_name
skip_name-ne-none msg pos =
    skip_name_loop_total (suc (length msg)) msg pos (omega arith) (omega arith)

pub skip_name_bounds :
    (msg : Bytes) (pos : ℕ) {at : ℕ}
    → skip_name msg pos ≡ some (ok at)
    → (pos < at) × (at ≤ length msg)
unfolding skip_name
skip_name_bounds msg pos h = skip_name_loop_bounds (suc (length msg)) msg pos h

-- The bytes before the start of a name do not matter.
skip_name_loop-set :
    (fuel : ℕ) (msg : Bytes) (pos i v : ℕ)
    → i < pos
    → skip_name_loop fuel (set msg i v) pos ≡ skip_name_loop fuel msg pos
unfolding skip_name_loop
skip_name_loop-set zero msg pos i v h = refl
skip_name_loop-set (suc fuel) msg pos i v h = elim (Option-cases (get_elem? msg pos)) [
  | inl e ↦ ground (arith, get_elem?-set_ne msg i pos v (λ p. omega arith))
  | inr (len, e) ↦ ground (
    arith,
    get_elem?-set_ne msg i pos v (λ p. omega arith),
    length-set msg i v,
    skip_name_loop-set fuel msg (pos + 1 + len) i v,
  )
]

pub skip_name-set :
    (msg : Bytes) (pos i v : ℕ) → i < pos → skip_name (set msg i v) pos ≡ skip_name msg pos
unfolding skip_name
skip_name-set msg pos i v h =
    ap (λ n. skip_name_loop (suc n) (set msg i v) pos) (length-set msg i v)
    ∙ skip_name_loop-set (suc (length msg)) msg pos i v h

-- Nor do the bytes past its end.
skip_name_loop_prefix :
    (fuel : ℕ) (msg msg' : Bytes) (pos : ℕ) {at : ℕ}
    → length msg' ≡ length msg
    → ((i : ℕ) → i < at → get_elem? msg' i ≡ get_elem? msg i)
    → skip_name_loop fuel msg pos ≡ some (ok at)
    → skip_name_loop fuel msg' pos ≡ some (ok at)
unfolding skip_name_loop
skip_name_loop_prefix zero msg msg' pos same agree h = cc
skip_name_loop_prefix (suc fuel) msg msg' pos {at} same agree h =
    let bounds = skip_name_loop_bounds (suc fuel) msg pos h in
    elim (Option-cases (get_elem? msg pos)) [
      | inl e ↦ ground arith
      | inr (len, e) ↦ ground (
        arith,
        agree pos bounds.0,
        skip_name_loop_prefix fuel msg msg' (pos + 1 + len) same agree,
      )
    ]

pub skip_name_prefix :
    (msg msg' : Bytes) (pos : ℕ) {at : ℕ}
    → length msg' ≡ length msg
    → ((i : ℕ) → i < at → get_elem? msg' i ≡ get_elem? msg i)
    → skip_name msg pos ≡ some (ok at)
    → skip_name msg' pos ≡ some (ok at)
unfolding skip_name
skip_name_prefix msg msg' pos {at} same agree h =
    ap (λ n. skip_name_loop (suc n) msg' pos) same
    ∙ skip_name_loop_prefix (suc (length msg)) msg msg' pos same agree h
