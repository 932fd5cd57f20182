-- ===== src/Json/Reader/Fields.antt =====
-- Looking a field up ends, whatever the bytes.
use lando.Prelude.{
  ℕ, zero, suc, ◌<◌, ◌≤◌, ◌≡◌, ◌≢◌, refl, ap, subst, Bool, true, false, none, some, [], ◌∷◌, length,
  ◌==◌, if◌then◌else◌, Result, ok, err, ◌>>=◌, arith, ◌⊎◌, inl, inr, Bool-cases,
}
use lando.Prelude.Bytes.{Bytes, eq_bytes}
use lando.Json.{JsonError, malformed, out_of_fuel}
use lando.Json.Reader.{
  Read, is_ws, expect, skip_ws, peeks, parse_string, parse_value, field_member, field_loop, field,
}
use lando.Json.Reader.Total.{Proper, Good, parse_string-Good, parse_value-Good}

skip_ws_le : (s : Bytes) → length (skip_ws s) ≤ length s
unfolding skip_ws
skip_ws_le [] = omega arith
skip_ws_le (b ∷ s) = elim (Bool-cases (is_ws b)) [
  | inl e ↦ rw e (omega (arith, skip_ws_le s))
  | inr e ↦ rw e (omega arith)
]

-- A result of a lookup, or of a step of it, that is not for want of fuel.
abbrev Ends : {A : Type 0} → Result JsonError A → Type 0
Ends (ok a) = Unit
Ends (err e) = Proper e

expect_lem :
    (c : ℕ) (s : Bytes)
    → ((rest : Bytes) × (expect c s ≡ ok rest) × (length rest < length s))
      ⊎ (expect c s ≡ err malformed)
unfolding expect
expect_lem c [] = inr refl
expect_lem c (b ∷ s) = elim (Bool-cases (b == c)) [
  | inl e ↦ inl (s, rw e refl, omega arith)
  | inr e ↦ inr (rw e refl)
]

read_lem :
    {A : Type 0} (n : ℕ) (r : Read A)
    → Good n r
    → ((a : A) × (rest : Bytes) × (r ≡ ok (a, rest)) × (length rest < n))
      ⊎ ((e : JsonError) × (r ≡ err e) × Proper e)
read_lem n (ok (a, rest)) h = inl (a, rest, refl, h)
read_lem n (err e) h = inr (e, refl, h)

field_member-Good : (s : Bytes) → Good (length s) (field_member s)
unfolding field_member
field_member-Good s =
    let s0 = skip_ws s in
    elim (read_lem (length s0) (parse_string s0) (parse_string-Good s0)) [
      | inr (x, e, p) ↦ rw (e, ◌>>=◌) p
      | inl (key, s1, e, less) ↦ elim (expect_lem b':' (skip_ws s1)) [
        | inr e' ↦ rw (e, ◌>>=◌) (rw (e', ◌>>=◌) tt)
        | inl (s2, e', less') ↦
            elim (read_lem (length (skip_ws s2)) (parse_value (skip_ws s2))
              (parse_value-Good (skip_ws s2))) [
                | inr (x, e'', p) ↦ rw (e, ◌>>=◌) (rw (e', ◌>>=◌) (rw (e'', ◌>>=◌) p))
                | inl (value, s3, e'', less'') ↦
                    rw (e, ◌>>=◌)
                      (rw (e', ◌>>=◌)
                        (rw (e'', ◌>>=◌)
                          (omega (arith, skip_ws_le s, skip_ws_le s1, skip_ws_le s2))))
              ]
      ]
    ]

Ends-if :
    {A : Type 0} (b : Bool) (x y : Result JsonError A) → Ends x → Ends y → Ends (if b then x else y)
Ends-if true x y p q = p
Ends-if false x y p q = q

List-cases : (s : Bytes) → (s ≡ []) ⊎ ((b : ℕ) × (rest : Bytes) × (s ≡ b ∷ rest))
List-cases [] = inl refl
List-cases (b ∷ rest) = inr (b, rest, refl)

field_loop-Ends : (fuel : ℕ) (s want : Bytes) → length s < fuel → Ends (field_loop fuel s want)
unfolding field_loop
field_loop-Ends zero s want h = absurd (omega arith)
field_loop-Ends (suc fuel) s want h =
    elim (read_lem (length s) (field_member s) (field_member-Good s)) [
      | inr (x, e, p) ↦ rw (e, ◌>>=◌) p
      | inl ((key, value), rest, e, less) ↦
          rw (e, ◌>>=◌)
            (Ends-if (eq_bytes key want) (ok (some value)) _ tt (elim (List-cases (skip_ws rest)) [
              | inl n ↦ rw n tt
              | inr (b, after, c) ↦ rw c (
                  Ends-if (b == b',') (field_loop fuel after want) _
                    (field_loop-Ends fuel after want (omega (arith, skip_ws_le rest, ap length c)))
                    (Ends-if (b == b'}') (ok none) (err malformed) tt tt))
            ]))
    ]

field-Ends : (json want : Bytes) → Ends (field json want)
unfolding field
field-Ends json want = elim (expect_lem b'{' (skip_ws json)) [
  | inr e ↦ rw (e, ◌>>=◌) tt
  | inl (s, e, less) ↦
      rw (e, ◌>>=◌)
        (Ends-if (peeks b'}' (skip_ws s)) (ok none) _ tt
          (field_loop-Ends (suc (length s)) (skip_ws s) want (omega (arith, skip_ws_le s))))
]

-- `field` ends on every input: the rounds that its loops are given are always enough.
pub field_total : (json want : Bytes) → field json want ≢ err out_of_fuel
field_total json want h = subst Ends h (field-Ends json want)
