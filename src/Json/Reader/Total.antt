-- ===== src/Json/Reader/Total.antt =====
-- The reader passes a byte at least with everything that it reads, so its loops have rounds enough.
use lando.Prelude.{
  ℕ, zero, suc, ◌+◌, ◌-◌, ◌<◌, ◌≤◌, ◌≡◌, refl, subst, Bool, true, false, some, [], ◌∷◌, length,
  ◌==◌, if◌then◌else◌, ok, err, arith, ◌⊎◌, inl, inr, Bool-cases, Option-cases,
}
use lando.Prelude.Bytes.{Bytes, codes, strip_prefix}
use lando.Json.{JsonError, out_of_fuel}
use lando.Json.Utf8.{is_utf8}
use lando.Json.Reader.{
  Value, Read, expect, string_loop, push, passed, valued, over_string, checked, parse_string,
  number_span, parse_number, Step, stop, go, nested_step, nested_loop, skip_nested, literal,
  literal_value, parse_value,
}

abbrev pub Proper : JsonError → Type 0
Proper out_of_fuel = ⊥
Proper e = Unit

-- A read of `n` bytes that passes one at least, or an error that is not for want of fuel.
abbrev pub Good : {A : Type 0} → ℕ → Read A → Type 0
Good n (ok (a, rest)) = length rest < n
Good n (err e) = Proper e

push-Good : (b n m : ℕ) (r : Read Bytes) → Good n r → n ≤ m → Good m (push b r)
push-Good b n m (ok (t, rest)) h k = omega arith
push-Good b n m (err e) h k = h

checked-Good : (n m : ℕ) (r : Read Bytes) → Good n r → n ≤ m → Good m (checked r)
checked-Good n m (err e) h k = h
checked-Good n m (ok (t, rest)) h k = elim (Bool-cases (is_utf8 t)) [
  | inl e ↦ rw e (omega arith)
  | inr e ↦ rw e tt
]

valued-Good : {A : Type 0} (f : A → Value) (n : ℕ) (r : Read A) → Good n r → Good n (valued f r)
valued-Good f n (ok (a, rest)) h = h
valued-Good f n (err e) h = h

passed-Good : (t : Bytes) (n m : ℕ) (r : Read Bytes) → Good n r → n ≤ m → Good m (passed t r)
passed-Good t n m (ok (u, rest)) h k = omega arith
passed-Good t n m (err e) h k = h

if-Good :
    {A : Type 0} (b : Bool) (n : ℕ) (x y : Read A)
    → Good n x
    → Good n y
    → Good n (if b then x else y)
if-Good true n x y p q = p
if-Good false n x y p q = q

string_loop-Good : (escaped : Bool) (s : Bytes) → Good (length s) (string_loop escaped s)
unfolding string_loop
string_loop-Good escaped [] = tt
string_loop-Good true (b ∷ s) =
    push-Good b (length s) (suc (length s)) (string_loop false s) (string_loop-Good false s)
      (omega arith)
string_loop-Good false (b ∷ s) =
    if-Good (b == b'"') (suc (length s)) (ok ([], s)) (push b (string_loop (b == 0x5c) s))
      (omega arith)
      (push-Good b (length s) (suc (length s)) (string_loop (b == 0x5c) s)
        (string_loop-Good (b == 0x5c) s) (omega arith))

pub parse_string-Good : (s : Bytes) → Good (length s) (parse_string s)
unfolding parse_string expect
parse_string-Good [] = tt
parse_string-Good (b ∷ s) = elim (Bool-cases (b == b'"')) [
  | inl e ↦ rw e (
      checked-Good (length s) (suc (length s)) (string_loop false s) (string_loop-Good false s)
        (omega arith))
  | inr e ↦ rw e tt
]

-- A round passes a byte at least, or ends so.
abbrev GoodStep : ℕ → Step → Type 0
GoodStep n (stop r) = Good n r
GoodStep n (go t s depth) = length s < n

over_string-GoodStep : (depth n : ℕ) (r : Read Bytes) → Good n r → GoodStep n (over_string depth r)
over_string-GoodStep depth n (ok (t, rest)) h = h
over_string-GoodStep depth n (err e) h = h

GoodStep-if :
    (b : Bool) (n : ℕ) (x y : Step) → GoodStep n x → GoodStep n y → GoodStep n (if b then x else y)
GoodStep-if true n x y p q = p
GoodStep-if false n x y p q = q

nested_step-GoodStep :
    (o c : ℕ) (s : Bytes) (depth : ℕ) → GoodStep (length s) (nested_step o c s depth)
unfolding nested_step
nested_step-GoodStep o c [] depth = tt
nested_step-GoodStep o c (b ∷ s) depth =
    let n = suc (length s) in
    GoodStep-if (b == b'"') n _ _
      (over_string-GoodStep depth n (parse_string (b ∷ s)) (parse_string-Good (b ∷ s)))
      (GoodStep-if (b == o) n _ _ (omega arith) (
        GoodStep-if (b == c) n _ _ (GoodStep-if (depth - 1 == 0) n _ _ (omega arith) (omega arith))
          (omega arith)))

Step-cases :
    (x : Step)
    → ((r : Read Bytes) × (x ≡ stop r))
      ⊎ ((t : Bytes) × (s' : Bytes) × (depth : ℕ) × (x ≡ go t s' depth))
Step-cases (stop r) = inl (r, refl)
Step-cases (go t s' depth) = inr (t, s', depth, refl)

nested_loop-Good :
    (fuel o c : ℕ) (s : Bytes) (depth : ℕ)
    → length s < fuel
    → Good (length s) (nested_loop fuel o c s depth)
unfolding nested_loop
nested_loop-Good zero o c s depth h = absurd (omega arith)
nested_loop-Good (suc fuel) o c s depth h =
    let good = nested_step-GoodStep o c s depth in
    elim (Step-cases (nested_step o c s depth)) [
      | inl (r, e) ↦ rw (e, nested_loop) (subst (GoodStep (length s)) e good)
      | inr (t, s', depth', e) ↦
          let less : length s' < length s = subst (GoodStep (length s)) e good in
          rw (e, nested_loop)
            (passed-Good t (length s') (length s) (nested_loop fuel o c s' depth')
              (nested_loop-Good fuel o c s' depth' (omega arith)) (omega arith))
    ]

skip_nested-Good : (o c : ℕ) (s : Bytes) → Good (length s) (skip_nested o c s)
unfolding skip_nested
skip_nested-Good o c s = nested_loop-Good (suc (length s)) o c s 0 (omega arith)

number_span_le : (s : Bytes) → length (number_span s).0 + length (number_span s).1 ≡ length s
unfolding number_span
number_span_le [] = omega arith
number_span_le (b ∷ s) = ground (arith, number_span_le s)

parse_number-Good : (s : Bytes) → Good (length s) (parse_number s)
unfolding parse_number
parse_number-Good s =
    let size = number_span_le s in
    let t = (number_span s).0 in
    elim (Bool-cases (length t == 0)) [
      | inl e ↦ rw e tt
      | inr e ↦
          let some_digits : 0 < length t = ground arith in
          rw e (
            valued-Good Value.number (length s) (checked (ok (t, (number_span s).1))) (
              checked-Good (length s) (length s) (ok (t, (number_span s).1)) (omega arith)
                (omega arith)))
    ]

strip_prefix_lt :
    (p s : Bytes) {rest : Bytes}
    → 0 < length p
    → strip_prefix p s ≡ some rest
    → length rest < length s
unfolding strip_prefix
strip_prefix_lt [] s k h = absurd (omega arith)
strip_prefix_lt (c ∷ []) [] k h = cc
strip_prefix_lt (c ∷ []) (b ∷ s) k h = ground arith
strip_prefix_lt (c ∷ d ∷ p) [] k h = cc
strip_prefix_lt (c ∷ d ∷ p) (b ∷ s) {rest} k h =
    ground (arith, strip_prefix_lt (d ∷ p) s {rest = rest})

literal_value-Good :
    (lit : Bytes) (v : Value) (s : Bytes) → 0 < length lit → Good (length s) (literal_value lit v s)
unfolding literal_value
literal_value-Good lit v s k = elim (Option-cases (strip_prefix lit s)) [
  | inl e ↦ rw (e, literal) tt
  | inr (rest, e) ↦ rw (e, literal) (strip_prefix_lt lit s k e)
]

-- Reading a value ends, whatever the bytes, and passes one of them at least.
pub parse_value-Good : (s : Bytes) → Good (length s) (parse_value s)
unfolding parse_value
parse_value-Good [] = tt
parse_value-Good (b ∷ s) =
    let n = suc (length s) in
    if-Good (b == b'"') n _ _
      (valued-Good Value.str n (parse_string (b ∷ s)) (parse_string-Good (b ∷ s)))
      (if-Good (b == b'{') n _ _
        (valued-Good Value.raw n (skip_nested b'{' b'}' (b ∷ s))
          (skip_nested-Good b'{' b'}' (b ∷ s)))
        (if-Good (b == b'[') n _ _
          (valued-Good Value.raw n (skip_nested b'[' b']' (b ∷ s))
            (skip_nested-Good b'[' b']' (b ∷ s)))
          (if-Good (b == b't') n _ _
            (literal_value-Good (codes "true") (Value.bool true) (b ∷ s) (omega arith))
            (if-Good (b == b'f') n _ _
              (literal_value-Good (codes "false") (Value.bool false) (b ∷ s) (omega arith))
              (if-Good (b == b'n') n _ _
                (literal_value-Good (codes "null") Value.null (b ∷ s) (omega arith))
                (parse_number-Good (b ∷ s)))))))
