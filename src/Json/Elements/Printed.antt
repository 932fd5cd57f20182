-- ===== src/Json/Elements/Printed.antt =====
-- The elements of a printed array.
use lando.Prelude.{
  ℕ, zero, suc, ◌<◌, ◌≤◌, ◌≡◌, refl, ap, ◌∙◌, Bool, true, false, none, some, List, [], ◌∷◌, ◌++◌,
  append_assoc, length, length-append, ◌==◌, arith,
}
use lando.Prelude.Bytes.{Bytes}
use lando.Json.Doc.{
  Doc, Items, str, number, bool, null, object, array, no_items, item, comma_text, print,
  print_items,
}
use lando.Json.Reader.{Value, is_number, skip_ws, peeks}
use lando.Json.Reader.Nested.{Fine, FineItems}
use lando.Json.Reader.Printed.{value_of, Stops, parse_value-print, skip_ws-print}
use lando.Json.Elements.{
  Elements, elements, stopped, yielded, next_value, next, collect, collect_all,
}

abbrev pub values_of : Items → List Value
values_of no_items = []
values_of (item d xs) = value_of d ∷ values_of xs

abbrev tail : Items → Bytes → Bytes
tail xs rest = print_items true xs ++ (b']' ∷ rest)

tail-Stops : (xs : Items) (rest : Bytes) → Stops (tail xs rest)
unfolding print_items
tail-Stops no_items rest = refl
tail-Stops (item d xs) rest = refl

no_bracket : (b : ℕ) → is_number b ≡ true → b == b']' ≡ false
no_bracket b h = ground arith

peeks-print : (d : Doc) (rest : Bytes) → Fine d → peeks b']' (print d ++ rest) ≡ false
unfolding print
peeks-print (str s) rest h = refl
peeks-print (number []) rest h = absurd (omega (arith, h.0))
peeks-print (number (b ∷ t)) rest h = no_bracket b h.1.0
peeks-print (bool true) rest h = refl
peeks-print (bool false) rest h = refl
peeks-print null rest h = refl
peeks-print (object ms) rest h = refl
peeks-print (array xs) rest h = refl

next_value-print :
    (d : Doc) (rest : Bytes)
    → Fine d
    → Stops rest
    → next_value (skip_ws (print d ++ rest))
      ≡ (record { rest = rest; started = true; done = false }, some (value_of d))
unfolding next_value
next_value-print d rest h k =
    rw (skip_ws-print d rest h)
      (rw (peeks-print d rest h) (ap yielded (parse_value-print d rest h k)))

-- The iterator behind an element.
abbrev onward : Bytes → Elements
onward s = record { rest = s; started = true; done = false }

item_text :
    (c : Bool) (d : Doc) (xs : Items) (rest : Bytes)
    → print_items c (item d xs) ++ (b']' ∷ rest) ≡ comma_text c ++ (print d ++ tail xs rest)
unfolding print_items
item_text c d xs rest = simp append_assoc

next-end : (rest : Bytes) → next (onward (b']' ∷ rest)) ≡ stopped
unfolding next skip_ws
next-end rest = refl

next-item :
    (d : Doc) (xs : Items) (rest : Bytes)
    → Fine d
    → next (onward (tail (item d xs) rest)) ≡ (onward (tail xs rest), some (value_of d))
unfolding next skip_ws
next-item d xs rest h =
    ap (λ s. next (onward s)) (item_text true d xs rest)
    ∙ next_value-print d (tail xs rest) h (tail-Stops xs rest)

collect-some :
    (fuel : ℕ) (e e' : Elements) (v : Value)
    → next e ≡ (e', some v)
    → collect (suc fuel) e ≡ v ∷ collect fuel e'
unfolding collect
collect-some fuel e e' v h =
    rw (ap (λ r. r.1) h, collect) (ap (λ x. v ∷ collect fuel x) (ap (λ r. r.0) h))

collect-none : (fuel : ℕ) (e e' : Elements) → next e ≡ (e', none) → collect fuel e ≡ []
unfolding collect
collect-none zero e e' h = refl
collect-none (suc fuel) e e' h = rw (ap (λ r. r.1) h, collect) refl

abbrev count : Items → ℕ
count no_items = 0
count (item d xs) = suc (count xs)

collect-tail :
    (fuel : ℕ) (xs : Items) (rest : Bytes)
    → FineItems xs
    → count xs ≤ fuel
    → collect fuel (onward (tail xs rest)) ≡ values_of xs
unfolding print_items
collect-tail fuel no_items rest h k =
    collect-none fuel (onward (b']' ∷ rest)) stopped.0 (next-end rest)
collect-tail zero (item d xs) rest h k = absurd (omega arith)
collect-tail (suc fuel) (item d xs) rest h k =
    collect-some fuel (onward (tail (item d xs) rest)) (onward (tail xs rest)) (value_of d)
      (next-item d xs rest h.0)
    ∙ ap (λ vs. value_of d ∷ vs) (collect-tail fuel xs rest h.1 (omega arith))

start : Bytes → Elements
start s = elements (b'[' ∷ s)

start-end : (rest : Bytes) → next (start (b']' ∷ rest)) ≡ stopped
unfolding next skip_ws start
start-end rest = refl

start-item :
    (d : Doc) (xs : Items) (rest : Bytes)
    → Fine d
    → next (start (print_items false (item d xs) ++ (b']' ∷ rest)))
      ≡ (onward (tail xs rest), some (value_of d))
unfolding next skip_ws start
start-item d xs rest h =
    ap (λ s. next (start s)) (item_text false d xs rest)
    ∙ next_value-print d (tail xs rest) h (tail-Stops xs rest)

some_text : (d : Doc) → Fine d → 0 < length (print d)
unfolding print
some_text (str s) h = omega arith
some_text (number t) h = h.0
some_text (bool true) h = omega arith
some_text (bool false) h = omega arith
some_text null h = omega arith
some_text (object ms) h = omega arith
some_text (array xs) h = omega arith

count-le-length : (c : Bool) (xs : Items) → FineItems xs → count xs ≤ length (print_items c xs)
unfolding print_items
count-le-length c no_items h = omega arith
count-le-length c (item d xs) h = omega (
  arith,
  length-append (comma_text c) (print d ++ print_items true xs),
  length-append (print d) (print_items true xs),
  count-le-length true xs h.1,
  some_text d h.0,
)

-- The iterator over a printed array yields the values of its items, in order and none else.
pub collect_all-print :
    (xs : Items) (rest : Bytes)
    → FineItems xs
    → collect_all (print (array xs) ++ rest) ≡ values_of xs
unfolding collect_all print print_items start
collect_all-print no_items rest h =
    collect-none (suc (length (print (array no_items) ++ rest))) (start (b']' ∷ rest)) stopped.0
      (start-end rest)
collect_all-print (item d xs) rest h =
    let body = print_items false (item d xs) in
    let size = length-append body (b']' ∷ rest) in
    let same = append_assoc body (b']' ∷ []) rest in
    ap (λ s. collect_all (b'[' ∷ s)) same
    ∙ collect-some (length (b'[' ∷ (body ++ b']' ∷ rest))) (start (body ++ b']' ∷ rest))
        (onward (tail xs rest)) (value_of d) (start-item d xs rest h.0)
    ∙ ap (λ vs. value_of d ∷ vs)
        (collect-tail (length (b'[' ∷ (body ++ b']' ∷ rest))) xs rest h.1
          (omega (arith, size, count-le-length false (item d xs) h)))
