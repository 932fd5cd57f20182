-- ===== src/Json/Reader/Nested.antt =====
-- A printed object or array is passed whole by `skip_nested`.
use lando.Prelude.{
  ℕ, suc, ◌+◌, ◌-◌, ◌<◌, ◌≤◌, ◌≡◌, ◌≢◌, refl, sym, ap, ap₂, ◌∙◌, true, false, [], ◌∷◌, ◌++◌,
  append_assoc, All, length, length-append, ◌==◌, ok, err, arith,
}
use lando.Prelude.Bytes.{Bytes}
use lando.Json.Doc.{
  Doc, Members, Items, str, number, bool, null, object, array, no_members, member, no_items, item,
  quoted,
}
use lando.Json.Reader.{
  Read, passed, is_number, over_string, nested_step, nested_loop, skip_nested, go, stop,
}
use lando.Json.Reader.Strings.{IsText, parse_string-quoted, passed-append}

-- Values whose strings are well-formed text and whose numbers are made of the bytes of numbers.
abbrev pub IsNumber : Bytes → Type 0
IsNumber t = (0 < length t) × All (λ b. is_number b ≡ true) t

abbrev mutual
  pub Fine : Doc → Type 0
  Fine (str s) = IsText s
  Fine (number t) = IsNumber t
  Fine (bool b) = Unit
  Fine null = Unit
  Fine (object ms) = FineMembers ms
  Fine (array xs) = FineItems xs

  pub FineMembers : Members → Type 0
  FineMembers no_members = Unit
  FineMembers (member k d ms) = IsText k × Fine d × FineMembers ms

  pub FineItems : Items → Type 0
  FineItems no_items = Unit
  FineItems (item d xs) = Fine d × FineItems xs

-- The two kinds of brackets.
pub data Brackets : Type 0 where
  curly square : Brackets

abbrev pub opens : Brackets → ℕ
opens curly = b'{'
opens square = b'['

abbrev pub closes : Brackets → ℕ
closes curly = b'}'
closes square = b']'

abbrev pub loop : Brackets → ℕ → Bytes → ℕ → Read Bytes
loop p f s depth = nested_loop f (opens p) (closes p) s depth

-- The loop passes the text at any depth, in a number of rounds, and is then as deep as before.
pub record Skips (p : Brackets) (text : Bytes) : Type 0 where
  pub rounds : ℕ
  pub few : rounds ≤ length text
  pub skips :
      (f n : ℕ) (rest : Bytes)
      → loop p (rounds + f) (text ++ rest) (suc n) ≡ passed text (loop p f rest (suc n))

pub Skips-nil : (p : Brackets) → Skips p []
Skips-nil p = record {
  rounds = 0;
  few = omega arith;
  skips =
      λ f n rest. ap (λ k. loop p k rest (suc n)) (omega arith) ∙ nothing (loop p f rest (suc n));
}
  where
    nothing : (r : Read Bytes) → r ≡ passed [] r
    nothing (ok (u, rest)) = refl
    nothing (err e) = refl

pub Skips-append : {p : Brackets} {s t : Bytes} → Skips p s → Skips p t → Skips p (s ++ t)
Skips-append {p} {s} {t} x y = record {
  rounds = x.rounds + y.rounds;
  few = omega (arith, x.few, y.few, length-append s t);
  skips = λ f n rest.
      ap₂ (λ k u. loop p k u (suc n)) (regroup x.rounds y.rounds f) (append_assoc s t rest)
      ∙ x.skips (y.rounds + f) n (t ++ rest)
      ∙ ap (passed s) (y.skips f n rest)
      ∙ sym (passed-append s t (loop p f rest (suc n)));
}
  where
    regroup : (a b c : ℕ) → (a + b) + c ≡ a + (b + c)
    regroup a b c = omega arith

-- One round that passes some bytes.
loop_go :
    (p : Brackets) (f depth depth' : ℕ) (s t s' : Bytes)
    → nested_step (opens p) (closes p) s depth ≡ go t s' depth'
    → loop p (1 + f) s depth ≡ passed t (loop p f s' depth')
unfolding nested_loop
loop_go p f depth depth' s t s' e =
    let one : 1 + f ≡ suc f = omega arith in
    ap (λ k. loop p k s depth) one ∙ rw (e, nested_loop) refl

loop_stop :
    (p : Brackets) (f depth : ℕ) (s : Bytes) (r : Read Bytes)
    → nested_step (opens p) (closes p) s depth ≡ stop r
    → loop p (1 + f) s depth ≡ r
unfolding nested_loop
loop_stop p f depth s r e =
    let one : 1 + f ≡ suc f = omega arith in
    ap (λ k. loop p k s depth) one ∙ rw (e, nested_loop) refl

-- Neither a quote nor one of the brackets.
abbrev pub IsPlain : Brackets → ℕ → Type 0
IsPlain p b = (b ≢ b'"') × (b ≢ opens p) × (b ≢ closes p)

module _ (p : Brackets) (b : ℕ) (s : Bytes) (depth : ℕ) where
  step_plain : IsPlain p b → nested_step (opens p) (closes p) (b ∷ s) depth ≡ go (b ∷ []) s depth
  unfolding nested_step
  step_plain h =
      let q : b == b'"' ≡ false = ground (arith, h.0) in
      let o : b == opens p ≡ false = ground (arith, h.1) in
      let c : b == closes p ≡ false = ground (arith, h.2) in rw q (rw o (rw c refl))

pub Skips-byte : (p : Brackets) (b : ℕ) → IsPlain p b → Skips p (b ∷ [])
Skips-byte p b h = record {
  rounds = 1;
  few = omega arith;
  skips = λ f n rest.
      loop_go p f (suc n) (suc n) (b ∷ rest) (b ∷ []) rest (step_plain p b rest (suc n) h);
}

pub Skips-bytes : (p : Brackets) (t : Bytes) → All (IsPlain p) t → Skips p t
Skips-bytes p [] h = Skips-nil p
Skips-bytes p (b ∷ t) (hb, h) = Skips-append (Skips-byte p b hb) (Skips-bytes p t h)

step_string :
    (p : Brackets) (k rest : Bytes) (depth : ℕ)
    → IsText k
    → nested_step (opens p) (closes p) (quoted k ++ rest) depth ≡ go (quoted k) rest depth
unfolding nested_step
step_string p k rest depth h = ap (over_string depth) (parse_string-quoted k rest h)

pub Skips-quoted : (p : Brackets) (k : Bytes) → IsText k → Skips p (quoted k)
Skips-quoted p k h = record {
  rounds = 1;
  few = omega arith;
  skips = λ f n rest.
      loop_go p f (suc n) (suc n) (quoted k ++ rest) (quoted k) rest
        (step_string p k rest (suc n) h);
}

step_open :
    (p : Brackets) (s : Bytes) (depth : ℕ)
    → nested_step (opens p) (closes p) (opens p ∷ s) depth ≡ go (opens p ∷ []) s (suc depth)
unfolding nested_step
step_open curly s depth = ap (go (b'{' ∷ []) s) (omega arith)
step_open square s depth = ap (go (b'[' ∷ []) s) (omega arith)

step_close :
    (p : Brackets) (s : Bytes) (n : ℕ)
    → nested_step (opens p) (closes p) (closes p ∷ s) (suc (suc n)) ≡ go (closes p ∷ []) s (suc n)
unfolding nested_step
step_close curly s n =
    let e : suc (suc n) - 1 == 0 ≡ false = ground arith in
    rw e (ap (go (b'}' ∷ []) s) (omega arith))
step_close square s n =
    let e : suc (suc n) - 1 == 0 ≡ false = ground arith in
    rw e (ap (go (b']' ∷ []) s) (omega arith))

step_last :
    (p : Brackets) (s : Bytes)
    → nested_step (opens p) (closes p) (closes p ∷ s) 1 ≡ stop (ok (closes p ∷ [], s))
unfolding nested_step
step_last curly s = refl
step_last square s = refl

unfoldable pub enclosed : Brackets → Bytes → Bytes
enclosed p t = opens p ∷ (t ++ closes p ∷ [])

pub Skips-enclosed : (p : Brackets) (t : Bytes) → Skips p t → Skips p (enclosed p t)
unfolding enclosed
Skips-enclosed p t x = record {
  rounds = 1 + (x.rounds + 1);
  few = omega (arith, x.few, length-append t (closes p ∷ []));
  skips = λ f n rest. enclosed_loop f n rest;
}
  where
    enclosed_loop :
        (f n : ℕ) (rest : Bytes)
        → loop p (1 + (x.rounds + 1) + f) (opens p ∷ ((t ++ closes p ∷ []) ++ rest)) (suc n)
          ≡ passed (opens p ∷ (t ++ closes p ∷ [])) (loop p f rest (suc n))
    enclosed_loop f n rest =
        let k : 1 + (x.rounds + 1) + f ≡ 1 + (x.rounds + (1 + f)) = omega arith in
        ap₂ (λ m u. loop p m (opens p ∷ u) (suc n)) k (append_assoc t (closes p ∷ []) rest)
        ∙ loop_go p (x.rounds + (1 + f)) (suc n) (suc (suc n)) (opens p ∷ (t ++ closes p ∷ rest))
            (opens p ∷ []) (t ++ closes p ∷ rest) (step_open p (t ++ closes p ∷ rest) (suc n))
        ∙ ap (passed (opens p ∷ [])) (
            x.skips (1 + f) (suc n) (closes p ∷ rest)
            ∙ ap (passed t) (
                loop_go p f (suc (suc n)) (suc n) (closes p ∷ rest) (closes p ∷ []) rest
                  (step_close p rest n))
            ∙ sym (passed-append t (closes p ∷ []) (loop p f rest (suc n))))
        ∙ sym (passed-append (opens p ∷ []) (t ++ closes p ∷ []) (loop p f rest (suc n)))

-- The whole of an object or an array.
pub skip_nested-enclosed :
    (p : Brackets) (t rest : Bytes)
    → Skips p t
    → skip_nested (opens p) (closes p) (enclosed p t ++ rest) ≡ ok (enclosed p t, rest)
unfolding skip_nested enclosed
skip_nested-enclosed p t rest x =
    let whole = t ++ closes p ∷ [] in
    let size = length-append whole rest in
    let inner = length-append t (closes p ∷ []) in
    let spare = length (whole ++ rest) - x.rounds in
    let k : suc (length (opens p ∷ (whole ++ rest))) ≡ 1 + (x.rounds + (1 + spare)) =
      omega (arith, x.few) in
    ap₂ (λ m u. loop p m (opens p ∷ u) 0) k (append_assoc t (closes p ∷ []) rest)
    ∙ loop_go p (x.rounds + (1 + spare)) 0 1 (opens p ∷ (t ++ closes p ∷ rest)) (opens p ∷ [])
        (t ++ closes p ∷ rest) (step_open p (t ++ closes p ∷ rest) 0)
    ∙ ap (passed (opens p ∷ [])) (
        x.skips (1 + spare) 0 (closes p ∷ rest)
        ∙ ap (passed t)
            (loop_stop p spare 1 (closes p ∷ rest) (ok (closes p ∷ [], rest)) (step_last p rest)))
