-- ===== src/Json/Reader/Strings.antt =====
-- A quoted string is read back with its escapes, and the bytes behind it stay.
use lando.Prelude.{
  ℕ, zero, suc, ◌/◌, ◌%◌, ◌≡◌, ◌≢◌, refl, sym, ap, ◌∙◌, Bool, true, false, [], ◌∷◌, ◌++◌,
  append_assoc, All, get_or, leb, ◌==◌, if◌then◌else◌, ok, err, arith,
}
use lando.Prelude.Bytes.{Bytes, codes}
use lando.Json.Utf8.{is_utf8, is_utf8-escaped}
use lando.Json.Writer.{escape}
use lando.Json.Doc.{escaped, quoted}
use lando.Json.Reader.{Read, push, passed, string_loop, checked, parse_string}

-- Neither a quote nor a backslash.
abbrev IsPlain : ℕ → Type 0
IsPlain b = (b ≢ b'"') × (b ≢ 0x5c)

get_or-IsPlain : (s : Bytes) (i : ℕ) → All IsPlain s → IsPlain (get_or s i 0)
get_or-IsPlain [] i h = (λ e. omega arith, λ e. omega arith)
get_or-IsPlain (x ∷ s) zero (p, h) = p
get_or-IsPlain (x ∷ s) (suc i) (p, h) = get_or-IsPlain s i h

IsPlain-digits : All IsPlain (codes "0123456789abcdef")
IsPlain-digits = grind arith

string_loop_plain :
    (b : ℕ) (s : Bytes) → IsPlain b → string_loop false (b ∷ s) ≡ push b (string_loop false s)
unfolding string_loop
string_loop_plain b s h =
    let e : b == b'"' ≡ false = ground (arith, h.0) in
    let k : b == 0x5c ≡ false = ground (arith, h.1) in rw e (rw k refl)

string_loop_pair :
    (b : ℕ) (s : Bytes)
    → string_loop false (0x5c ∷ b ∷ s) ≡ push 0x5c (push b (string_loop false s))
unfolding string_loop
string_loop_pair b s = refl

pub passed-append : (s t : Bytes) (r : Read Bytes) → passed (s ++ t) r ≡ passed s (passed t r)
passed-append s t (ok (u, rest)) = ap (λ x. ok (x, rest)) (append_assoc s t u)
passed-append s t (err e) = refl

push-passed : (b : ℕ) (r : Read Bytes) → push b r ≡ passed (b ∷ []) r
push-passed b (ok (u, rest)) = refl
push-passed b (err e) = refl

pushed :
    (b : ℕ) (t : Bytes) (r : Read Bytes) {q : Read Bytes}
    → q ≡ passed t r
    → push b q ≡ passed (b ∷ t) r
pushed b t r e = ap (push b) e ∙ push-passed b (passed t r) ∙ sym (passed-append (b ∷ []) t r)

-- What an escape looks like.
data Shape : Bytes → Type 0 where
  short : (c : ℕ) → Shape (0x5c ∷ c ∷ [])
  long : (hi lo : ℕ) → IsPlain hi → IsPlain lo → Shape (0x5c ∷ b'u' ∷ b'0' ∷ b'0' ∷ hi ∷ lo ∷ [])
  plain : (b : ℕ) → IsPlain b → Shape (b ∷ [])

Shape-if :
    {s t : Bytes} (test : Bool)
    → (test ≡ true → Shape s)
    → (test ≡ false → Shape t)
    → Shape (if test then s else t)
Shape-if true f g = f refl
Shape-if false f g = g refl

escape-Shape : (b : ℕ) → Shape (escape b)
unfolding escape
escape-Shape b =
    let digits = codes "0123456789abcdef" in
    Shape-if (b == b'"') (λ e. short b'"')
      λ quote.
        Shape-if (b == 0x5c) (λ e. short 0x5c)
          λ back.
            Shape-if (b == 0x0a) (λ e. short b'n')
              λ n.
                Shape-if (b == 0x0d) (λ e. short b'r')
                  λ r.
                    Shape-if (b == 0x09) (λ e. short b't')
                      λ t.
                        Shape-if (leb b 0x1f)
                          (λ e.
                            long (get_or digits (b / 16) 0) (get_or digits (b % 16) 0)
                              (get_or-IsPlain digits (b / 16) IsPlain-digits)
                              (get_or-IsPlain digits (b % 16) IsPlain-digits))
                          (λ e. plain b (not_eq b b'"' quote, not_eq b 0x5c back))
  where
    not_eq : (a c : ℕ) → a == c ≡ false → a ≢ c
    not_eq a c h = λ e. ground arith

Shape-loop :
    {t : Bytes}
    → Shape t
    → (s : Bytes) → string_loop false (t ++ s) ≡ passed t (string_loop false s)
Shape-loop (short c) s =
    string_loop_pair c s
    ∙ pushed (0x5c) (c ∷ []) (string_loop false s) (push-passed c (string_loop false s))
Shape-loop (long hi lo p q) s =
    string_loop_pair b'u' (b'0' ∷ b'0' ∷ hi ∷ lo ∷ s)
    ∙ pushed 0x5c (b'u' ∷ b'0' ∷ b'0' ∷ hi ∷ lo ∷ []) r (
        pushed b'u' (b'0' ∷ b'0' ∷ hi ∷ lo ∷ []) r (
          string_loop_plain b'0' (b'0' ∷ hi ∷ lo ∷ s) zero_plain
          ∙ pushed b'0' (b'0' ∷ hi ∷ lo ∷ []) r (
              string_loop_plain b'0' (hi ∷ lo ∷ s) zero_plain
              ∙ pushed b'0' (hi ∷ lo ∷ []) r (
                  string_loop_plain hi (lo ∷ s) p
                  ∙ pushed hi (lo ∷ []) r (string_loop_plain lo s q ∙ push-passed lo r)))))
  where
    r : Read Bytes
    r = string_loop false s

    zero_plain : IsPlain b'0'
    zero_plain = (λ e. omega arith, λ e. omega arith)
Shape-loop (plain b p) s = string_loop_plain b s p ∙ push-passed b (string_loop false s)

string_loop-escaped :
    (s rest : Bytes) → string_loop false (escaped s ++ b'"' ∷ rest) ≡ ok (escaped s, rest)
unfolding string_loop
string_loop-escaped [] rest = refl
string_loop-escaped (b ∷ s) rest =
    ap (string_loop false) (append_assoc (escape b) (escaped s) (b'"' ∷ rest))
    ∙ Shape-loop (escape-Shape b) (escaped s ++ b'"' ∷ rest)
    ∙ ap (passed (escape b)) (string_loop-escaped s rest)

abbrev pub IsText : Bytes → Type 0
IsText s = is_utf8 s ≡ true

pub parse_string-quoted :
    (s rest : Bytes) → IsText s → parse_string (quoted s ++ rest) ≡ ok (escaped s, rest)
unfolding parse_string
parse_string-quoted s rest h =
    ap (λ t. checked (string_loop false t)) (append_assoc (escaped s) (b'"' ∷ []) rest)
    ∙ ap checked (string_loop-escaped s rest)
    ∙ (let text = is_utf8-escaped s ∙ h in rw text refl)
