-- ===== src/Json/Writer/Emits.antt =====
-- What each method of the writer adds to the buffer, and how calls in a row add up.
use lando.Prelude.{
  ℕ, ◌+◌, ◌<◌, ◌≤◌, ◌≡◌, refl, sym, ap, ap₂, subst, ◌∙◌, Bool, true, false, [], ◌∷◌, ◌++◌,
  append_assoc, append-nil, length, ltb, leb, if◌then◌else◌, Result, ok, err, over, length-append,
  length-over, arith, inl, inr, Bool-cases,
}
use lando.Prelude.Bytes.{Bytes, copy_at-over}
use lando.Json.{JsonError, short_buffer}
use lando.Json.Doc.{comma_text}
use lando.Json.Writer.{Writer, Method, ◌>>◌, skip, raw, byte, separate, comma_next}

-- A writer that has written `front` into `out`.
abbrev pub after : Bytes → Bytes → Bool → Writer
after front out comma = record { buf = over front out; pos = length front; needs_comma = comma }

-- The same as a result: what does not fit is an error.
unfoldable pub wrote : Bytes → Bytes → Bool → Result JsonError Writer
wrote front out comma =
    if leb (length front) (length out) then ok (after front out comma) else err short_buffer

pub wrote_fits :
    (front out : Bytes) (c : Bool)
    → length front ≤ length out
    → wrote front out c ≡ ok (after front out c)
unfolding wrote
wrote_fits front out c h =
    let e : leb (length front) (length out) ≡ true = ground arith in rw e refl

pub wrote_short :
    (front out : Bytes) (c : Bool)
    → length out < length front
    → wrote front out c ≡ err short_buffer
unfolding wrote
wrote_short front out c h =
    let e : leb (length front) (length out) ≡ false = ground arith in rw e refl

-- The method adds `text` where there is room for it, and fails elsewhere; the comma flag goes from
-- `before` to `next`.
pub record Emits (f : Method) (before : Bool) (text : Bytes) (next : Bool) : Type 0 where
  pub runs :
      (front out : Bytes)
      → length front ≤ length out
      → f (after front out before) ≡ wrote (front ++ text) out next

raw-after :
    (text front out : Bytes) (comma : Bool)
    → length front ≤ length out
    → raw text (after front out comma) ≡ wrote (front ++ text) out comma
unfolding raw
raw-after text front out comma h =
    let size = length-append front text in
    let whole = length-over front out h in
    elim (Bool-cases (ltb (length (over front out)) (length front + length text))) [
      | inl e ↦ rw e (sym (wrote_short (front ++ text) out comma (ground arith)))
      | inr e ↦ rw e (
          ap₂ (λ b n. ok (record { buf = b; pos = n; needs_comma = comma }))
            (copy_at-over front text out (length front) refl) (sym size)
          ∙ sym (wrote_fits (front ++ text) out comma (ground arith)))
    ]

pub raw-Emits : (text : Bytes) (comma : Bool) → Emits (raw text) comma text comma
raw-Emits text comma = record { runs = λ front out h. raw-after text front out comma h }

pub byte-Emits : (b : ℕ) (comma : Bool) → Emits (byte b) comma (b ∷ []) comma
unfolding byte
byte-Emits b comma = raw-Emits (b ∷ []) comma

lt_of_leb : (a b : ℕ) → leb a b ≡ false → b < a
lt_of_leb a b h = ground arith

then_after :
    (f g : Method) (a b c : Bool) (s t front out : Bytes)
    → Emits f a s b
    → Emits g b t c
    → length front ≤ length out
    → (f >> g) (after front out a) ≡ wrote (front ++ (s ++ t)) out c
then_after f g a b c s t front out p q h =
    let total = length-append front s in
    let whole = length-append (front ++ s) t in
    let joined = append_assoc front s t in
    let first = p.runs front out h in
    elim (Bool-cases (leb (length (front ++ s)) (length out))) [
      | inl e ↦
          rw (first ∙ wrote_fits (front ++ s) out b (ground arith), ◌>>◌)
            (q.runs (front ++ s) out (ground arith) ∙ ap (λ x. wrote x out c) joined)
      | inr e ↦
          rw (first ∙ wrote_short (front ++ s) out b (ground arith), ◌>>◌)
            (sym (
              wrote_short (front ++ (s ++ t)) out c
                (omega (arith, ap length joined, lt_of_leb (length (front ++ s)) (length out) e))))
    ]

pub >>-Emits :
    {f g : Method} {a b c : Bool} {s t : Bytes}
    → Emits f a s b
    → Emits g b t c
    → Emits (f >> g) a (s ++ t) c
>>-Emits {f} {g} {a} {b} {c} {s} {t} p q = record {
  runs = λ front out h. then_after f g a b c s t front out p q h;
}

-- The text may be given in another form.
pub Emits-text : {f : Method} {a c : Bool} {s t : Bytes} → Emits f a s c → s ≡ t → Emits f a t c
Emits-text {f} {a} {c} p e = subst (λ t. Emits f a t c) e p

pub skip-Emits : (comma : Bool) → Emits skip comma [] comma
skip-Emits comma = record { runs = λ front out h. skip_after front out comma h }
  where
    skip_after :
        (front out : Bytes) (c : Bool)
        → length front ≤ length out
        → skip (after front out c) ≡ wrote (front ++ []) out c
    skip_after front out c h =
        sym (ap (λ x. wrote x out c) (append-nil front) ∙ wrote_fits front out c h)

pub comma_next-Emits : (a c : Bool) → Emits (comma_next c) a [] c
unfolding comma_next
comma_next-Emits a c = record {
  runs = λ front out h. sym (ap (λ x. wrote x out c) (append-nil front) ∙ wrote_fits front out c h);
}

pub separate-Emits : (c : Bool) → Emits separate c (comma_text c) c
unfolding separate
separate-Emits true = record { runs = λ front out h. (byte-Emits b',' true).runs front out h }
separate-Emits false = record { runs = λ front out h. (skip-Emits false).runs front out h }
