-- ===== src/H2/Writer/Emits.antt =====
-- What each method of the frame writer adds to the buffer, and how calls in a row add up.
use lando.Prelude.{
  ℕ, ◌+◌, ◌<◌, ◌≤◌, ◌≡◌, refl, sym, ap, ap₂, ◌∙◌, true, false, [], ◌++◌, append_assoc, append-nil,
  length, ltb, leb, if◌then◌else◌, Result, ok, err, over, length-append, length-over, arith, inl,
  inr, Bool-cases,
}
use lando.Prelude.Bytes.{Bytes, copy_at-over}
use lando.H2.Writer.{H2Error, short_buffer, Writer, Method, ◌>>◌, put}

-- A writer that has written `front` into `out`.
abbrev pub after : Bytes → Bytes → Writer
after front out = record { buf = over front out; pos = length front }

-- The same as a result: what does not fit is an error.
unfoldable pub wrote : Bytes → Bytes → Result H2Error Writer
wrote front out = if leb (length front) (length out) then ok (after front out) else err short_buffer

wrote_fits :
    (front out : Bytes) → length front ≤ length out → wrote front out ≡ ok (after front out)
unfolding wrote
wrote_fits front out h = let e : leb (length front) (length out) ≡ true = ground arith in rw e refl

wrote_short : (front out : Bytes) → length out < length front → wrote front out ≡ err short_buffer
unfolding wrote
wrote_short front out h =
    let e : leb (length front) (length out) ≡ false = ground arith in rw e refl

-- The method adds `text` where there is room for it, and fails elsewhere.
abbrev pub Emits : Method → Bytes → Type 0
Emits f text =
    (front out : Bytes)
    → length front ≤ length out
    → f (after front out) ≡ wrote (front ++ text) out

pub put-Emits : (text : Bytes) → Emits (put text) text
unfolding put
put-Emits text front out h =
    let size = length-append front text in
    let whole = length-over front out h in
    elim (Bool-cases (ltb (length (over front out)) (length front + length text))) [
      | inl e ↦ rw e (sym (wrote_short (front ++ text) out (ground arith)))
      | inr e ↦ rw e (
          ap₂ (λ b n. ok (record { buf = b; pos = n }))
            (copy_at-over front text out (length front) refl) (sym size)
          ∙ sym (wrote_fits (front ++ text) out (ground arith)))
    ]

lt_of_leb : (a b : ℕ) → leb a b ≡ false → b < a
lt_of_leb a b h = ground arith

pub >>-Emits : (f g : Method) (s t : Bytes) → Emits f s → Emits g t → Emits (f >> g) (s ++ t)
>>-Emits f g s t p q front out h =
    let joined = append_assoc front s t in
    let longer = length-append (front ++ s) t in
    elim (Bool-cases (leb (length (front ++ s)) (length out))) [
      | inl e ↦
          rw (p front out h ∙ wrote_fits (front ++ s) out (ground arith), ◌>>◌)
            (q (front ++ s) out (ground arith) ∙ ap (λ x. wrote x out) joined)
      | inr e ↦
          let over_full = lt_of_leb (length (front ++ s)) (length out) e in
          rw (p front out h ∙ wrote_short (front ++ s) out over_full, ◌>>◌)
            (sym (wrote_short (front ++ (s ++ t)) out (omega (arith, ap length joined))))
    ]

-- No call.
pub ok-Emits : Emits (λ w. ok w) []
ok-Emits front out h = sym (ap (λ x. wrote x out) (append-nil front) ∙ wrote_fits front out h)
