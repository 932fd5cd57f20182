-- ===== src/Prelude/Fields.antt =====
-- Messages of fields one after the other: how a buffer is filled with them, and where each is found.
use lando.Prelude.{
  ℕ, zero, suc, ◌+◌, ◌≡◌, refl, sym, ap, ◌∙◌, List, [], ◌∷◌, ◌++◌, append_assoc, append-nil, length,
  get_or, set, length-append, take, drop, over, take-append_self, drop-append_self, drop-drop,
  take-over, arith,
}
use lando.Prelude.Bytes.{Bytes, slice, copy_at, copy_at-over}

abbrev pub joined : List Bytes → Bytes
joined [] = []
joined (f ∷ fs) = f ++ joined fs

-- The length of all fields, and of those before one.
abbrev pub total : List Bytes → ℕ
total [] = 0
total (f ∷ fs) = length f + total fs

abbrev pub offset : List Bytes → ℕ → ℕ
offset [] i = 0
offset (f ∷ fs) zero = 0
offset (f ∷ fs) (suc i) = length f + offset fs i

pub length-joined : (fs : List Bytes) → length (joined fs) ≡ total fs
length-joined [] = refl
length-joined (f ∷ fs) = omega (arith, length-append f (joined fs), length-joined fs)

drop-joined : (fs : List Bytes) (i : ℕ) → drop (offset fs i) (joined fs) ≡ joined (drop i fs)
drop-joined [] zero = refl
drop-joined [] (suc i) = refl
drop-joined (f ∷ fs) zero = refl
drop-joined (f ∷ fs) (suc i) =
    sym (drop-drop (f ++ joined fs) (offset fs i) (length f) (length f + offset fs i) refl)
    ∙ ap (drop (offset fs i)) (drop-append_self f (joined fs) (length f) refl)
    ∙ drop-joined fs i

-- A field is found at its place.
pub slice-joined :
    (fs rest : List Bytes) (f : Bytes) (i start n : ℕ)
    → drop i fs ≡ f ∷ rest
    → start ≡ offset fs i
    → n ≡ length f
    → slice (joined fs) start n ≡ f
slice-joined fs rest f i start n at e k =
    ap (λ t. take n (drop t (joined fs))) e
    ∙ ap (take n) (drop-joined fs i ∙ ap joined at)
    ∙ take-append_self f (joined rest) n k

joined-snoc : (fs : List Bytes) (f : Bytes) → joined (fs ++ f ∷ []) ≡ joined fs ++ f
joined-snoc [] f = append-nil f
joined-snoc (g ∷ fs) f = ap (λ t. g ++ t) (joined-snoc fs f) ∙ sym (append_assoc g (joined fs) f)

-- A buffer that has been filled up to a field takes it.
pub copy_at-field :
    (fs : List Bytes) (f out : Bytes) (n : ℕ)
    → n ≡ total fs
    → copy_at (over (joined fs) out) n f ≡ over (joined (fs ++ f ∷ [])) out
copy_at-field fs f out n e =
    copy_at-over (joined fs) f out n (omega (arith, length-joined fs))
    ∙ ap (λ p. over p out) (sym (joined-snoc fs f))

pub take-joined :
    (fs : List Bytes) (out : Bytes) (n : ℕ)
    → n ≡ total fs
    → take n (over (joined fs) out) ≡ joined fs
take-joined fs out n e = take-over (joined fs) out n (omega (arith, length-joined fs))

-- What stays of the buffer is its last field.
pub over-joined :
    (fs : List Bytes) (out : Bytes) (n : ℕ)
    → n ≡ total fs
    → over (joined fs) out ≡ joined (fs ++ drop n out ∷ [])
over-joined fs out n e =
    ap (λ k. joined fs ++ drop k out) (length-joined fs ∙ sym e) ∙ sym (joined-snoc fs (drop n out))

joined-append : (fs gs : List Bytes) → joined (fs ++ gs) ≡ joined fs ++ joined gs
joined-append [] gs = refl
joined-append (f ∷ fs) gs =
    ap (λ t. f ++ t) (joined-append fs gs) ∙ sym (append_assoc f (joined fs) (joined gs))

-- The first fields of a message.
pub take-joined_append :
    (fs gs : List Bytes) (n : ℕ) → n ≡ total fs → take n (joined (fs ++ gs)) ≡ joined fs
take-joined_append fs gs n e =
    ap (take n) (joined-append fs gs)
    ∙ take-append_self (joined fs) (joined gs) n (omega (arith, length-joined fs))

-- What stands behind `front` is at its length.
pub get_or-at : (front ks : Bytes) (k : ℕ) → get_or (front ++ k ∷ ks) (length front) 0 ≡ k
get_or-at [] ks k = refl
get_or-at (x ∷ front) ks k = get_or-at front ks k

pub set-at :
    (done ps : Bytes) (p v : ℕ) → set (done ++ p ∷ ps) (length done) v ≡ (done ++ v ∷ []) ++ ps
set-at [] ps p v = refl
set-at (x ∷ done) ps p v = ap (λ t. x ∷ t) (set-at done ps p v)
