-- ===== src/Control/Frames/Stream.antt =====
-- The stream of frames as the server means it, a byte at a time, whatever pieces it arrives in.
use lando.Prelude.{
  ℕ, ◌+◌, ◌-◌, ◌^◌, ◌<◌, ◌≡◌, refl, sym, ap, ◌∙◌, true, false, List, [], ◌∷◌, ◌++◌, append_assoc,
  append-nil, All, length, length-append, map, ◌==◌, if◌then◌else◌, arith,
}
use lando.Prelude.Bytes.{Bytes, to_le, from_le, from_le-to_le, length-to_le}

-- A byte of a body, or the end of a frame with the length it announced.
pub data Event : Type 0 where
  byte : ℕ → Event
  end : ℕ → Event

-- Some bytes of a length, fewer than four; or inside a body, with its length and what is left.
pub data Phase : Type 0 where
  header : Bytes → Phase
  body : ℕ → ℕ → Phase

-- With the four bytes of a length.
abbrev pub opened : ℕ → Phase × List Event
opened total = if total == 0 then (header [], end 0 ∷ []) else (body total total, [])

unfoldable pub step : Phase → ℕ → Phase × List Event
step (header bs) b =
    if length bs == 3 then opened (from_le (bs ++ b ∷ [])) else (header (bs ++ b ∷ []), [])
step (body total left) b =
    if left == 1 then (header [], byte b ∷ end total ∷ []) else (body total (left - 1), byte b ∷ [])

unfoldable pub steps : Phase → Bytes → Phase × List Event
unfolding step
steps p [] = (p, [])
steps p (b ∷ s) = ((steps (step p b).0 s).0, (step p b).1 ++ (steps (step p b).0 s).1)

pub steps-append :
    (p : Phase) (s t : Bytes)
    → steps p (s ++ t) ≡ ((steps (steps p s).0 t).0, (steps p s).1 ++ (steps (steps p s).0 t).1)
unfolding steps
steps-append p [] t = refl
steps-append p (b ∷ s) t =
    ap (λ r. (r.0, (step p b).1 ++ r.1)) (steps-append (step p b).0 s t)
    ∙ ap (λ es. ((steps (steps (step p b).0 s).0 t).0, es))
        (sym
          (append_assoc (step p b).1 (steps (step p b).0 s).1 (steps (steps (step p b).0 s).0 t).1))

steps_cons :
    (p : Phase) (b : ℕ) (s : Bytes) (r : Phase × List Event)
    → step p b ≡ r
    → steps p (b ∷ s) ≡ ((steps r.0 s).0, r.1 ++ (steps r.0 s).1)
unfolding steps
steps_cons p b s r e = ap (λ x. ((steps x.0 s).0, x.1 ++ (steps x.0 s).1)) e

step_more : (bs : Bytes) (b : ℕ) → length bs < 3 → step (header bs) b ≡ (header (bs ++ b ∷ []), [])
unfolding step
step_more bs b h = let e : length bs == 3 ≡ false = ground arith in rw e refl

step_full :
    (bs : Bytes) (b : ℕ) → length bs ≡ 3 → step (header bs) b ≡ opened (from_le (bs ++ b ∷ []))
unfolding step
step_full bs b h = let e : length bs == 3 ≡ true = ground arith in rw e refl

step_within :
    (total left b : ℕ) → 1 < left → step (body total left) b ≡ (body total (left - 1), byte b ∷ [])
unfolding step
step_within total left b h = let e : left == 1 ≡ false = ground arith in rw e refl

step_last :
    (total left b : ℕ) → left ≡ 1 → step (body total left) b ≡ (header [], byte b ∷ end total ∷ [])
unfolding step
step_last total left b h = let e : left == 1 ≡ true = ground arith in rw e refl

pub steps_none : (p : Phase) → steps p [] ≡ (p, [])
unfolding steps
steps_none p = refl

-- Bytes that leave a length incomplete.
pub steps-header :
    (bs s : Bytes) → length bs + length s < 4 → steps (header bs) s ≡ (header (bs ++ s), [])
steps-header bs [] h = steps_none (header bs) ∙ ap (λ x. (header x, [])) (sym (append-nil bs))
steps-header bs (b ∷ s) h =
    steps_cons (header bs) b s (header (bs ++ b ∷ []), []) (step_more bs b (omega arith))
    ∙ steps-header (bs ++ b ∷ []) s (omega (arith, length-append bs (b ∷ [])))
    ∙ ap (λ x. (header x, [])) (append_assoc bs (b ∷ []) s)

-- Bytes that complete it.
pub steps-opened :
    (bs s : Bytes)
    → length bs + length s ≡ 4
    → 0 < length s
    → steps (header bs) s ≡ opened (from_le (bs ++ s))
steps-opened bs [] h k = absurd (omega arith)
steps-opened bs (b ∷ []) h k =
    let r = opened (from_le (bs ++ b ∷ [])) in
    steps_cons (header bs) b [] r (step_full bs b (omega arith))
    ∙ ap (λ x. (x.0, r.1 ++ x.1)) (steps_none r.0)
    ∙ ap (λ x. (r.0, x)) (append-nil r.1)
steps-opened bs (b ∷ c ∷ s) h k =
    steps_cons (header bs) b (c ∷ s) (header (bs ++ b ∷ []), []) (step_more bs b (omega arith))
    ∙ steps-opened (bs ++ b ∷ []) (c ∷ s) (omega (arith, length-append bs (b ∷ []))) (omega arith)
    ∙ ap (λ x. opened (from_le x)) (append_assoc bs (b ∷ []) (c ∷ s))

-- Bytes within a body.
pub steps-body :
    (total left : ℕ) (s : Bytes)
    → length s < left
    → steps (body total left) s ≡ (body total (left - length s), map byte s)
steps-body total left [] h =
    steps_none (body total left) ∙ ap (λ x. (body total x, [])) (omega arith)
steps-body total left (b ∷ s) h =
    steps_cons (body total left) b s (body total (left - 1), byte b ∷ [])
      (step_within total left b (omega arith))
    ∙ ap (λ x. (x.0, byte b ∷ x.1)) (steps-body total (left - 1) s (omega arith))
    ∙ ap (λ x. (body total x, byte b ∷ map byte s)) (omega arith)

-- Bytes that complete it.
pub steps-ended :
    (total left : ℕ) (s : Bytes)
    → length s ≡ left
    → 0 < left
    → steps (body total left) s ≡ (header [], map byte s ++ end total ∷ [])
steps-ended total left [] h k = absurd (omega arith)
steps-ended total left (b ∷ []) h k =
    steps_cons (body total left) b [] (header [], byte b ∷ end total ∷ [])
      (step_last total left b (omega arith))
    ∙ ap (λ x. (x.0, byte b ∷ end total ∷ x.1)) (steps_none (header []))
steps-ended total left (b ∷ c ∷ s) h k =
    steps_cons (body total left) b (c ∷ s) (body total (left - 1), byte b ∷ [])
      (step_within total left b (omega arith))
    ∙ ap (λ x. (x.0, byte b ∷ x.1))
        (steps-ended total (left - 1) (c ∷ s) (omega arith) (omega arith))

-- A frame on the wire, and what it means.
abbrev pub encode_frame : Bytes → Bytes
encode_frame b = to_le 4 (length b) ++ b

abbrev pub encode_frames : List Bytes → Bytes
encode_frames [] = []
encode_frames (b ∷ bs) = encode_frame b ++ encode_frames bs

abbrev pub frames_events : List Bytes → List Event
frames_events [] = []
frames_events (b ∷ bs) = (map byte b ++ end (length b) ∷ []) ++ frames_events bs

abbrev pub IsSmall : Bytes → Type 0
IsSmall b = length b < 2 ^ 32

steps-encode_frame :
    (b : Bytes)
    → IsSmall b
    → steps (header []) (encode_frame b) ≡ (header [], map byte b ++ end (length b) ∷ [])
steps-encode_frame b h =
    steps-append (header []) (to_le 4 (length b)) b
    ∙ ap (λ x. ((steps x.0 b).0, x.1 ++ (steps x.0 b).1))
        (steps-opened [] (to_le 4 (length b)) (omega (arith, length-to_le 4 (length b)))
            (omega (arith, length-to_le 4 (length b)))
          ∙ ap opened (from_le-to_le 4 (length b) (omega arith)))
    ∙ opened_lem b
  where
    opened_lem :
        (b : Bytes)
        → ◌≡◌ {A = Phase × List Event}
            (
              (steps (opened (length b)).0 b).0,
              (opened (length b)).1 ++ (steps (opened (length b)).0 b).1,
            )
            (header [], map byte b ++ end (length b) ∷ [])
    opened_lem [] = ap (λ x. (x.0, end 0 ∷ x.1)) (steps_none (header []))
    opened_lem (c ∷ b) =
        let e : length (c ∷ b) == 0 ≡ false = ground arith in
        rw e (steps-ended (length (c ∷ b)) (length (c ∷ b)) (c ∷ b) refl (omega arith))

pub steps-encode_frames :
    (bs : List Bytes)
    → All IsSmall bs
    → steps (header []) (encode_frames bs) ≡ (header [], frames_events bs)
steps-encode_frames [] h = steps_none (header [])
steps-encode_frames (b ∷ bs) (hb, h) =
    steps-append (header []) (encode_frame b) (encode_frames bs)
    ∙ ap (λ x. ((steps x.0 (encode_frames bs)).0, x.1 ++ (steps x.0 (encode_frames bs)).1))
        (steps-encode_frame b hb)
    ∙ ap (λ x. (x.0, (map byte b ++ end (length b) ∷ []) ++ x.1)) (steps-encode_frames bs h)
