-- ===== src/Control/Frames/Refine.antt =====
-- A call of `MapFrames::feed` takes the steps of the bytes that it uses.
use lando.Prelude.{
  ℕ, ◌+◌, ◌-◌, ◌<◌, ◌≤◌, ◌≡◌, ◌≢◌, refl, sym, ap, ap₂, subst, ◌∙◌, true, false, none, some, [], ◌∷◌,
  ◌++◌, length, length-take, take, drop, take-add, take_all, ltb, ◌==◌, arith, inl, inr, Bool-cases,
}
use lando.Prelude.Bytes.{Bytes, from_le}
use lando.Control.Frames.{MapFrames, Fed, feed_body, begin_frame, feed}
use lando.Control.Frames.Stream.{
  end, header, body, opened, steps, steps-append, steps-header, steps-opened,
}
use lando.Control.Frames.Calls.{
  IsValid, phase, Moves, phase_body, phase-header, opened_body, feed_body-Moves, length-filled,
  take-filled, wanted, with_bytes, with_length, feed_inside, feed_partial, feed_whole, begin_empty,
  begin_body,
}

length-wanted :
    (s : MapFrames) (input : Bytes) → length (take (wanted s input) input) ≡ wanted s input
length-wanted s input = omega (arith, length-take (wanted s input) input)

length-front : (s : MapFrames) → IsValid s → length (take s.len_have s.len_buf) ≡ s.len_have
length-front s v = omega (arith, length-take s.len_have s.len_buf, v.buffer, v.partial)

-- A length that stays incomplete.
partial-Moves :
    (s : MapFrames) (input : Bytes)
    → IsValid s
    → s.remaining ≡ 0
    → s.len_have + wanted s input < 4
    → Moves (phase s) input 0 (with_bytes s input, wanted s input, none)
partial-Moves s input v at_header h =
    let front = take s.len_have s.len_buf in
    let chunk = take (wanted s input) input in
    let size = length-wanted s input in
    let whole : wanted s input - 0 ≡ wanted s input = omega arith in
    let fits : s.len_have + length chunk ≤ 4 = omega (arith, size) in
    record {
      takes = record {
        valid = record {
          buffer = length-filled s chunk v fits;
          partial = h;
          apart = λ k. absurd (k at_header);
        };
        same =
            ap₂ (λ p m. steps p (take m input)) (phase-header s at_header) whole
            ∙ steps-header front chunk (omega (arith, size, length-front s v))
            ∙ ap (λ bs. (header bs, []))
                (sym (take-filled s chunk v fits)
                  ∙ ap (λ m. take (s.len_have + m) (with_bytes s input).len_buf) size)
            ∙ ap (λ p. (p, [])) (sym (phase-header (with_bytes s input) at_header));
      };
      within = omega arith;
      from = omega arith;
      some_used = λ k. omega (arith, v.partial);
    }

-- A length that the call completes: its bytes open a frame.
whole_lem :
    (s : MapFrames) (input : Bytes)
    → IsValid s
    → s.remaining ≡ 0
    → 4 ≤ s.len_have + wanted s input
    → steps (phase s) (take (wanted s input) input) ≡ opened (from_le (with_bytes s input).len_buf)
whole_lem s input v at_header h =
    let front = take s.len_have s.len_buf in
    let chunk = take (wanted s input) input in
    let size = length-wanted s input in
    let fits : s.len_have + length chunk ≤ 4 = omega (arith, size, v.partial) in
    ap (λ p. steps p chunk) (phase-header s at_header)
    ∙ steps-opened front chunk (omega (arith, size, length-front s v, v.partial))
        (omega (arith, size, v.partial))
    ∙ ap (λ b. opened (from_le b))
        (sym (take-filled s chunk v fits)
          ∙ take_all (with_bytes s input).len_buf (s.len_have + length chunk)
              (omega (arith, length-filled s chunk v fits, size)))

whole-IsValid : (s : MapFrames) (input : Bytes) → IsValid s → IsValid (with_length s input)
whole-IsValid s input v = record {
  buffer =
      length-filled s (take (wanted s input) input) v
        (omega (arith, length-wanted s input, v.partial));
  partial = omega arith;
  apart = λ k. refl;
}

-- A frame with no body is a chunk at once.
empty-Moves :
    (s : MapFrames) (input : Bytes)
    → IsValid s
    → s.remaining ≡ 0
    → 4 ≤ s.len_have + wanted s input
    → from_le (with_bytes s input).len_buf ≡ 0
    → Moves (phase s) input 0 (
      with_length s input,
      wanted s input,
      some (record { total_len = 0; chunk = []; end = true }),
    )
empty-Moves s input v idle h none_left =
    let whole : wanted s input - 0 ≡ wanted s input = omega arith in
    record {
      takes = record {
        valid = whole-IsValid s input v;
        same =
            ap (λ m. steps (phase s) (take m input)) whole
            ∙ whole_lem s input v idle h
            ∙ ap opened none_left
            ∙ ap (λ p. (p, end 0 ∷ [])) (sym (phase-header (with_length s input) none_left));
      };
      within = omega arith;
      from = omega arith;
      some_used = λ k. omega (arith, v.partial);
    }

ltb_no : (a b : ℕ) → ltb a b ≡ false → b ≤ a
ltb_no a b h = ground arith

-- What the call reads of the length, and then of the body.
then-Moves :
    (s : MapFrames) (input : Bytes) (r : Fed) {total : ℕ}
    → steps (phase s) (take (wanted s input) input) ≡ (body total total, [])
    → Moves (body total total) input (wanted s input) r
    → Moves (phase s) input 0 r
then-Moves s input r {total} opens m =
    let k = wanted s input in
    record {
      takes = record {
        valid = m.takes.valid;
        same =
            ap (steps (phase s))
              (sym (take-add input k (r.1 - k) (r.1 - 0) (omega (arith, m.from))))
            ∙ steps-append (phase s) (take k input) (take (r.1 - k) (drop k input))
            ∙ ap
                (λ x. (
                  (steps x.0 (take (r.1 - k) (drop k input))).0,
                  x.1 ++ (steps x.0 (take (r.1 - k) (drop k input))).1,
                ))
                opens
            ∙ m.takes.same;
      };
      within = m.within;
      from = omega arith;
      some_used = λ p. elim (Bool-cases (ltb k (length input))) [
        | inl e ↦ omega (arith, m.some_used (ground arith))
        | inr e ↦ omega (arith, m.from, ltb_no k (length input) e)
      ];
    }

begin-Moves :
    (s : MapFrames) (input : Bytes)
    → IsValid s
    → s.remaining ≡ 0
    → 4 ≤ s.len_have + wanted s input
    → Moves (phase s) input 0 (begin_frame (with_bytes s input) input (wanted s input))
begin-Moves s input v idle h =
    let len = from_le (with_bytes s input).len_buf in
    let opens = whole_lem s input v idle h in
    elim (Bool-cases (len == 0)) [
      | inl e ↦
          rw (begin_empty (with_bytes s input) input (wanted s input) (ground arith))
            (empty-Moves s input v idle h (ground arith))
      | inr e ↦ rw (begin_body (with_bytes s input) input (wanted s input) (λ k. ground arith)) (
          then-Moves s input (feed_body (with_length s input) input (wanted s input))
            (opens ∙ opened_body len (λ k. ground arith))
            (feed_body-Moves (with_length s input) input (wanted s input) (whole-IsValid s input v)
              (λ k. ground arith) (omega arith)))
    ]

-- A call of `feed`, from any valid state on any input.
pub feed-Moves :
    (s : MapFrames) (input : Bytes) → IsValid s → Moves (phase s) input 0 (feed s input)
feed-Moves s input v = elim (Bool-cases (s.remaining == 0)) [
  | inr e ↦
      let busy : s.remaining ≢ 0 = λ k. ground arith in
      rw (feed_inside s input busy) (
        subst (λ p. Moves p input 0 (feed_body s input 0)) (sym (phase_body s busy))
          (feed_body-Moves s input 0 v busy (omega arith)))
  | inl e ↦
      let idle : s.remaining ≡ 0 = ground arith in
      elim (Bool-cases (ltb (s.len_have + wanted s input) 4)) [
        | inl l ↦
            rw (feed_partial s input idle (ground arith))
              (partial-Moves s input v idle (ground arith))
        | inr l ↦
            rw (feed_whole s input idle (ground arith)) (begin-Moves s input v idle (ground arith))
      ]
]
