-- ===== src/Control/Frames/Calls.antt =====
-- What each branch of `MapFrames::feed` does, against the steps of the stream.
use lando.Prelude.{
  ℕ, ◌+◌, ◌-◌, ◌<◌, ◌≤◌, ◌≡◌, ◌≢◌, refl, sym, ap, ap₂, ◌∙◌, true, false, Option, none, some, List,
  [], ◌∷◌, ◌++◌, append_assoc, append-nil, length, length-append, length-take, take, drop,
  take-append_self, map, min, ltb, ◌==◌, if◌then◌else◌, arith, inl, inr, Bool-cases,
}
use lando.Prelude.Bytes.{Bytes, slice, copy_at, from_le, length-copy_at, length-slice}
use lando.Control.Frames.{MapFrame, MapFrames, Fed, feed_body, begin_frame, feed}
use lando.Control.Frames.Stream.{
  Event, byte, end, Phase, header, body, opened, steps, steps-body, steps-ended, steps_none,
}

pub record IsValid (s : MapFrames) : Type 0 where
  pub buffer : length s.len_buf ≡ 4
  pub partial : s.len_have < 4
  pub apart : s.remaining ≢ 0 → s.len_have ≡ 0

-- Where in the stream a splitter stands.
abbrev pub phase : MapFrames → Phase
phase s = if s.remaining == 0 then header (take s.len_have s.len_buf) else body s.total s.remaining

abbrev pub events : Option MapFrame → List Event
events none = []
events (some f) = map byte f.chunk ++ (if f.end then end f.total_len ∷ [] else [])

-- From the phase `p` the bytes `s` lead to the answer `r`, which used `used` bytes of the input.
pub record Takes (p : Phase) (s : Bytes) (r : Fed) : Type 0 where
  pub valid : IsValid r.0
  pub same : steps p s ≡ (phase r.0, events r.2)

module _ (s : MapFrames) (input : Bytes) (pos : ℕ) where
  body_none : length input - pos ≡ 0 → feed_body s input pos ≡ (s, pos, none)
  unfolding feed_body
  body_none h = let e : length input - pos == 0 ≡ true = ground arith in rw e refl

  body_some :
      length input - pos ≢ 0
      → feed_body s input pos ≡ (
        record s { remaining = s.remaining - min s.remaining (length input - pos) },
        pos + min s.remaining (length input - pos),
        some (record {
          total_len = s.total;
          chunk = slice input pos (min s.remaining (length input - pos));
          end = s.remaining - min s.remaining (length input - pos) == 0;
        }),
      )
  unfolding feed_body
  body_some h = let e : length input - pos == 0 ≡ false = ground arith in rw e refl

-- What a call uses of the input from `pos` on.
pub record Moves (p : Phase) (input : Bytes) (pos : ℕ) (r : Fed) : Type 0 where
  pub takes : Takes p (take (r.1 - pos) (drop pos input)) r
  pub within : r.1 ≤ length input
  pub from : pos ≤ r.1
  pub some_used : pos < length input → pos < r.1

pub phase_body : (s : MapFrames) → s.remaining ≢ 0 → phase s ≡ body s.total s.remaining
phase_body s h = let e : s.remaining == 0 ≡ false = ground arith in rw e refl

-- A chunk of the body, of `n` bytes.
chunk-Takes :
    (s : MapFrames) (chunk : Bytes) (n used : ℕ)
    → IsValid s
    → s.remaining ≢ 0
    → length chunk ≡ n
    → n ≤ s.remaining
    → Takes (body s.total s.remaining) chunk (
      record s { remaining = s.remaining - n },
      used,
      some (record { total_len = s.total; chunk = chunk; end = s.remaining - n == 0 }),
    )
chunk-Takes s chunk n used v h size fits = elim (Bool-cases (s.remaining - n == 0)) [
  | inl e ↦ record {
    valid = record { buffer = v.buffer; partial = v.partial; apart = λ k. v.apart h };
    same = rw e (
        steps-ended s.total s.remaining chunk (ground arith) (omega arith)
        ∙ ap (λ n. (header (take n s.len_buf), map byte chunk ++ end s.total ∷ []))
            (sym (v.apart h)));
  }
  | inr e ↦ record {
    valid = record { buffer = v.buffer; partial = v.partial; apart = λ k. v.apart h };
    same = rw e (
        steps-body s.total s.remaining chunk (ground arith)
        ∙ ap₂ (λ m es. (body s.total m, es)) (ap (λ m. s.remaining - m) size)
            (sym (append-nil (map byte chunk))));
  }
]

pub feed_body-Moves :
    (s : MapFrames) (input : Bytes) (pos : ℕ)
    → IsValid s
    → s.remaining ≢ 0
    → pos ≤ length input
    → Moves (body s.total s.remaining) input pos (feed_body s input pos)
feed_body-Moves s input pos v h k = elim (Bool-cases (length input - pos == 0)) [
  | inl e ↦
      let still : pos - pos ≡ 0 = omega arith in
      rw (body_none s input pos (ground arith)) (record {
        takes = record {
          valid = v;
          same =
              ap (λ n. steps (body s.total s.remaining) (take n (drop pos input))) still
              ∙ steps_none (body s.total s.remaining)
              ∙ ap (λ p. (p, [])) (sym (phase_body s h));
        };
        within = k;
        from = omega arith;
        some_used = λ m. ground arith;
      })
  | inr e ↦
      let n = min s.remaining (length input - pos) in
      let chunk = slice input pos n in
      let size : pos + n - pos ≡ n = omega arith in
      let t =
        chunk-Takes s chunk n (pos + n) v h (length-slice input pos n (omega arith))
          (omega arith) in
      rw (body_some s input pos (ground arith)) (record {
        takes = rw size t;
        within = omega arith;
        from = omega arith;
        some_used = λ m. omega arith;
      })
]

pub length-filled :
    (s : MapFrames) (chunk : Bytes)
    → IsValid s
    → s.len_have + length chunk ≤ 4
    → length (copy_at s.len_buf s.len_have chunk) ≡ 4
length-filled s chunk v room =
    length-copy_at s.len_buf s.len_have chunk (omega (arith, v.buffer)) ∙ v.buffer

pub take-filled :
    (s : MapFrames) (chunk : Bytes)
    → IsValid s
    → s.len_have + length chunk ≤ 4
    → take (s.len_have + length chunk) (copy_at s.len_buf s.len_have chunk)
      ≡ take s.len_have s.len_buf ++ chunk
take-filled s chunk v room =
    let front = take s.len_have s.len_buf in
    let back = drop (s.len_have + length chunk) s.len_buf in
    ap (take (s.len_have + length chunk)) (sym (append_assoc front chunk back))
    ∙ take-append_self (front ++ chunk) back (s.len_have + length chunk)
        (omega (arith, length-append front chunk, length-take s.len_have s.len_buf, v.buffer))

-- How many bytes of a length a call takes.
abbrev pub wanted : MapFrames → Bytes → ℕ
wanted s input = min (4 - s.len_have) (length input)

-- With those bytes, and with the length that they complete.
abbrev pub with_bytes : MapFrames → Bytes → MapFrames
with_bytes s input = record s {
  len_buf = copy_at s.len_buf s.len_have (take (wanted s input) input);
  len_have = s.len_have + wanted s input;
}

abbrev pub with_length : MapFrames → Bytes → MapFrames
with_length s input =
    let b = copy_at s.len_buf s.len_have (take (wanted s input) input) in
    record s { len_buf = b; len_have = 0; remaining = from_le b; total = from_le b }

module _ (s : MapFrames) (input : Bytes) where
  pub feed_inside : s.remaining ≢ 0 → feed s input ≡ feed_body s input 0
  unfolding feed
  feed_inside h = let e : s.remaining == 0 ≡ false = ground arith in rw e refl

  pub feed_partial :
      s.remaining ≡ 0
      → s.len_have + wanted s input < 4
      → feed s input ≡ (with_bytes s input, wanted s input, none)
  unfolding feed
  feed_partial h k =
      let e : s.remaining == 0 ≡ true = ground arith in
      let l : ltb (s.len_have + wanted s input) 4 ≡ true = ground arith in rw e (rw l refl)

  pub feed_whole :
      s.remaining ≡ 0
      → 4 ≤ s.len_have + wanted s input
      → feed s input ≡ begin_frame (with_bytes s input) input (wanted s input)
  unfolding feed
  feed_whole h k =
      let e : s.remaining == 0 ≡ true = ground arith in
      let l : ltb (s.len_have + wanted s input) 4 ≡ false = ground arith in rw e (rw l refl)

pub begin_empty :
    (s : MapFrames) (input : Bytes) (pos : ℕ)
    → from_le s.len_buf ≡ 0
    → begin_frame s input pos ≡ (
      record s { len_have = 0; total = from_le s.len_buf; remaining = from_le s.len_buf },
      pos,
      some (record { total_len = 0; chunk = []; end = true }),
    )
unfolding begin_frame
begin_empty s input pos h = let e : from_le s.len_buf == 0 ≡ true = ground arith in rw e refl

pub begin_body :
    (s : MapFrames) (input : Bytes) (pos : ℕ)
    → from_le s.len_buf ≢ 0
    → begin_frame s input pos
      ≡ feed_body
          (record s { len_have = 0; total = from_le s.len_buf; remaining = from_le s.len_buf })
          input
          pos
unfolding begin_frame
begin_body s input pos h = let e : from_le s.len_buf == 0 ≡ false = ground arith in rw e refl

pub phase-header : (s : MapFrames) → s.remaining ≡ 0 → phase s ≡ header (take s.len_have s.len_buf)
phase-header s h = let e : s.remaining == 0 ≡ true = ground arith in rw e refl

pub opened_body : (n : ℕ) → n ≢ 0 → opened n ≡ (body n n, [])
opened_body n h = let e : n == 0 ≡ false = ground arith in rw e refl
