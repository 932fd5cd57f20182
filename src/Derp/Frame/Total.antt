-- ===== src/Derp/Frame/Total.antt =====
-- The reader keeps its buffers within bounds, always answers, and uses some of every input.
use lando.Prelude.{
  ℕ, zero, suc, ◌+◌, ◌-◌, ◌<◌, ◌≤◌, min, ◌≡◌, refl, subst, ◌∙◌, ◌⊎◌, some, length, get_or, ltb,
  ◌==◌, if◌then◌else◌, ok, err, arith, Bool-cases, inl, inr,
}
use lando.Prelude.Bytes.{Bytes, slice, copy_at, from_be, length-slice, length-copy_at}
use lando.Derp.Frame.{
  from_u8, is_control, State, header, buffering, streaming, draining, FrameReader, new_reader,
  Answer, Round, more, done, decode_header, read_header, read_buffering, read_draining,
  read_streaming, round, feed_loop, feed, control_frame_max, header_len, max_frame_len,
}

-- What is still to come in each state.
abbrev pub Pending : State → FrameReader → Type 0
Pending header r = Unit {0}
Pending buffering r = (0 < r.remaining) × (r.control_len < control_frame_max)
Pending streaming r = 0 < r.remaining
Pending draining r = 0 < r.remaining

-- No index of the reader leaves its buffer, and no more than a frame is outstanding.
pub record IsValid (r : FrameReader) : Type 0 where
  pub header_size : length r.header_buf ≡ header_len
  pub header_room : r.header_have < header_len
  pub control_size : length r.control_buf ≡ control_frame_max
  pub control_room : r.control_len ≤ control_frame_max
  pub bounded : r.remaining ≤ max_frame_len
  pub pending : Pending r.state r

pub new_reader-IsValid : IsValid new_reader
new_reader-IsValid = omega arith

-- The rounds that a state can still take.
abbrev rounds : State → ℕ → ℕ → ℕ
rounds header len pos = 3
rounds buffering len pos = if len - pos == 0 then 1 else 2
rounds streaming len pos = 1
rounds draining len pos = 1

-- What an answer owes: the reader is valid, and it used input, all of it within bounds.
abbrev pub Answers : ℕ → ℕ → Answer → Type 0
Answers len pos (r, ok (n, f)) = IsValid r × (pos ≤ n) × (n ≤ len) × (pos < len → pos < n)
Answers len pos (r, err e) = IsValid r

abbrev Goes : State → ℕ → ℕ → Round → Type 0
Goes s len pos (done a) = Answers len pos a
Goes s len pos (more r n) =
    IsValid r
    × (pos ≤ n)
    × (n ≤ len)
    × (pos < len → pos < n)
    × (rounds r.state len n < rounds s len pos)

module _ (r : FrameReader) (v : IsValid r) (input : Bytes) (pos : ℕ)
    (within : pos ≤ length input) where
  read_streaming-Goes :
      0 < r.remaining → Goes streaming (length input) pos (read_streaming r input pos)
  unfolding read_streaming
  read_streaming-Goes h = ground (arith, v)

  read_draining-Goes :
      r.state ≡ draining
      → 0 < r.remaining
      → Goes draining (length input) pos (read_draining r input pos)
  unfolding read_draining
  read_draining-Goes at h = ground (arith, v)

  read_buffering-Goes :
      r.state ≡ buffering
      → 0 < r.remaining
      → r.control_len < control_frame_max
      → Goes buffering (length input) pos (read_buffering r input pos)
  unfolding read_buffering
  read_buffering-Goes at h k =
      let n = min (min r.remaining (length input - pos)) (control_frame_max - r.control_len) in
      let kept = length-copy_at r.control_buf r.control_len (slice input pos n) in
      elim (Bool-cases (length input - pos == 0)) [
        | inl empty ↦ rw empty (ground (arith, v))
        | inr some_left ↦ elim (Bool-cases (r.remaining - n == 0)) [
          | inl whole ↦ rw (some_left, whole) (ground (arith, v, length-slice input pos n, kept))
          | inr part ↦ elim (Bool-cases (r.control_len + n == control_frame_max)) [
            | inl full ↦
                rw (some_left, part, full) (ground (arith, v, length-slice input pos n, kept))
            | inr room ↦
                rw (some_left, part, room) (ground (arith, v, length-slice input pos n, kept))
          ]
        ]
      ]

-- A complete header is accepted or refused.
decode_header-Goes :
    (r : FrameReader) (len before pos : ℕ)
    → r.state ≡ header
    → length r.header_buf ≡ header_len
    → length r.control_buf ≡ control_frame_max
    → before < pos
    → pos ≤ len
    → r.control_len ≤ control_frame_max
    → r.remaining ≤ max_frame_len
    → Goes header len before (decode_header r pos)
unfolding decode_header
decode_header-Goes r len before pos at hs cs lt within cl rm =
    let total = from_be (slice r.header_buf 1 4) in
    elim (Bool-cases (ltb max_frame_len total)) [
      | inl large ↦ rw large (ground arith)
      | inr small ↦ elim (Bool-cases (total == 0)) [
        | inl empty ↦ rw (small, empty) (ground arith)
        | inr nonempty ↦ elim (Bool-cases (is_control (from_u8 (get_or r.header_buf 0 0)))) [
          | inl ctl ↦ rw (small, nonempty, ctl) (ground arith)
          | inr str ↦ rw (small, nonempty, str) (ground arith)
        ]
      ]
    ]

read_header-Goes :
    (r : FrameReader) (v : IsValid r) (input : Bytes) (pos : ℕ)
    → pos ≤ length input
    → r.state ≡ header
    → Goes header (length input) pos (read_header r input pos)
unfolding read_header
read_header-Goes r v input pos within at =
    let n = min (header_len - r.header_have) (length input - pos) in
    let cut = length-slice input pos n (omega (arith, v.header_room)) in
    let kept =
      length-copy_at r.header_buf r.header_have (slice input pos n)
        (omega (arith, cut, v.header_size, v.header_room)) in
    elim (Bool-cases (ltb (r.header_have + n) header_len)) [
      | inl part ↦ rw part (ground (arith, v, kept))
      | inr whole ↦
          let reached : header_len ≤ r.header_have + n = ground arith in
          rw whole (
            decode_header-Goes
              (record r {
                header_buf = copy_at r.header_buf r.header_have (slice input pos n);
                header_have = r.header_have + n;
              })
              (length input) pos (pos + n) at (omega (arith, kept, v.header_size)) v.control_size
              (omega (arith, v.header_room)) (omega (arith, v.header_room)) v.control_room
              v.bounded)
    ]

round-Goes :
    (s : State) (r : FrameReader) (v : IsValid r) (input : Bytes) (pos : ℕ)
    → pos ≤ length input
    → r.state ≡ s
    → Pending s r
    → Goes s (length input) pos (round s r input pos)
unfolding round
round-Goes header r v input pos within at h = read_header-Goes r v input pos within at
round-Goes buffering r v input pos within at h = read_buffering-Goes r v input pos within at h.0 h.1
round-Goes streaming r v input pos within at h = read_streaming-Goes r v input pos within h
round-Goes draining r v input pos within at h = read_draining-Goes r v input pos within at h

pub Round-cases :
    (ρ : Round) → ((a : Answer) × (ρ ≡ done a)) ⊎ ((r : FrameReader) × (pos : ℕ) × (ρ ≡ more r pos))
Round-cases (done a) = inl (a, refl)
Round-cases (more r pos) = inr (r, pos, refl)

pub feed_loop-done :
    (fuel : ℕ) (s : State) (r : FrameReader) (input : Bytes) (pos : ℕ) {a : Answer}
    → r.state ≡ s
    → round s r input pos ≡ done a
    → feed_loop (suc fuel) r input pos ≡ some a
unfolding feed_loop
feed_loop-done fuel s r input pos at e = ground arith

pub feed_loop-more :
    (fuel : ℕ) (s : State) (r : FrameReader) (input : Bytes) (pos : ℕ) {r' : FrameReader} {pos' : ℕ}
    → r.state ≡ s
    → round s r input pos ≡ more r' pos'
    → feed_loop (suc fuel) r input pos ≡ feed_loop fuel r' input pos'
unfolding feed_loop
feed_loop-more fuel s r input pos at e = ground arith

rounds_pos : (s : State) (len pos : ℕ) → 0 < rounds s len pos
rounds_pos header len pos = omega arith
rounds_pos buffering len pos = ground arith
rounds_pos streaming len pos = omega arith
rounds_pos draining len pos = omega arith

-- An answer from a later position is one from an earlier position.
Answers-earlier :
    (len pos pos' : ℕ) (a : Answer)
    → pos ≤ pos'
    → pos' ≤ len
    → (pos < len → pos < pos')
    → Answers len pos' a
    → Answers len pos a
Answers-earlier len pos pos' (r, ok (n, f)) le within up (v, from, to, used) =
    (v, omega arith, omega arith, λ h. ground (arith, up h))
Answers-earlier len pos pos' (r, err e) le within up v = v

-- With as many rounds of fuel as the state can take, the loop answers.
feed_loop-Answers :
    (fuel : ℕ) (r : FrameReader) (input : Bytes) (pos : ℕ)
    → IsValid r
    → pos ≤ length input
    → rounds r.state (length input) pos ≤ fuel
    → (a : Answer) × (feed_loop fuel r input pos ≡ some a) × Answers (length input) pos a
feed_loop-Answers zero r input pos v within enough =
    absurd (omega (arith, rounds_pos r.state (length input) pos))
feed_loop-Answers (suc fuel) r input pos v within enough =
    let go = round-Goes r.state r v input pos within refl v.pending in
    elim (Round-cases (round r.state r input pos)) [
      | inl (a, e) ↦ (
        a,
        feed_loop-done fuel r.state r input pos refl e,
        subst (Goes r.state (length input) pos) e go,
      )
      | inr (r', pos', e) ↦
          let (v', le, in_range, up, fewer) = subst (Goes r.state (length input) pos) e go in
          let (a, answer, owes) = feed_loop-Answers fuel r' input pos' v' in_range (omega arith) in
          (
            a,
            feed_loop-more fuel r.state r input pos refl e ∙ answer,
            Answers-earlier (length input) pos pos' a le in_range up owes,
          )
    ]

rounds-le : (s : State) (len pos : ℕ) → rounds s len pos ≤ 4
rounds-le header len pos = omega arith
rounds-le buffering len pos = ground arith
rounds-le streaming len pos = omega arith
rounds-le draining len pos = omega arith

-- From every valid reader `feed` answers within its four rounds. The reader stays valid, and unless
-- the frame is too large, no more than the input is used, and some of it wherever there is any.
pub feed_total :
    (r : FrameReader) (input : Bytes)
    → IsValid r
    → (a : Answer) × (feed r input ≡ some a) × Answers (length input) 0 a
unfolding feed
feed_total r input v =
    feed_loop-Answers 4 r input 0 v (omega arith) (rounds-le r.state (length input) 0)
