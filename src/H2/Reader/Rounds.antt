-- ===== src/H2/Reader/Rounds.antt =====
-- The reader keeps its buffers within bounds, always answers, uses some of every input, and counts the
-- payload of DATA frames that it hands out.
use lando.Prelude.{
  ℕ, ◌+◌, ◌-◌, ◌%◌, ◌^◌, ◌<◌, ◌≤◌, min, ◌≡◌, Option, none, some, length, ltb, ◌==◌, if◌then◌else◌,
  arith, Bool-cases, inl, inr,
}
use lando.Prelude.Bytes.{Bytes, slice, copy_at, length-slice, length-copy_at}
use lando.H2.{frame_header_len, data_type}
use lando.H2.Reader.{
  Item, control, body, State, at_header, buffering, streaming, draining, FrameReader, new_reader,
  Answer, Round, more, done, decoded, begin_with, begin_frame, is_control, read_header,
  read_buffering, read_draining, read_streaming, control_frame_max,
}

-- What is still to come in each state.
abbrev pub Pending : State → FrameReader → Type 0
Pending at_header r = Unit {0}
Pending buffering r = (0 < r.remaining) × (r.control_len < control_frame_max)
Pending streaming r = 0 < r.remaining
Pending draining r = 0 < r.remaining

-- No index of the reader leaves its buffer.
pub record IsValid (r : FrameReader) : Type 0 where
  pub header_size : length r.header_buf ≡ frame_header_len
  pub header_room : r.header_have < frame_header_len
  pub control_size : length r.control_buf ≡ control_frame_max
  pub control_room : r.control_len ≤ control_frame_max
  pub window : r.pending_window < 2 ^ 32
  pub pending : Pending r.state r

pub new_reader-IsValid : IsValid new_reader
new_reader-IsValid = omega arith

-- The bytes that an item costs of the window.
abbrev pub charged : Option Item → ℕ
charged none = 0
charged (some (control f)) = 0
charged (some (body h chunk end)) = if h.kind == data_type then length chunk else 0

-- The rounds that a state can still take.
abbrev pub rounds : State → ℕ → ℕ → ℕ
rounds at_header len pos = 3
rounds buffering len pos = if len - pos == 0 then 1 else 2
rounds streaming len pos = 1
rounds draining len pos = 1

-- What an answer owes, when the window stood at `w`.
pub record Answers (w len pos : ℕ) (a : Answer) : Type 0 where
  pub valid : IsValid a.0
  pub from : pos ≤ a.1
  pub within : a.1 ≤ len
  pub used : pos < len → pos < a.1
  pub counted : (a.0).pending_window ≡ (w + charged a.2) % 2 ^ 32

abbrev pub Goes : State → ℕ → ℕ → ℕ → Round → Type 0
Goes s w len pos (done a) = Answers w len pos a
Goes s w len pos (more r n) =
    IsValid r
    × (pos ≤ n)
    × (n ≤ len)
    × (pos < len → pos < n)
    × (rounds r.state len n < rounds s len pos)
    × (r.pending_window ≡ w)

module _ (r : FrameReader) (v : IsValid r) (input : Bytes) (pos : ℕ)
    (within : pos ≤ length input) where
  pub read_streaming-Goes :
      r.state ≡ streaming
      → 0 < r.remaining
      → Goes streaming r.pending_window (length input) pos (read_streaming r input pos)
  unfolding read_streaming
  read_streaming-Goes at h =
      let n = min r.remaining (length input - pos) in
      let cut = length-slice input pos n (omega arith) in
      elim (Bool-cases (length input - pos == 0)) [
        | inl empty ↦ rw empty (ground (arith, v))
        | inr some_left ↦ elim (Bool-cases (r.current.kind == data_type)) [
          | inl charge ↦ rw (some_left, charge) (ground (arith, v, cut))
          | inr free ↦ rw (some_left, free) (ground (arith, v, cut))
        ]
      ]

  pub read_draining-Goes :
      r.state ≡ draining
      → 0 < r.remaining
      → Goes draining r.pending_window (length input) pos (read_draining r input pos)
  unfolding read_draining
  read_draining-Goes at h = ground (arith, v)

  pub read_buffering-Goes :
      r.state ≡ buffering
      → 0 < r.remaining
      → r.control_len < control_frame_max
      → Goes buffering r.pending_window (length input) pos (read_buffering r input pos)
  unfolding read_buffering
  read_buffering-Goes at h k =
      let n = min (min r.remaining (length input - pos)) (control_frame_max - r.control_len) in
      let kept = length-copy_at r.control_buf r.control_len (slice input pos n) in
      elim (Bool-cases (length input - pos == 0)) [
        | inl empty ↦ rw empty (ground (arith, v))
        | inr some_left ↦ elim (Bool-cases (r.remaining - n == 0)) [
          | inl whole ↦ rw (some_left, whole) (ground (arith, v, length-slice input pos n, kept))
          | inr part ↦ elim (Bool-cases (r.control_len + n == control_frame_max)) [
            | inl full ↦
                rw (some_left, part, full) (ground (arith, v, length-slice input pos n, kept))
            | inr room ↦
                rw (some_left, part, room) (ground (arith, v, length-slice input pos n, kept))
          ]
        ]
      ]

begin_frame-Goes :
    (r : FrameReader) (len before pos : ℕ)
    → length r.header_buf ≡ frame_header_len
    → length r.control_buf ≡ control_frame_max
    → before < pos
    → pos ≤ len
    → r.pending_window < 2 ^ 32
    → Goes at_header r.pending_window len before (begin_frame r pos)
unfolding begin_frame begin_with
begin_frame-Goes r len before pos hs cs lt within w =
    let h = decoded r.header_buf in
    elim (Bool-cases (h.length_field == 0)) [
      | inl empty ↦ elim (Bool-cases (is_control h.kind)) [
        | inl ctl ↦ rw (empty, ctl) (ground arith)
        | inr str ↦ rw (empty, str) (ground arith)
      ]
      | inr nonempty ↦ elim (Bool-cases (is_control h.kind)) [
        | inl ctl ↦ rw (nonempty, ctl) (ground arith)
        | inr str ↦ rw (nonempty, str) (ground arith)
      ]
    ]

pub read_header-Goes :
    (r : FrameReader) (v : IsValid r) (input : Bytes) (pos : ℕ)
    → pos ≤ length input
    → r.state ≡ at_header
    → Goes at_header r.pending_window (length input) pos (read_header r input pos)
unfolding read_header
read_header-Goes r v input pos within at =
    let n = min (frame_header_len - r.header_have) (length input - pos) in
    let cut = length-slice input pos n (omega (arith, v.header_room)) in
    let kept =
      length-copy_at r.header_buf r.header_have (slice input pos n)
        (omega (arith, cut, v.header_size, v.header_room)) in
    elim (Bool-cases (ltb (r.header_have + n) frame_header_len)) [
      | inl part ↦ rw part (ground (arith, v, kept))
      | inr whole ↦
          let reached : frame_header_len ≤ r.header_have + n = ground arith in
          rw whole (
            begin_frame-Goes
              (record r {
                header_buf = copy_at r.header_buf r.header_have (slice input pos n);
                header_have = r.header_have + n;
              })
              (length input) pos (pos + n) (omega (arith, kept, v.header_size)) v.control_size
              (omega (arith, v.header_room)) (omega (arith, v.header_room)) v.window)
    ]
