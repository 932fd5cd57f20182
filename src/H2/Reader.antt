-- ===== src/H2/Reader.antt =====
-- `h2::FrameReader`, an incremental reader of frames with a header of nine bytes. Its loop runs on four
-- rounds of fuel, and `none` means that they ran out.
pub mod Rounds
pub mod Loop
mod Tests
use lando.Prelude.{
  ℕ, zero, suc, ◌+◌, ◌-◌, ◌%◌, ◌^◌, min, bit_and, Bool, true, false, Option, none, some, [], ◌∷◌,
  length, get_or, take, replicate, ltb, ◌==◌, ◌||◌, if◌then◌else◌,
}
use lando.Prelude.Bytes.{Bytes, slice, copy_at, from_be}
use lando.H2.{
  FrameHeader, frame_header_len, data_type, rst_stream_type, settings_type, ping_type, goaway_type,
  window_update_type,
}

abbrev pub control_frame_max : ℕ
control_frame_max = 128

pub record ControlFrame : Type 0 where
  pub header : FrameHeader
  pub payload_buf : Bytes
  pub payload_len : ℕ

unfoldable pub payload : ControlFrame → Bytes
payload f = take f.payload_len f.payload_buf

pub data Item : Type 0 where
  control : ControlFrame → Item
  body : FrameHeader → Bytes → Bool → Item

pub data State : Type 0 where
  at_header buffering streaming draining : State

pub record FrameReader : Type 0 where
  pub state : State
  pub header_buf : Bytes
  pub header_have : ℕ
  pub current : FrameHeader
  pub remaining : ℕ
  pub control_buf : Bytes
  pub control_len : ℕ
  pub pending_window : ℕ

-- `FrameReader::new`
abbrev pub new_reader : FrameReader
new_reader = record {
  state = at_header;
  header_buf = replicate frame_header_len 0;
  header_have = 0;
  current = record { length_field = 0; kind = 0; flags = 0; stream_id = 0 };
  remaining = 0;
  control_buf = replicate control_frame_max 0;
  control_len = 0;
  pending_window = 0;
}

-- The method `control_frame`.
abbrev pub control_frame : FrameReader → FrameHeader → ControlFrame
control_frame r h = record { header = h; payload_buf = r.control_buf; payload_len = r.control_len }

unfoldable pub take_pending_window : FrameReader → FrameReader × ℕ
take_pending_window r = (record r { pending_window = 0 }, r.pending_window)

unfoldable pub is_control : ℕ → Bool
is_control kind =
    kind == settings_type
    || kind == ping_type
    || kind == window_update_type
    || kind == goaway_type
    || kind == rst_stream_type

-- What `feed` answers: the bytes used and at most one item.
abbrev pub Answer : Type 0
Answer = FrameReader × ℕ × Option Item

-- A round of the loop goes on, at a new position, or returns.
pub data Round : Type 0 where
  more : FrameReader → ℕ → Round
  done : Answer → Round

-- The header that nine bytes stand for; the top bit of the stream is ignored.
unfoldable pub decoded : Bytes → FrameHeader
decoded b = record {
  length_field = from_be (0 ∷ slice b 0 3);
  kind = get_or b 3 0;
  flags = get_or b 4 0;
  stream_id = bit_and (from_be (slice b 5 4)) 0x7fffffff;
}

-- A frame without a payload.
abbrev pub empty_item : FrameReader → FrameHeader → Item
empty_item r h = if is_control h.kind then control (control_frame r h) else body h [] true

-- The header is complete.
unfoldable pub begin_with : FrameHeader → FrameReader → ℕ → Round
unfolding is_control
begin_with h r0 pos =
    let r = record r0 {
      header_have = 0;
      current = h;
      remaining = h.length_field;
      control_len = 0;
    } in
    if h.length_field == 0
    then done (record r { state = at_header }, pos, some (empty_item r h))
    else more (record r { state = if is_control h.kind then buffering else streaming }) pos

unfoldable pub begin_frame : FrameReader → ℕ → Round
unfolding decoded begin_with
begin_frame r pos = begin_with (decoded r.header_buf) r pos

unfoldable pub read_header : FrameReader → Bytes → ℕ → Round
read_header r input pos =
    let need = frame_header_len - r.header_have in
    let n = min need (length input - pos) in
    let r1 = record r {
      header_buf = copy_at r.header_buf r.header_have (slice input pos n);
      header_have = r.header_have + n;
    } in
    if ltb r1.header_have frame_header_len
    then done (r1, pos + n, none)
    else begin_frame r1 (pos + n)

-- The frame is over.
abbrev pub finished : FrameReader → ℕ → Round
finished r pos =
    done (record r { state = at_header }, pos, some (control (control_frame r r.current)))

pub read_buffering : FrameReader → Bytes → ℕ → Round
read_buffering r input pos =
    let avail = length input - pos in
    if avail == 0
    then done (r, pos, none)
    else let space = control_frame_max - r.control_len in
      let n = min (min r.remaining avail) space in
      let r1 = record r {
        control_buf = copy_at r.control_buf r.control_len (slice input pos n);
        control_len = r.control_len + n;
        remaining = r.remaining - n;
      } in
      if r1.remaining == 0
      then finished r1 (pos + n)
      else if r1.control_len == control_frame_max
      then more (record r1 { state = draining }) (pos + n)
      else more r1 (pos + n)

pub read_draining : FrameReader → Bytes → ℕ → Round
read_draining r input pos =
    let n = min r.remaining (length input - pos) in
    let r1 = record r { remaining = r.remaining - n } in
    if ltb 0 r1.remaining then done (r1, pos + n, none) else finished r1 (pos + n)

unfoldable pub read_streaming : FrameReader → Bytes → ℕ → Round
read_streaming r input pos =
    let avail = length input - pos in
    if avail == 0
    then done (r, pos, none)
    else let n = min r.remaining avail in
      let left = r.remaining - n in
      let end = left == 0 in
      let window =
        if r.current.kind == data_type then (r.pending_window + n) % 2 ^ 32 else r.pending_window in
      done (
        record r {
          remaining = left;
          state = if end then at_header else r.state;
          pending_window = window;
        },
        pos + n,
        some (body r.current (slice input pos n) end),
      )

-- The `match` of the loop.
unfoldable pub round : State → FrameReader → Bytes → ℕ → Round
round at_header r input pos = read_header r input pos
round buffering r input pos = read_buffering r input pos
round draining r input pos = read_draining r input pos
round streaming r input pos = read_streaming r input pos

pub feed_loop : ℕ → FrameReader → Bytes → ℕ → Option Answer
feed_loop zero r input pos = none
feed_loop (suc fuel) r input pos = elim (round r.state r input pos) [
  | done answer ↦ some answer
  | more r' pos' ↦ feed_loop fuel r' input pos'
]

unfoldable pub feed : FrameReader → Bytes → Option Answer
feed r input = feed_loop 4 r input 0
