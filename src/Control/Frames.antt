-- ===== src/Control/Frames.antt =====
-- What arrives on the control connection: the early payload before the HTTP/2 stream, and the frames of
-- the map response.
pub mod Early
pub mod Stream
mod Calls
mod Refine
pub mod Pieces
use lando.Prelude.{
  ℕ, zero, suc, ◌+◌, ◌-◌, Bool, true, false, not, Option, none, some, List, [], ◌∷◌, ◌++◌, length,
  take, drop, replicate, min, ltb, ◌==◌, if◌then◌else◌,
}
use lando.Prelude.Bytes.{Bytes, slice, copy_at, from_be, from_le, eq_bytes}

-- `\xff\xff\xffTS`
abbrev pub early_payload_magic : Bytes
early_payload_magic = 0xff ∷ 0xff ∷ 0xff ∷ b'T' ∷ b'S' ∷ []

pub data EarlyPayload : Type 0 where
  absent incomplete : EarlyPayload
  present : ℕ → Bytes → EarlyPayload

unfoldable pub parse_early_payload : Bytes → EarlyPayload
unfolding eq_bytes
parse_early_payload buf =
    let magic_len = length early_payload_magic in
    let common = min (length buf) magic_len in
    let len = from_be (slice buf magic_len 4) in
    let start = magic_len + 4 in
    if not (eq_bytes (take common buf) (take common early_payload_magic))
    then absent
    else if ltb (length buf) (magic_len + 4)
    then incomplete
    else if ltb (length buf) (start + len)
    then incomplete
    else present (start + len) (slice buf start len)

pub record MapFrame : Type 0 where
  pub total_len : ℕ
  pub chunk : Bytes
  pub end : Bool

pub record MapFrames : Type 0 where
  pub len_buf : Bytes
  pub len_have : ℕ
  pub remaining : ℕ
  pub total : ℕ

abbrev pub new_frames : MapFrames
new_frames = record { len_buf = replicate 4 0; len_have = 0; remaining = 0; total = 0 }

-- The splitter after a call of `feed`, the bytes used, and at most one chunk.
abbrev pub Fed : Type 0
Fed = MapFrames × ℕ × Option MapFrame

-- The second half of `feed`: a chunk of the body at `pos`.
unfoldable pub feed_body : MapFrames → Bytes → ℕ → Fed
feed_body s input pos =
    let avail = length input - pos in
    let n = min s.remaining avail in
    let rest = s.remaining - n in
    if avail == 0 then (s, pos, none) else (
      record s { remaining = rest },
      pos + n,
      some (record { total_len = s.total; chunk = slice input pos n; end = rest == 0 }),
    )

-- Where the length is complete.
unfoldable pub begin_frame : MapFrames → Bytes → ℕ → Fed
unfolding feed_body
begin_frame s input pos =
    let len = from_le s.len_buf in
    let s1 = record s { len_have = 0; total = len; remaining = len } in
    if len == 0
    then (s1, pos, some (record { total_len = 0; chunk = []; end = true }))
    else feed_body s1 input pos

unfoldable pub feed : MapFrames → Bytes → Fed
unfolding begin_frame feed_body
feed s input =
    let n = min (4 - s.len_have) (length input) in
    let s1 = record s {
      len_buf = copy_at s.len_buf s.len_have (take n input);
      len_have = s.len_have + n;
    } in
    if s.remaining == 0
    then if ltb s1.len_have 4 then (s1, n, none) else begin_frame s1 input n
    else feed_body s input 0
