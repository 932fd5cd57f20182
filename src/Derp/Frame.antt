-- ===== src/Derp/Frame.antt =====
-- The framing of crates/tailscale-core/src/derp/frame.rs: `FrameReader`, an incremental reader of
-- `type u8 | length u32 be | payload`. Its loop runs on four rounds of fuel (a header, a capture, and
-- a drain or a second look at the empty input take three), and `none` means that they ran out.
pub mod Total
pub mod Rounds
pub mod Reads
mod Tests
use lando.Prelude.{
  ℕ, zero, suc, ◌+◌, ◌-◌, ◌*◌, ◌<◌, ◌≤◌, min, Bool, true, false, Option, none, some, List, [], ◌∷◌,
  ◌++◌, length, get_or, take, replicate, ltb, ◌==◌, not, ◌||◌, if◌then◌else◌, Result, ok, err,
}
use lando.Prelude.Bytes.{Bytes, slice, copy_at, to_be, from_be, eq_bytes}

abbrev pub header_len : ℕ
header_len = 5

abbrev pub max_frame_len : ℕ
max_frame_len = 64 * 1024

abbrev pub control_frame_max : ℕ
control_frame_max = 512

abbrev pub key_len : ℕ
key_len = 32

pub data FrameType : Type 0 where
  server_key client_info server_info send_packet recv_packet keep_alive note_preferred : FrameType
  peer_gone peer_present forward_packet watch_conns close_peer ping pong health : FrameType
  restarting unknown : FrameType

-- `kind as u8`
unfoldable pub to_u8 : FrameType → ℕ
to_u8 server_key = 0x01
to_u8 client_info = 0x02
to_u8 server_info = 0x03
to_u8 send_packet = 0x04
to_u8 recv_packet = 0x05
to_u8 keep_alive = 0x06
to_u8 note_preferred = 0x07
to_u8 peer_gone = 0x08
to_u8 peer_present = 0x09
to_u8 forward_packet = 0x0a
to_u8 watch_conns = 0x10
to_u8 close_peer = 0x11
to_u8 ping = 0x12
to_u8 pong = 0x13
to_u8 health = 0x14
to_u8 restarting = 0x15
to_u8 unknown = 0xff

unfoldable pub from_u8 : ℕ → FrameType
from_u8 v =
    if v == 0x01
    then server_key
    else if v == 0x02
    then client_info
    else if v == 0x03
    then server_info
    else if v == 0x04
    then send_packet
    else if v == 0x05
    then recv_packet
    else if v == 0x06
    then keep_alive
    else if v == 0x07
    then note_preferred
    else if v == 0x08
    then peer_gone
    else if v == 0x09
    then peer_present
    else if v == 0x0a
    then forward_packet
    else if v == 0x10
    then watch_conns
    else if v == 0x11
    then close_peer
    else if v == 0x12
    then ping
    else if v == 0x13
    then pong
    else if v == 0x14
    then health
    else if v == 0x15
    then restarting
    else unknown

unfoldable pub is_control : FrameType → Bool
is_control send_packet = false
is_control recv_packet = false
is_control forward_packet = false
is_control unknown = false
is_control kind = true

pub data DerpError : Type 0 where
  frame_too_large bad_server_key crypto short_buffer : DerpError

pub record ControlPayload : Type 0 where
  pub buf : Bytes
  pub len : ℕ

unfoldable pub as_slice : ControlPayload → Bytes
as_slice p = take p.len p.buf

pub data Frame : Type 0 where
  control : FrameType → ControlPayload → Frame
  body : FrameType → ℕ → Bytes → Bool → Frame

pub data State : Type 0 where
  header buffering streaming draining : State

pub record FrameReader : Type 0 where
  pub state : State
  pub header_buf : Bytes
  pub header_have : ℕ
  pub kind : FrameType
  pub total : ℕ
  pub remaining : ℕ
  pub control_buf : Bytes
  pub control_len : ℕ

-- `FrameReader::new`
abbrev pub new_reader : FrameReader
new_reader = record {
  state = header;
  header_buf = replicate header_len 0;
  header_have = 0;
  kind = unknown;
  total = 0;
  remaining = 0;
  control_buf = replicate control_frame_max 0;
  control_len = 0;
}

-- The method `control_frame`.
abbrev pub control_frame : FrameReader → FrameType → Frame
control_frame r kind = control kind (record { buf = r.control_buf; len = r.control_len })

-- What `feed` answers: the bytes used and at most one frame.
abbrev pub Answer : Type 0
Answer = FrameReader × Result DerpError (ℕ × Option Frame)

-- A round of the loop goes on, at a new position, or returns.
pub data Round : Type 0 where
  more : FrameReader → ℕ → Round
  done : Answer → Round

-- The header is complete.
pub decode_header : FrameReader → ℕ → Round
decode_header r0 pos =
    let kind = from_u8 (get_or r0.header_buf 0 0) in
    let total = from_be (slice r0.header_buf 1 4) in
    let r = record r0 { header_have = 0; kind = kind; total = total } in
    if ltb max_frame_len total
    then done (r, err frame_too_large)
    else let r1 = record r { remaining = total; control_len = 0 } in
      if total == 0
      then done (record r1 { state = header }, ok (pos, some (control_frame r1 kind)))
      else more (record r1 { state = if is_control kind then buffering else streaming }) pos

pub read_header : FrameReader → Bytes → ℕ → Round
read_header r input pos =
    let need = header_len - r.header_have in
    let n = min need (length input - pos) in
    let r1 = record r {
      header_buf = copy_at r.header_buf r.header_have (slice input pos n);
      header_have = r.header_have + n;
    } in
    if ltb r1.header_have header_len
    then done (r1, ok (pos + n, none))
    else decode_header r1 (pos + n)

pub read_buffering : FrameReader → Bytes → ℕ → Round
read_buffering r input pos =
    let avail = length input - pos in
    if avail == 0
    then done (r, ok (pos, none))
    else let space = control_frame_max - r.control_len in
      let n = min (min r.remaining avail) space in
      let r1 = record r {
        control_buf = copy_at r.control_buf r.control_len (slice input pos n);
        control_len = r.control_len + n;
        remaining = r.remaining - n;
      } in
      if r1.remaining == 0
      then done (record r1 { state = header }, ok (pos + n, some (control_frame r1 r1.kind)))
      else if r1.control_len == control_frame_max
      then more (record r1 { state = draining }) (pos + n)
      else more r1 (pos + n)

pub read_draining : FrameReader → Bytes → ℕ → Round
read_draining r input pos =
    let n = min r.remaining (length input - pos) in
    let r1 = record r { remaining = r.remaining - n } in
    if ltb 0 r1.remaining
    then done (r1, ok (pos + n, none))
    else done (record r1 { state = header }, ok (pos + n, some (control_frame r1 r1.kind)))

pub read_streaming : FrameReader → Bytes → ℕ → Round
read_streaming r input pos =
    let avail = length input - pos in
    if avail == 0
    then done (r, ok (pos, none))
    else let n = min r.remaining avail in
      let rest = r.remaining - n in
      let end = rest == 0 in
      done (
        record r { remaining = rest; state = if end then header else streaming },
        ok (pos + n, some (body r.kind r.total (slice input pos n) end)),
      )

-- The `match` of the loop.
pub round : State → FrameReader → Bytes → ℕ → Round
round header r input pos = read_header r input pos
round buffering r input pos = read_buffering r input pos
round draining r input pos = read_draining r input pos
round streaming r input pos = read_streaming r input pos

pub feed_loop : ℕ → FrameReader → Bytes → ℕ → Option Answer
feed_loop zero r input pos = none
feed_loop (suc fuel) r input pos = elim (round r.state r input pos) [
  | done answer ↦ some answer
  | more r' pos' ↦ feed_loop fuel r' input pos'
]

unfoldable pub feed : FrameReader → Bytes → Option Answer
feed r input = feed_loop 4 r input 0

-- `derp::MAGIC`
abbrev pub magic : Bytes
magic = 0x44 ∷ 0x45 ∷ 0x52 ∷ 0x50 ∷ 0xf0 ∷ 0x9f ∷ 0x94 ∷ 0x91 ∷ []

unfoldable pub parse_server_key : Bytes → Result DerpError Bytes
unfolding eq_bytes
parse_server_key payload =
    if ltb (length payload) (length magic + key_len)
      || not (eq_bytes (take (length magic) payload) magic)
    then err bad_server_key
    else ok (slice payload (length magic) key_len)

-- The buffer after the call, and the bytes written.
unfoldable pub write_header : Bytes → FrameType → ℕ → Bytes × Result DerpError ℕ
unfolding to_u8
write_header out kind len =
    if ltb (length out) header_len
    then (out, err short_buffer)
    else (copy_at (copy_at out 0 (to_u8 kind ∷ [])) 1 (to_be 4 len), ok header_len)
