-- ===== src/H2.antt =====
-- crates/tailscale-core/src/h2.rs, the HTTP/2 that the control plane needs: frame headers, the reader
-- and the writer of frames.
pub mod Reader
pub mod Writer
pub mod Delivery
use lando.Prelude.{ℕ, Bool, not, bit_and, ◌==◌}
use lando.Prelude.Bytes.{Bytes, codes}

abbrev pub preface_text : Bytes
preface_text = codes "PRI * HTTP/2.0\r\n\r\nSM\r\n\r\n"

abbrev pub frame_header_len : ℕ
frame_header_len = 9

-- `frame_type`
abbrev pub data_type : ℕ
data_type = 0x0

abbrev pub headers_type : ℕ
headers_type = 0x1

abbrev pub rst_stream_type : ℕ
rst_stream_type = 0x3

abbrev pub settings_type : ℕ
settings_type = 0x4

abbrev pub ping_type : ℕ
ping_type = 0x6

abbrev pub goaway_type : ℕ
goaway_type = 0x7

abbrev pub window_update_type : ℕ
window_update_type = 0x8

-- `flag`
abbrev pub end_stream_flag : ℕ
end_stream_flag = 0x1

abbrev pub ack_flag : ℕ
ack_flag = 0x1

abbrev pub end_headers_flag : ℕ
end_headers_flag = 0x4

-- `setting`
abbrev pub header_table_size : ℕ
header_table_size = 0x1

abbrev pub enable_push : ℕ
enable_push = 0x2

abbrev pub initial_window_size : ℕ
initial_window_size = 0x4

abbrev pub max_frame_size : ℕ
max_frame_size = 0x5

pub record FrameHeader : Type 0 where
  pub length_field : ℕ
  pub kind : ℕ
  pub flags : ℕ
  pub stream_id : ℕ

unfoldable pub end_stream : FrameHeader → Bool
end_stream h = not (bit_and h.flags end_stream_flag == 0)
