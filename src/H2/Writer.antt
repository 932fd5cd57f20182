-- ===== src/H2/Writer.antt =====
-- `h2::Writer`, which writes frames and the fixed header block of a request. A method returns the writer
-- after it; what a failed call leaves in the buffer is not part of the model.
pub mod Emits
pub mod Frames
pub mod Integers
use lando.Prelude.{
  ℕ, zero, suc, ◌+◌, ◌-◌, ◌*◌, ◌/◌, ◌%◌, ◌^◌, min, bit_and, bit_or, Bool, true, false, List, [],
  ◌∷◌, ◌++◌, length, take, drop, replicate, ltb, leb, ◌==◌, if◌then◌else◌, Result, ok, err, ◌>>=◌,
}
use lando.Prelude.Bytes.{Bytes, codes, copy_at, to_be, from_be, slice}
use lando.Prelude.Decimal.{decimal}
use lando.H2.{
  preface_text, data_type, headers_type, settings_type, ping_type, window_update_type,
  end_stream_flag, ack_flag, end_headers_flag, header_table_size, enable_push, initial_window_size,
  max_frame_size,
}

pub data H2Error : Type 0 where
  short_buffer : H2Error

pub record Writer : Type 0 where
  pub buf : Bytes
  pub pos : ℕ

abbrev pub new_writer : Bytes → Writer
new_writer buf = record { buf = buf; pos = 0 }

abbrev pub len : Writer → ℕ
len w = w.pos

abbrev pub is_empty : Writer → Bool
is_empty w = w.pos == 0

abbrev pub Method : Type 0
Method = Writer → Result H2Error Writer

-- `?` between two calls.
infixl 5 ◌>>◌
abbrev pub ◌>>◌ : Method → Method → Method
◌>>◌ f g w = elim (f w) [ ok w' ↦ g w' | err e ↦ err e ]

unfoldable pub put : Bytes → Method
put bytes w =
    if ltb (length w.buf) (w.pos + length bytes)
    then err short_buffer
    else ok (record { buf = copy_at w.buf w.pos bytes; pos = w.pos + length bytes })

unfoldable pub put_u8 : ℕ → Method
unfolding put
put_u8 b = put (b ∷ [])

unfoldable pub preface : Method
unfolding put
preface = put preface_text

-- The low three bytes of the length, `l[1], l[2], l[3]`.
unfoldable pub frame_header : ℕ → ℕ → ℕ → ℕ → Method
unfolding put
frame_header length_field kind flags stream_id = do
  put (drop 1 (to_be 4 length_field) ++ (kind ∷ flags ∷ []))
  put (to_be 4 stream_id)

-- The loop over the entries.
unfoldable pub put_settings : List (ℕ × ℕ) → Method
unfolding put
put_settings [] = λ w. ok w
put_settings ((id, value) ∷ es) = do put (to_be 2 id); put (to_be 4 value); put_settings es

abbrev pub entries : ℕ → ℕ → List (ℕ × ℕ)
entries initial_window max_frame =
    (header_table_size, 0)
    ∷ (enable_push, 0)
    ∷ (initial_window_size, initial_window)
    ∷ (max_frame_size, max_frame)
    ∷ []

unfoldable pub settings : ℕ → ℕ → Method
unfolding frame_header put_settings
settings initial_window max_frame = do
  frame_header (4 * 6) settings_type 0 0
  put_settings (entries initial_window max_frame)

unfoldable pub settings_ack : Method
unfolding frame_header
settings_ack = frame_header 0 settings_type ack_flag 0

unfoldable pub ping_ack : Bytes → Method
unfolding frame_header put
ping_ack payload =
    let n = min (length payload) 8 in
    let bytes = copy_at (replicate 8 0) 0 (take n payload) in
    do frame_header 8 ping_type ack_flag 0; put bytes

unfoldable pub window_update : ℕ → ℕ → Method
unfolding frame_header put
window_update stream_id increment = do
  frame_header 4 window_update_type 0 stream_id
  put (to_be 4 (bit_and increment 0x7fffffff))

unfoldable pub data_frame : ℕ → Bytes → Bool → Method
unfolding frame_header put
data_frame stream_id payload end_stream = do
  frame_header (length payload) data_type (if end_stream then end_stream_flag else 0) stream_id
  put payload

-- The loop of `encode_integer`, a round of fuel for each byte that a `u32` can need.
unfoldable pub encode_rest : ℕ → ℕ → Method
unfolding put_u8
encode_rest zero rest = put_u8 rest
encode_rest (suc fuel) rest =
    let more = encode_rest fuel (rest / 128) in
    if leb 128 rest then put_u8 (rest % 128 + 128) >> more else put_u8 rest

-- HPACK integers with a prefix of some bits.
unfoldable pub encode_integer : ℕ → ℕ → ℕ → Method
unfolding encode_rest put_u8
encode_integer value prefix_bits flags =
    let max = 2 ^ prefix_bits - 1 in
    if ltb value max
    then put_u8 (bit_or flags value)
    else put_u8 (bit_or flags max) >> encode_rest 5 (value - max)

unfoldable pub literal : ℕ → Bytes → Method
unfolding encode_integer put
literal name_index value = do
  encode_integer name_index 4 0x10
  encode_integer (length value) 7 0x00
  put value

unfoldable pub literal_named : Bytes → Bytes → Method
unfolding encode_integer put put_u8
literal_named name value = do
  put_u8 0x10
  encode_integer (length name) 7 0x00
  put name
  encode_integer (length value) 7 0x00
  put value

-- `write_usize`, for a `usize` of at most 64 bits.
abbrev pub write_usize : ℕ → Bytes
write_usize v = decimal 20 v

-- The block of headers, in its own buffer.
unfoldable pub header_block : Bytes → Bytes → ℕ → Method
unfolding literal literal_named put_u8
header_block authority path content_length = do
  put_u8 0x83
  put_u8 0x86
  literal 4 path
  literal 1 authority
  literal_named (codes "content-type") (codes "application/json")
  literal_named (codes "content-length") (write_usize content_length)

abbrev pub written : Writer → Bytes
written b = take b.pos b.buf

unfoldable pub post_headers : ℕ → Bytes → Bytes → ℕ → Method
unfolding header_block frame_header put
post_headers stream_id authority path content_length w =
    header_block authority path content_length (new_writer (replicate 256 0)) >>= λ b.
    (do frame_header b.pos headers_type end_headers_flag stream_id; put (written b)) w

-- `settings_iter`: the chunks of six bytes, and what is left of fewer is not looked at.
unfoldable pub settings_iter : Bytes → List (ℕ × ℕ)
settings_iter (a ∷ b ∷ c ∷ d ∷ e ∷ f ∷ rest) =
    (from_be (a ∷ b ∷ []), from_be (c ∷ d ∷ e ∷ f ∷ [])) ∷ settings_iter rest
settings_iter rest = []
