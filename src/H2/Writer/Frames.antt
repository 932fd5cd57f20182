-- ===== src/H2/Writer/Frames.antt =====
-- The frames that the writer writes are frames: their headers are decoded to what was meant.
use lando.Prelude.{
  ℕ, ◌*◌, ◌^◌, ◌<◌, ◌≡◌, refl, ap, ap₂, ◌∙◌, Bool, bit_and, List, [], ◌∷◌, ◌++◌, All, length, drop,
  if◌then◌else◌, arith,
}
use lando.Prelude.Bytes.{Bytes, to_be, from_be-to_be}
use lando.H2.{FrameHeader, data_type, settings_type, end_stream_flag}
use lando.H2.Reader.{decoded}
use lando.Prelude.Bits.{bit_and-mask}
use lando.H2.Writer.{
  ◌>>◌, put, frame_header, put_settings, settings_iter, entries, settings, data_frame, new_writer,
}
use lando.H2.Writer.Emits.{wrote, Emits, put-Emits, >>-Emits, ok-Emits}

-- The nine bytes of a header.
abbrev pub header_bytes : FrameHeader → Bytes
header_bytes h = (drop 1 (to_be 4 h.length_field) ++ (h.kind ∷ h.flags ∷ [])) ++ to_be 4 h.stream_id

pub frame_header-Emits :
    (length_field kind flags stream_id : ℕ)
    → Emits (frame_header length_field kind flags stream_id) (
        header_bytes (record {
          length_field = length_field;
          kind = kind;
          flags = flags;
          stream_id = stream_id;
        }))
unfolding frame_header
frame_header-Emits length_field kind flags stream_id =
    let front = drop 1 (to_be 4 length_field) ++ (kind ∷ flags ∷ []) in
    >>-Emits (put front) (put (to_be 4 stream_id)) front (to_be 4 stream_id) (put-Emits front)
      (put-Emits (to_be 4 stream_id))

-- Lengths of 24 bits and streams of 31.
abbrev pub Fits : FrameHeader → Type 0
Fits h = (h.length_field < 2 ^ 24) × (h.stream_id < 2 ^ 31)

pub decoded-header_bytes :
    (h : FrameHeader) (rest : Bytes) → Fits h → decoded (header_bytes h ++ rest) ≡ h
unfolding decoded
decoded-header_bytes h rest fits =
    let stream = ap (λ n. bit_and n 0x7fffffff) (from_be-to_be 4 h.stream_id (omega arith)) in
    ap₂ (λ (l s : ℕ). record { length_field = l; kind = h.kind; flags = h.flags; stream_id = s })
      (omega arith) (stream ∙ bit_and-mask 31 h.stream_id 0x7fffffff (omega arith) (omega arith))

abbrev settings_bytes : List (ℕ × ℕ) → Bytes
settings_bytes [] = []
settings_bytes ((id, value) ∷ es) = to_be 2 id ++ (to_be 4 value ++ settings_bytes es)

put_settings-Emits : (es : List (ℕ × ℕ)) → Emits (put_settings es) (settings_bytes es)
unfolding put_settings
put_settings-Emits [] = ok-Emits
put_settings-Emits ((id, value) ∷ es) =
    >>-Emits (put (to_be 2 id)) (put (to_be 4 value) >> put_settings es) (to_be 2 id)
      (to_be 4 value ++ settings_bytes es) (put-Emits (to_be 2 id))
      (>>-Emits (put (to_be 4 value)) (put_settings es) (to_be 4 value) (settings_bytes es)
        (put-Emits (to_be 4 value)) (put_settings-Emits es))

settings_iter-settings_bytes :
    (es : List (ℕ × ℕ))
    → All (λ e. (e.0 < 2 ^ 16) × (e.1 < 2 ^ 32)) es
    → settings_iter (settings_bytes es) ≡ es
unfolding settings_iter
settings_iter-settings_bytes [] h = refl
settings_iter-settings_bytes ((id, value) ∷ es) h =
    ap₂ (λ e s. e ∷ s)
      (ap₂ (λ (a b : ℕ). (a, b)) (from_be-to_be 2 id (omega (arith, h.0)))
        (from_be-to_be 4 value (omega (arith, h.0))))
      (settings_iter-settings_bytes es h.1)

abbrev pub settings_header : FrameHeader
settings_header = record { length_field = 4 * 6; kind = settings_type; flags = 0; stream_id = 0 }

-- The SETTINGS frame for values that fit a `u32`, written into a buffer that it fits, starts with a header
-- that the reader decodes to SETTINGS on stream 0 with the length of the rest, and `settings_iter` of the
-- rest gives the four settings, in order. Into a smaller buffer the write is refused.
pub settings_lem :
    (initial_window max_frame : ℕ) (out : Bytes)
    → initial_window < 2 ^ 32
    → max_frame < 2 ^ 32
    → (frame : Bytes) × (settings initial_window max_frame (new_writer out) ≡ wrote frame out)
      × (decoded frame ≡ settings_header)
      × (length (drop 9 frame) ≡ settings_header.length_field)
      × (settings_iter (drop 9 frame) ≡ entries initial_window max_frame)
unfolding settings
settings_lem initial_window max_frame out h k =
    let es = entries initial_window max_frame in
    let frame = header_bytes settings_header ++ settings_bytes es in
    (
      frame,
      >>-Emits (frame_header (4 * 6) settings_type 0 0) (put_settings es)
          (header_bytes settings_header) (settings_bytes es)
          (frame_header-Emits (4 * 6) settings_type 0 0) (put_settings-Emits es) [] out
          (omega arith),
      decoded-header_bytes settings_header (settings_bytes es) (omega arith),
      refl,
      settings_iter-settings_bytes es (omega arith),
    )

abbrev pub data_header : ℕ → Bytes → Bool → FrameHeader
data_header stream_id payload end_stream = record {
  length_field = length payload;
  kind = data_type;
  flags = if end_stream then end_stream_flag else 0;
  stream_id = stream_id;
}

pub data_frame-Emits :
    (stream_id : ℕ) (payload : Bytes) (end_stream : Bool)
    → Emits
        (data_frame stream_id payload end_stream)
        (header_bytes (data_header stream_id payload end_stream) ++ payload)
unfolding data_frame
data_frame-Emits stream_id payload end_stream =
    let h = data_header stream_id payload end_stream in
    >>-Emits (frame_header h.length_field h.kind h.flags stream_id) (put payload) (header_bytes h)
      payload (frame_header-Emits h.length_field h.kind h.flags stream_id) (put-Emits payload)
