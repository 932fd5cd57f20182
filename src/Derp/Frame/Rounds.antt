-- ===== src/Derp/Frame/Rounds.antt =====
-- The rounds of the reader's loop on a frame that arrives whole.
use lando.Prelude.{
  ℕ, ◌+◌, ◌-◌, ◌<◌, ◌≤◌, min, ◌≡◌, refl, ap₂, ◌⊎◌, true, false, some, [], ◌∷◌, ◌++◌, append-nil,
  length, length-append, take, take-append_self, take-append_le, drop_all, ◌==◌, if◌then◌else◌, ok,
  arith,
}
use lando.Prelude.Bytes.{Bytes, copy_at, to_be, from_be-to_be}
use lando.Derp.Frame.{
  FrameType, to_u8, from_u8, is_control, as_slice, Frame, control, body, header, buffering,
  streaming, draining, FrameReader, more, done, control_frame, decode_header, read_header,
  read_buffering, read_draining, read_streaming, round, control_frame_max, max_frame_len,
}
use lando.Derp.Frame.Total.{IsValid}

-- The five bytes that `write_header` writes.
abbrev pub frame_header : FrameType → ℕ → Bytes
frame_header kind len = to_u8 kind ∷ to_be 4 len

abbrev pub frame_bytes : FrameType → Bytes → Bytes
frame_bytes kind payload = frame_header kind (length payload) ++ payload

-- The frame that stands for a kind and a payload: small frames are captured whole, up to 512 bytes,
-- the others handed out as they are.
abbrev pub Shows : FrameType → Bytes → Frame → Type 0
Shows kind payload (control k p) =
    (k ≡ kind)
    × (as_slice p ≡ take control_frame_max payload)
    × ((is_control kind ≡ true) ⊎ (payload ≡ []))
Shows kind payload (body k n chunk end) =
    (k ≡ kind) × (n ≡ length payload) × (chunk ≡ payload) × (end ≡ true) × (is_control kind ≡ false)

-- Between two frames.
pub record Ready (r : FrameReader) : Type 0 where
  pub valid : IsValid r
  pub at_header : r.state ≡ header
  pub empty : r.header_have ≡ 0

pub from_u8-to_u8 : (kind : FrameType) → from_u8 (to_u8 kind) ≡ kind
unfolding from_u8 to_u8
from_u8-to_u8 FrameType.server_key = refl
from_u8-to_u8 kind = refl

-- The reader once a header has arrived.
abbrev pub after_header : FrameReader → FrameType → ℕ → FrameReader
after_header r kind len = record r {
  header_buf = frame_header kind len;
  header_have = 0;
  kind = kind;
  total = len;
  remaining = len;
  control_len = 0;
}

pub header-round :
    (r : FrameReader) (kind : FrameType) (len : ℕ) (rest : Bytes)
    → Ready r
    → round header r (frame_header kind len ++ rest) 0
      ≡ decode_header (record r { header_buf = frame_header kind len; header_have = 5 }) 5
unfolding round read_header
header-round r kind len rest v = ground (
  arith,
  v.empty,
  v.valid.header_size,
  drop_all r.header_buf 5,
  append-nil (frame_header kind len),
)

pub decode_lem :
    (r : FrameReader) (kind : FrameType) (len : ℕ)
    → len ≤ max_frame_len
    → decode_header (record r { header_buf = frame_header kind len; header_have = 5 }) 5 ≡ (
        if len == 0
        then done (
          record (after_header r kind len) { state = header },
          ok (5, some (control_frame (after_header r kind len) kind)),
        )
        else more
            (record (after_header r kind len) {
              state = if is_control kind then buffering else streaming;
            })
            5)
unfolding decode_header
decode_lem r kind len small =
    rw (from_u8-to_u8 kind, from_be-to_be 4 len (omega arith)) (ground arith)

module _ (kind : FrameType) (payload rest : Bytes) where
  abbrev pub input : Bytes
  input = frame_header kind (length payload) ++ (payload ++ rest)

  length-input : length input ≡ 5 + (length payload + length rest)
  length-input = omega (arith, length-append payload rest)

  pub stream_round :
      (r : FrameReader)
      → r.remaining ≡ length payload
      → 0 < length payload
      → round streaming r input 5
        ≡ done (
          record r { remaining = 0; state = header },
          ok (5 + length payload, some (body r.kind r.total payload true)),
        )
  unfolding round read_streaming
  stream_round r all some_left =
      ground
        (arith, length-input, take-append_self payload rest (min r.remaining (length input - 5)))

  -- A control payload that fits is captured in one round.
  pub capture_round :
      (r : FrameReader)
      → r.remaining ≡ length payload
      → r.control_len ≡ 0
      → 0 < length payload
      → length payload ≤ control_frame_max
      → round buffering r input 5
        ≡ done (
          record r {
            control_buf = copy_at r.control_buf 0 payload;
            control_len = length payload;
            remaining = 0;
            state = header;
          },
          ok (
            5 + length payload,
            some (
                control r.kind
                  (record { buf = copy_at r.control_buf 0 payload; len = length payload })),
          ),
        )
  unfolding round read_buffering
  capture_round r all fresh some_left fits = ground (
    arith,
    length-input,
    take-append_self payload rest
        (min (min r.remaining (length input - 5)) (control_frame_max - r.control_len)),
  )

  -- Of a longer one the first 512 bytes are captured, and the rest is drained.
  pub fill_round :
      (r : FrameReader)
      → r.remaining ≡ length payload
      → r.control_len ≡ 0
      → control_frame_max < length payload
      → round buffering r input 5
        ≡ more
            (record r {
              control_buf = copy_at r.control_buf 0 (take 512 payload);
              control_len = 512;
              remaining = length payload - 512;
              state = draining;
            })
            517
  unfolding round read_buffering
  fill_round r all fresh long =
      let n_is : min (min r.remaining (length input - 5)) (control_frame_max - r.control_len)
          ≡ 512 =
        omega (arith, length-input) in
      let nonempty : (length input - 5 == 0) ≡ false = ground (arith, length-input) in
      let unfinished : (r.remaining - 512 == 0) ≡ false = ground arith in
      let full : (r.control_len + 512 == 512) ≡ true = ground arith in
      rw (nonempty, n_is, unfinished, full)
        (ap₂
          (λ (bytes : Bytes) (k : ℕ × ℕ).
            more
              (record r {
                control_buf = copy_at r.control_buf k.0 bytes;
                control_len = k.0 + 512;
                remaining = k.1 - 512;
                state = draining;
              })
              517)
          (take-append_le payload rest 512 (omega arith)) (ap₂ (λ (a b : ℕ). (a, b)) fresh all))

  pub drain_round :
      (r : FrameReader)
      → r.remaining ≡ length payload - 512
      → 512 < length payload
      → round draining r input 517
        ≡ done (
          record r { remaining = 0; state = header },
          ok (5 + length payload, some (control_frame r r.kind)),
        )
  unfolding round read_draining
  drain_round r left long = ground (arith, length-input)
