-- ===== src/H2/Delivery.antt =====
-- What the writer writes as DATA, the reader hands out.
mod Tests
use lando.Prelude.{
  ℕ, zero, suc, ◌+◌, ◌-◌, ◌%◌, ◌^◌, ◌<◌, ◌≤◌, min, ◌≡◌, refl, sym, ap, ap₂, ◌∙◌, Bool, true, false,
  some, [], ◌∷◌, ◌++◌, append-nil, append_assoc, length, length-append, take, drop,
  take-append_self, drop_all, ltb, ◌==◌, if◌then◌else◌, arith,
}
use lando.Prelude.Bytes.{Bytes, slice, copy_at}
use lando.H2.{FrameHeader}
use lando.H2.Reader.{
  at_header, streaming, new_reader, body, FrameReader, Answer, more, done, decoded, begin_with,
  begin_frame, read_header, read_streaming, round, feed,
}
use lando.H2.Reader.Rounds.{IsValid, new_reader-IsValid}
use lando.H2.Reader.Loop.{feed_loop-done, feed_loop-more}
use lando.H2.Writer.{data_frame, new_writer}
use lando.H2.Writer.Emits.{wrote}
use lando.H2.Writer.Frames.{header_bytes, decoded-header_bytes, Fits, data_header, data_frame-Emits}

-- Between two frames.
pub record Ready (r : FrameReader) : Type 0 where
  pub valid : IsValid r
  pub fresh : r.state ≡ at_header
  pub empty : r.header_have ≡ 0

header-round :
    (r : FrameReader) (h : FrameHeader) (rest : Bytes)
    → Ready r
    → round at_header r (header_bytes h ++ rest) 0
      ≡ begin_frame (record r { header_buf = header_bytes h; header_have = 9 }) 9
unfolding round read_header
header-round r h rest v =
    ground
      (arith, v.empty, v.valid.header_size, drop_all r.header_buf 9, append-nil (header_bytes h))

-- The reader once the header of a DATA frame is there.
abbrev begun : FrameReader → FrameHeader → FrameReader
begun r h = record r {
  header_buf = header_bytes h;
  header_have = 0;
  current = h;
  remaining = h.length_field;
  control_len = 0;
  state = streaming;
}

begin_lem :
    (r : FrameReader) (stream_id : ℕ) (payload : Bytes) (e : Bool)
    → Fits (data_header stream_id payload e)
    → 0 < length payload
    → begin_frame
        (record r { header_buf = header_bytes (data_header stream_id payload e); header_have = 9 })
        9
      ≡ more (begun r (data_header stream_id payload e)) 9
unfolding begin_frame
begin_lem r stream_id payload e fits some_left =
    let h = data_header stream_id payload e in
    let nonempty : (length payload == 0) ≡ false = ground arith in
    ap (λ d. begin_with d (record r { header_buf = header_bytes h; header_have = 9 }) 9)
      (decoded-header_bytes h [] fits)
    ∙ rw nonempty refl

stream-round :
    (r : FrameReader) (h : FrameHeader) (payload rest : Bytes)
    → 0 < length payload
    → h.length_field ≡ length payload
    → h.kind ≡ 0
    → round streaming (begun r h) (header_bytes h ++ (payload ++ rest)) 9
      ≡ done (
        record (begun r h) {
          remaining = 0;
          state = at_header;
          pending_window = (r.pending_window + length payload) % 2 ^ 32;
        },
        9 + length payload,
        some (body h payload true),
      )
unfolding round read_streaming
stream-round r h payload rest some_left size kind =
    let input = header_bytes h ++ (payload ++ rest) in
    let n_is : min h.length_field (length input - 9) ≡ length payload =
      omega (arith, length-append payload rest) in
    let nonempty : (length input - 9 == 0) ≡ false = ground (arith, length-append payload rest) in
    let over_now : (h.length_field - length payload == 0) ≡ true = ground arith in
    let none_left : h.length_field - length payload ≡ 0 = omega arith in
    let data_kind : (h.kind == 0) ≡ true = ground arith in
    rw (nonempty, n_is, over_now, data_kind)
      (ap₂
        (λ (left : ℕ) (chunk : Bytes). done (
          record (begun r h) {
            remaining = left;
            state = at_header;
            pending_window = (r.pending_window + length payload) % 2 ^ 32;
          },
          9 + length payload,
          some (body h chunk true),
        ))
        none_left (take-append_self payload rest (length payload) refl))

-- A reader between two frames that is fed what the writer writes for a payload as DATA, with anything
-- behind it, uses exactly the frame and hands out its payload whole under the header that was meant,
-- adds its length to the pending window modulo `2 ^ 32`, and is between two frames again. The stream is
-- of 31 bits and the payload of at least one byte and of less than `2 ^ 24`; the write is refused where
-- the frame does not fit the buffer.
pub data_frame-feed :
    (r : FrameReader) (stream_id : ℕ) (payload rest out : Bytes) (e : Bool)
    → Ready r
    → stream_id < 2 ^ 31
    → 0 < length payload
    → length payload < 2 ^ 24
    → (frame : Bytes) × (r' : FrameReader) × (data_frame stream_id payload e (new_writer out)
        ≡ wrote frame out)
      × (feed r (frame ++ rest)
          ≡ some
              (r', 9 + length payload, some (body (data_header stream_id payload e) payload true)))
      × (r'.pending_window ≡ (r.pending_window + length payload) % 2 ^ 32)
      × Ready r'
unfolding feed
data_frame-feed r stream_id payload rest out e v hs some_left hl =
    let h = data_header stream_id payload e in
    let r' : FrameReader = record (begun r h) {
      remaining = 0;
      state = at_header;
      pending_window = (r.pending_window + length payload) % 2 ^ 32;
    } in
    (
      header_bytes h ++ payload,
      r',
      data_frame-Emits stream_id payload e [] out (omega arith),
      feed_loop-more 3 r (header_bytes h ++ (payload ++ rest)) 0 (
            ap (λ s. round s r (header_bytes h ++ (payload ++ rest)) 0) v.fresh
            ∙ header-round r h (payload ++ rest) v
            ∙ begin_lem r stream_id payload e (omega arith) some_left)
          ∙ feed_loop-done 2 (begun r h) (header_bytes h ++ (payload ++ rest)) 9
              (stream-round r h payload rest some_left refl refl),
      refl,
      record {
        valid = record {
          header_size = refl;
          header_room = omega arith;
          control_size = v.valid.control_size;
          control_room = omega arith;
          window = omega arith;
          pending = tt;
        };
        fresh = refl;
        empty = refl;
      },
    )

pub new_reader-Ready : Ready new_reader
new_reader-Ready = record { valid = new_reader-IsValid; fresh = refl; empty = refl }
