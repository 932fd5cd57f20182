-- ===== src/Derp/Frame/Reads.antt =====
-- A frame that arrives whole is read as it was written.
use lando.Prelude.{
  ℕ, ◌+◌, ◌-◌, ◌^◌, ◌<◌, ◌≤◌, ◌≡◌, refl, sym, ap, subst, ◌∙◌, true, false, Option, some, [], ◌∷◌,
  ◌++◌, length, length-take, take, drop, take-append_self, take_all, over, ltb, ◌==◌, if◌then◌else◌,
  ok, err, arith, dec_lt, ℕ_discrete, Bool-cases, inl, inr,
}
use lando.Prelude.Bytes.{Bytes, copy_at, to_be, from_be, from_be-to_be, copy_at-over}
use lando.Derp.Frame.{
  FrameType, to_u8, from_u8, is_control, as_slice, Frame, control, body, State, header, buffering,
  streaming, draining, FrameReader, new_reader, frame_too_large, Answer, more, done, control_frame,
  decode_header, feed_loop, feed, control_frame_max, max_frame_len, write_header,
}
use lando.Derp.Frame.Total.{Answers, feed_total, feed_loop-done, feed_loop-more, new_reader-IsValid}
use lando.Derp.Frame.Rounds.{
  frame_header, frame_bytes, Shows, Ready, after_header, header-round, decode_lem, input,
  stream_round, capture_round, fill_round, drain_round,
}

-- What reading a frame has come to.
record Read (r : FrameReader) (kind : FrameType) (payload : Bytes) (answer : Option Answer)
    : Type 0 where
  reader : FrameReader
  frame : Frame
  answers : answer ≡ some (reader, ok (5 + length payload, some frame))
  shows : Shows kind payload frame
  at_header : reader.state ≡ header
  empty : reader.header_have ≡ 0

nil-of-length : (xs : Bytes) → length xs ≡ 0 → xs ≡ []
nil-of-length [] h = refl
nil-of-length (x ∷ xs) h = absurd (omega arith)

as_slice-copy_at :
    (buf payload : Bytes) (n : ℕ)
    → n ≡ length payload
    → as_slice (record { buf = copy_at buf 0 payload; len = n }) ≡ payload
unfolding as_slice
as_slice-copy_at buf payload n e = take-append_self payload (drop (0 + length payload) buf) n e

module _ (r : FrameReader) (v : Ready r) (kind : FrameType) (payload rest : Bytes)
    (small : length payload ≤ max_frame_len) where
  -- The reader when the payload starts.
  abbrev begun : State → FrameReader
  begun s = record (after_header r kind (length payload)) { state = s }

  begun_loop :
      (s : State)
      → 0 < length payload
      → (if is_control kind then buffering else streaming) ≡ s
      → feed r (input kind payload rest) ≡ feed_loop 3 (begun s) (input kind payload rest) 5
  unfolding feed
  begun_loop s some_left in_state =
      feed_loop-more 3 header r (input kind payload rest) 0 v.at_header (
        header-round r kind (length payload) (payload ++ rest) v
        ∙ decode_lem r kind (length payload) small
        ∙ (let e : (length payload == 0) ≡ false = ground arith in
            rw e (ap (λ t. more (begun t) 5) in_state)))

  feeds_empty : length payload ≡ 0 → Read r kind payload (feed r (input kind payload rest))
  unfolding feed as_slice
  feeds_empty none_left = record {
    reader = begun header;
    frame = control_frame (after_header r kind (length payload)) kind;
    answers = feed_loop-done 3 header r (input kind payload rest) 0 v.at_header (
        header-round r kind (length payload) (payload ++ rest) v
        ∙ decode_lem r kind (length payload) small
        ∙ (let e : (length payload == 0) ≡ true = ground arith in
            rw e (
              ap
                (λ n. done (
                  begun header,
                  ok (n, some (control_frame (after_header r kind (length payload)) kind)),
                ))
                (omega arith))));
    shows = (
      refl,
      ap (take 512) (sym (nil-of-length payload none_left)),
      inr (nil-of-length payload none_left),
    );
    at_header = refl;
    empty = refl;
  }

  feeds_stream :
      0 < length payload
      → is_control kind ≡ false
      → Read r kind payload (feed r (input kind payload rest))
  feeds_stream some_left streamed = record {
    reader = record (begun header) { remaining = 0; state = header };
    frame = body kind (length payload) payload true;
    answers =
        begun_loop streaming some_left (rw streamed)
        ∙ feed_loop-done 2 streaming (begun streaming) (input kind payload rest) 5 refl
            (stream_round kind payload rest (begun streaming) refl some_left);
    shows = (refl, refl, refl, refl, streamed);
    at_header = refl;
    empty = refl;
  }

  feeds_capture :
      0 < length payload
      → is_control kind ≡ true
      → length payload ≤ control_frame_max
      → Read r kind payload (feed r (input kind payload rest))
  feeds_capture some_left ctl fits = record {
    reader = record (begun header) {
      control_buf = copy_at r.control_buf 0 payload;
      control_len = length payload;
      remaining = 0;
      state = header;
    };
    frame = control kind (record { buf = copy_at r.control_buf 0 payload; len = length payload });
    answers =
        begun_loop buffering some_left (rw ctl)
        ∙ feed_loop-done 2 buffering (begun buffering) (input kind payload rest) 5 refl
            (capture_round kind payload rest (begun buffering) refl refl some_left fits);
    shows = (
      refl,
      as_slice-copy_at r.control_buf payload (length payload) refl
          ∙ sym (take_all payload 512 fits),
      inl ctl,
    );
    at_header = refl;
    empty = refl;
  }

  feeds_drain :
      is_control kind ≡ true
      → control_frame_max < length payload
      → Read r kind payload (feed r (input kind payload rest))
  feeds_drain ctl long =
      let filled : FrameReader = record (begun header) {
        control_buf = copy_at r.control_buf 0 (take 512 payload);
        control_len = 512;
        remaining = length payload - 512;
        state = draining;
      } in
      record {
        reader = record filled { remaining = 0; state = header };
        frame = control_frame filled kind;
        answers =
            begun_loop buffering (omega arith) (rw ctl)
            ∙ feed_loop-more 2 buffering (begun buffering) (input kind payload rest) 5 refl
                (fill_round kind payload rest (begun buffering) refl refl long)
            ∙ feed_loop-done 1 draining filled (input kind payload rest) 517 refl
                (drain_round kind payload rest filled refl long);
        shows = (
          refl,
          as_slice-copy_at r.control_buf (take 512 payload) 512
              (omega (arith, length-take 512 payload)),
          inl ctl,
        );
        at_header = refl;
        empty = refl;
      }

read_lem :
    (r : FrameReader) (kind : FrameType) (payload rest : Bytes)
    → Ready r
    → length payload ≤ max_frame_len
    → Read r kind payload (feed r (frame_bytes kind payload ++ rest))
read_lem r kind payload rest v small = elim (ℕ_discrete (length payload) 0) [
  | yes none_left ↦ feeds_empty r v kind payload rest small none_left
  | no ne ↦ elim (Bool-cases (is_control kind)) [
    | inr streamed ↦ feeds_stream r v kind payload rest small (omega arith) streamed
    | inl ctl ↦ elim (dec_lt control_frame_max (length payload)) [
      | yes long ↦ feeds_drain r v kind payload rest small ctl long
      | no fits ↦ feeds_capture r v kind payload rest small (omega arith) ctl (omega arith)
    ]
  ]
]

some_answer : {x y : Answer} → Option.some x ≡ some y → x ≡ y
some_answer e = cc

-- A reader between two frames that is fed a whole frame of at most 64 KiB, with anything behind it,
-- uses exactly the frame's bytes, returns its kind and payload (of a control frame the first 512
-- bytes), and is again between two frames.
pub feed-frame_bytes :
    (r : FrameReader) (kind : FrameType) (payload rest : Bytes)
    → Ready r
    → length payload ≤ max_frame_len
    → (r' : FrameReader) × (f : Frame) × (feed r (frame_bytes kind payload ++ rest)
        ≡ some (r', ok (5 + length payload, some f)))
      × Shows kind payload f
      × Ready r'
feed-frame_bytes r kind payload rest v small =
    let read = read_lem r kind payload rest v small in
    let (a, e, owes) = feed_total r (frame_bytes kind payload ++ rest) v.valid in
    let sound =
      subst (Answers (length (frame_bytes kind payload ++ rest)) 0)
        (some_answer (sym e ∙ read.answers)) owes in
    (
      read.reader,
      read.frame,
      read.answers,
      read.shows,
      record { valid = sound.0; at_header = read.at_header; empty = read.empty },
    )

-- A frame that claims more than 64 KiB is refused once its header is there, whatever follows.
pub feed_too_large :
    (r : FrameReader) (kind : FrameType) (len : ℕ) (rest : Bytes)
    → Ready r
    → max_frame_len < len
    → len < 2 ^ 32
    → (r' : FrameReader) × (feed r (frame_header kind len ++ rest) ≡ some (r', err frame_too_large))
unfolding feed decode_header
feed_too_large r kind len rest v large wide = (
  record r {
    header_buf = frame_header kind len;
    header_have = 0;
    kind = from_u8 (to_u8 kind);
    total = from_be (to_be 4 len);
  },
  feed_loop-done 3 header r (frame_header kind len ++ rest) 0 v.at_header (
      header-round r kind len rest v
      ∙ (let e : ltb max_frame_len (from_be (to_be 4 len)) ≡ true =
            ground (arith, from_be-to_be 4 len) in
          rw e)),
)

-- What `write_header` puts into a buffer with room for it is the header that `feed` expects.
pub write_header_lem :
    (out : Bytes) (kind : FrameType) (len : ℕ)
    → 5 ≤ length out
    → write_header out kind len ≡ (over (frame_header kind len) out, ok 5)
unfolding write_header
write_header_lem out kind len room = ground (
  arith,
  copy_at-over [] (to_u8 kind ∷ []) out 0 refl,
  copy_at-over (to_u8 kind ∷ []) (to_be 4 len) out 1 refl,
)

pub new_reader-Ready : Ready new_reader
new_reader-Ready = record { valid = new_reader-IsValid; at_header = refl; empty = refl }
