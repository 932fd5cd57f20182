-- ===== src/Derp/Frame/Tests.antt =====
-- The frame reader at concrete inputs.
use lando.Prelude.{◌≡◌, refl, true, some, [], ◌∷◌, ◌++◌, length, replicate, ok, err, arith}
use lando.Prelude.Bytes.{Bytes}
use lando.Derp.Frame.{
  FrameReader, new_reader, Answer, Frame, ping, send_packet, body, feed, feed_loop, round,
  read_header, decode_header, read_streaming, from_u8, to_u8, is_control, write_header,
  frame_too_large,
}
use lando.Derp.Frame.Total.{Answers, feed_total, new_reader-IsValid}
use lando.Derp.Frame.Rounds.{frame_header, frame_bytes, Shows, Ready}
use lando.Derp.Frame.Reads.{feed-frame_bytes, feed_too_large, write_header_lem, new_reader-Ready}

abbrev greeting : Bytes
greeting = b'h' ∷ b'i' ∷ []

-- The header in one read, and the payload in another.
abbrev reader_after : FrameReader
reader_after = record new_reader {
  header_buf = frame_header send_packet 2;
  kind = send_packet;
  total = 2;
}

split_read :
    feed new_reader (frame_bytes send_packet greeting)
    ≡ some (reader_after, ok (7, some (body send_packet 2 greeting true)))
unfolding feed feed_loop round read_header decode_header from_u8 is_control read_streaming to_u8
split_read = refl

feed_total_example :
    (a : Answer) × (feed new_reader greeting ≡ some a) × Answers (length greeting) 0 a
feed_total_example = feed_total new_reader greeting new_reader-IsValid

feed-frame_bytes_example :
    (r' : FrameReader) × (f : Frame) × (feed new_reader (frame_bytes ping greeting ++ (9 ∷ []))
      ≡ some (r', ok (7, some f)))
    × Shows ping greeting f
    × Ready r'
feed-frame_bytes_example =
    feed-frame_bytes new_reader ping greeting (9 ∷ []) new_reader-Ready (omega arith)

feed_too_large_run :
    (r' : FrameReader) × (feed new_reader (frame_header ping 70_000 ++ greeting)
      ≡ some (r', err frame_too_large))
feed_too_large_run =
    feed_too_large new_reader ping 70_000 greeting new_reader-Ready (omega arith) (omega arith)

write_header_lem_example :
    write_header (replicate 6 1) ping 2 ≡ (0x12 ∷ 0 ∷ 0 ∷ 0 ∷ 2 ∷ 1 ∷ [], ok 5)
unfolding to_u8
write_header_lem_example = write_header_lem (replicate 6 1) ping 2 (omega arith)
