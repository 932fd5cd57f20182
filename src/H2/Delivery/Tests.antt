-- ===== src/H2/Delivery/Tests.antt =====
-- Frames at concrete inputs.
use lando.Prelude.{◌+◌, ◌%◌, ◌^◌, ◌≡◌, true, some, ◌++◌, replicate, length, drop, arith}
use lando.Prelude.Bytes.{Bytes, codes}
use lando.H2.Reader.{FrameReader, new_reader, feed, body, decoded}
use lando.H2.Writer.{literal, data_frame, settings, settings_iter, entries, new_writer}
use lando.H2.Writer.Emits.{wrote}
use lando.H2.Writer.Frames.{data_header, settings_header, settings_lem}
use lando.H2.Writer.Integers.{decode_literal, literal_lem}
use lando.H2.Delivery.{Ready, new_reader-Ready, data_frame-feed}

data_frame-feed_example :
    (frame : Bytes) × (r' : FrameReader) × (data_frame 3
        (codes "{}")
        true
        (new_writer (replicate 64 0))
      ≡ wrote frame (replicate 64 0))
    × (feed new_reader (frame ++ codes "tail")
        ≡ some (
          r',
          9 + length (codes "{}"),
          some (body (data_header 3 (codes "{}") true) (codes "{}") true),
        ))
    × (r'.pending_window ≡ (0 + length (codes "{}")) % 2 ^ 32)
    × Ready r'
data_frame-feed_example =
    data_frame-feed new_reader 3 (codes "{}") (codes "tail") (replicate 64 0) true new_reader-Ready
      (omega arith) (omega arith) (omega arith)

settings_lem_run :
    (frame : Bytes) × (settings 65535 16384 (new_writer (replicate 64 0))
      ≡ wrote frame (replicate 64 0))
    × (decoded frame ≡ settings_header)
    × (length (drop 9 frame) ≡ settings_header.length_field)
    × (settings_iter (drop 9 frame) ≡ entries 65535 16384)
settings_lem_run = settings_lem 65535 16384 (replicate 64 0) (omega arith) (omega arith)

literal_lem_run :
    (text : Bytes) × (literal 4 (codes "/machine/map") (new_writer (replicate 64 0))
      ≡ wrote text (replicate 64 0))
    × (decode_literal (text ++ codes "x") ≡ (4, codes "/machine/map", codes "x"))
literal_lem_run =
    literal_lem 4 (codes "/machine/map") (codes "x") (replicate 64 0) (omega arith) (omega arith)
