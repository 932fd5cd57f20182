-- ===== src/H2/Reader/Tests.antt =====
-- The reader of HTTP/2 frames at concrete inputs.
use lando.Prelude.{◌≡◌, some, ◌∷◌, length}
use lando.Prelude.Bytes.{Bytes, codes}
use lando.H2.Reader.{Answer, new_reader, feed}
use lando.H2.Reader.Rounds.{Answers, new_reader-IsValid}
use lando.H2.Reader.Loop.{feed_counts}

abbrev data_frame : Bytes
data_frame = 0 ∷ 0 ∷ 5 ∷ 0 ∷ 1 ∷ 0x80 ∷ 0 ∷ 0 ∷ 1 ∷ codes "hello"

feed_counts_example :
    (a : Answer) × (feed new_reader data_frame ≡ some a) × Answers 0 (length data_frame) 0 a
feed_counts_example = feed_counts new_reader data_frame new_reader-IsValid
