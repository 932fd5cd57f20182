-- ===== src/Noise/Record/Stream.antt =====
-- Records arrive as they were written, in order.
use lando.Prelude.{
  ℕ, ◌+◌, ◌-◌, ◌≤◌, ◌≡◌, refl, sym, ap, ap₂, ◌∙◌, false, Option, none, some, List, [], ◌∷◌, ◌++◌,
  append_assoc, length, take, drop, over, ltb, ◌==◌, if◌then◌else◌, length-append, take-append_self,
  drop-append_self, take-over, take_all, Result, ok, err, inl, inr, Option-cases, arith,
}
use lando.Prelude.Bytes.{Bytes, slice, copy_at, copy_at-over, to_be, from_be, from_be-to_be}
use lando.Crypto.{Aead, Laws}
use lando.Noise.{Session, NoiseError}
use lando.Noise.Record.{
  record_nonce, nonce_max, record_len, parse_header, place_record, write_record, read_record,
}

abbrev header : Bytes → Bytes
header plaintext = 4 ∷ to_be 2 (length plaintext + 16)

place_record-over :
    (plaintext out : Bytes) → place_record plaintext out ≡ over (header plaintext ++ plaintext) out
unfolding place_record
place_record-over plaintext out =
    ap (λ b. copy_at b 3 plaintext)
      (copy_at-over (4 ∷ []) (to_be 2 (length plaintext + 16)) out 1 refl)
    ∙ copy_at-over (header plaintext) plaintext out 3 refl

-- A part of a buffer's front is overwritten by one of the same length.
copy_at-same :
    (f p q out : Bytes) (n : ℕ)
    → n ≡ length f
    → length q ≡ length p
    → copy_at (over (f ++ p) out) n q ≡ over (f ++ q) out
copy_at-same f p q out n e k =
    let d = drop (length (f ++ p)) out in
    let before = length-append f p in
    let behind = length-append f q in
    ap₂ (λ a b. a ++ (q ++ b)) (ap (take n) (append_assoc f p d) ∙ take-append_self f (p ++ d) n e)
      (drop-append_self (f ++ p) d (n + length q) (omega (arith, before, behind))
        ∙ ap (λ i. drop i out) (omega (arith, before, behind)))
    ∙ sym (append_assoc f q (drop (length (f ++ q)) out))

-- The bytes of the record.
abbrev frame : Bytes → Bytes → Bytes → Bytes
frame plaintext body tag = header plaintext ++ (body ++ tag)

written :
    (plaintext body tag out : Bytes)
    → length body ≡ length plaintext
    → length tag ≡ 16
    → take
        (record_len plaintext)
        (copy_at (copy_at (place_record plaintext out) 3 body) (3 + length plaintext) tag)
      ≡ frame plaintext body tag
written plaintext body tag out h k =
    let hdr = header plaintext in
    ap (λ b. take (record_len plaintext) (copy_at (copy_at b 3 body) (3 + length plaintext) tag))
      (place_record-over plaintext out)
    ∙ ap (λ b. take (record_len plaintext) (copy_at b (3 + length plaintext) tag))
        (copy_at-same hdr plaintext body out 3 refl h)
    ∙ ap (take (record_len plaintext)) (
        copy_at-over (hdr ++ body) tag out (3 + length plaintext)
          (omega (arith, length-append hdr body)))
    ∙ take-over ((hdr ++ body) ++ tag) out (record_len plaintext)
        (omega (arith, length-append (hdr ++ body) tag, length-append hdr body))
    ∙ append_assoc hdr body tag

-- The reader is where the writer is.
abbrev pub InStep : Session → Session → Type 0
InStep s r = (r.rx ≡ s.tx) × (r.rx_nonce ≡ s.tx_nonce)

-- What a successful `write_record` has done.
record Wrote (aead : Aead) (s : Session) (plaintext : Bytes) (s' : Session) (out' : Bytes) (n : ℕ)
    : Type 0 where
  body : Bytes
  tag : Bytes
  encrypted : aead.encrypt s.tx (record_nonce s.tx_nonce) [] plaintext ≡ some (body, tag)
  body_size : length body ≡ length plaintext
  tag_size : length tag ≡ 16
  on_wire : take n out' ≡ frame plaintext body tag
  advanced : s' ≡ record s { tx_nonce = s.tx_nonce + 1 }
  length_is : n ≡ record_len plaintext
  small : length plaintext ≤ 4077
  open_nonce : (s.tx_nonce == nonce_max) ≡ false

module _ (aead : Aead) (laws : Laws aead) where
  write_record_ok :
      (s : Session) (plaintext out : Bytes) {s' : Session} {out' : Bytes} {n : ℕ}
      → write_record aead s plaintext out ≡ (s', out', ok n)
      → Wrote aead s plaintext s' out' n
  unfolding write_record
  write_record_ok s plaintext out {s'} {out'} {n} e =
      elim (Option-cases (aead.encrypt s.tx (record_nonce s.tx_nonce) [] plaintext)) [
        | inl fails ↦ ground arith
        | inr ((body, tag), sealed) ↦
            let size =
              laws.length-encrypt s.tx (record_nonce s.tx_nonce) [] plaintext body tag sealed in
            let tagged =
              laws.length-tag s.tx (record_nonce s.tx_nonce) [] plaintext body tag sealed in
            record {
              body = body;
              tag = tag;
              encrypted = sealed;
              body_size = size;
              tag_size = tagged;
              on_wire = ground (arith, written plaintext body tag out size tagged);
              advanced = ground arith;
              length_is = ground arith;
              small = ground arith;
              open_nonce = ground arith;
            }
      ]

  -- The reader on what was sealed where it is.
  read_record_lem :
      (s r : Session) (plaintext body tag : Bytes)
      → InStep s r
      → (s.tx_nonce == nonce_max) ≡ false
      → aead.encrypt s.tx (record_nonce s.tx_nonce) [] plaintext ≡ some (body, tag)
      → read_record aead r (body ++ tag)
        ≡ (record r { rx_nonce = r.rx_nonce + 1 }, ok (plaintext ++ tag, length plaintext))
  unfolding read_record
  read_record_lem s r plaintext body tag (same_key, same_nonce) room e =
      let size = laws.length-encrypt s.tx (record_nonce s.tx_nonce) [] plaintext body tag e in
      let tagged = laws.length-tag s.tx (record_nonce s.tx_nonce) [] plaintext body tag e in
      let whole = length-append body tag in
      let enough : ltb (length (body ++ tag)) 16 ≡ false = ground arith in
      let at : length (body ++ tag) - 16 ≡ length plaintext = omega arith in
      let front = take-append_self body tag (length (body ++ tag) - 16) (at ∙ sym size) in
      let back = drop-append_self body tag (length (body ++ tag) - 16) (at ∙ sym size) in
      let room' : (r.rx_nonce == nonce_max) ≡ false = ap (λ n. n == nonce_max) same_nonce ∙ room in
      let opened =
        ap₂
          (λ k n.
            aead.decrypt k (record_nonce n) [] (take (length (body ++ tag) - 16) (body ++ tag))
              (drop (length (body ++ tag) - 16) (body ++ tag)))
          same_key same_nonce
        ∙ ap₂ (aead.decrypt s.tx (record_nonce s.tx_nonce) []) front back
        ∙ laws.decrypt-encrypt s.tx (record_nonce s.tx_nonce) [] plaintext body tag e in
      rw (enough, room')
        (rw opened
          (ap₂ (λ t k. (record r { rx_nonce = r.rx_nonce + 1 }, ok (plaintext ++ t, k))) back at))

-- A frame as the connection takes it: the header, the body that it announces, and its plaintext.
abbrev pub plaintext_of : ℕ → Session × Result NoiseError (Bytes × ℕ) → Session × Option Bytes
plaintext_of kind (r, err e) = (r, none)
plaintext_of kind (r, ok (body, n)) = (r, if kind == 4 then some (take n body) else none)

unfoldable pub read_frame : Aead → Session → Bytes → Session × Option Bytes
unfolding read_record parse_header
read_frame aead r frame =
    let (kind, len) = parse_header (take 3 frame) in
    plaintext_of kind (read_record aead r (slice frame 3 len))

abbrev with_first : Bytes → Option (Session × List Bytes) → Option (Session × List Bytes)
with_first p none = none
with_first p (some (r, ps)) = some (r, p ∷ ps)

abbrev after_frame :
    (Session → Option (Session × List Bytes))
    → Session × Option Bytes
    → Option (Session × List Bytes)
after_frame go (r, none) = none
after_frame go (r, some p) = with_first p (go r)

-- The frames read in order, up to the first that fails.
unfoldable pub read_all : Aead → Session → List Bytes → Option (Session × List Bytes)
unfolding read_frame
read_all aead r [] = some (r, [])
read_all aead r (f ∷ fs) = after_frame (λ r1. read_all aead r1 fs) (read_frame aead r f)

-- A run of successful writes, each into a buffer of any contents: the session before, the plaintexts,
-- the frames and the session after.
pub data Writes (aead : Aead) : Session → List Bytes → List Bytes → Session → Type 0 where
  nothing : (s : Session) → Writes aead s [] [] s
  one :
      (s : Session) (p out : Bytes) (s1 : Session) (out1 : Bytes) (n : ℕ) (ps fs : List Bytes)
      (s2 : Session)
      → write_record aead s p out ≡ (s1, out1, ok n)
      → Writes aead s1 ps fs s2
      → Writes aead s (p ∷ ps) (take n out1 ∷ fs) s2

module _ (aead : Aead) (laws : Laws aead) where
  read_frame-frame :
      (s r : Session) (plaintext body tag : Bytes)
      → InStep s r
      → (s.tx_nonce == nonce_max) ≡ false
      → length plaintext ≤ 4077
      → aead.encrypt s.tx (record_nonce s.tx_nonce) [] plaintext ≡ some (body, tag)
      → read_frame aead r (frame plaintext body tag)
        ≡ (record r { rx_nonce = r.rx_nonce + 1 }, some plaintext)
  unfolding read_frame parse_header
  read_frame-frame s r plaintext body tag at room small e =
      let size = laws.length-encrypt s.tx (record_nonce s.tx_nonce) [] plaintext body tag e in
      let tagged = laws.length-tag s.tx (record_nonce s.tx_nonce) [] plaintext body tag e in
      let announced = from_be-to_be 2 (length plaintext + 16) (omega arith) in
      let whole : slice (frame plaintext body tag) 3 (from_be (to_be 2 (length plaintext + 16)))
          ≡ body ++ tag =
        ap (λ n. take n (body ++ tag)) (announced ∙ omega (arith, length-append body tag))
        ∙ take_all (body ++ tag) (length (body ++ tag)) (omega arith) in
      let done =
        ap (read_record aead r) whole
        ∙ read_record_lem aead laws s r plaintext body tag at room e in
      ap (plaintext_of 4) done
      ∙ ap (λ t. (record r { rx_nonce = r.rx_nonce + 1 }, some t))
          (take-append_self plaintext tag (length plaintext) refl)

  -- Every run of successful writes is read back: a session in step with the writer's reads the frames,
  -- in order, to the plaintexts that were written, and is in step again.
  pub read_all-Writes :
      (s r s' : Session) (ps fs : List Bytes)
      → Writes aead s ps fs s'
      → InStep s r
      → (r' : Session) × (read_all aead r fs ≡ some (r', ps)) × InStep s' r'
  unfolding read_all
  read_all-Writes s r s' ps fs (nothing _) at = (r, refl, at)
  read_all-Writes s r s' ps fs (one _ p out s1 out1 n ps' fs' _ e more) at =
      let w = write_record_ok aead laws s p out e in
      let r1 = record r { rx_nonce = r.rx_nonce + 1 } in
      let next : InStep s1 r1 = (
        at.0 ∙ sym (ap (λ x. x.tx) w.advanced),
        omega (arith, ap (λ x. x.tx_nonce) w.advanced, at.1),
      ) in
      let (r', rest, at') = read_all-Writes s1 r1 s' ps' fs' more next in
      (
        r',
        ap (λ f. after_frame (λ q. read_all aead q fs') (read_frame aead r f)) w.on_wire
            ∙ ap (after_frame (λ q. read_all aead q fs'))
                (read_frame-frame s r p w.body w.tag at w.open_nonce w.small w.encrypted)
            ∙ ap (with_first p) rest,
        at',
      )
