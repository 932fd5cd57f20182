-- ===== src/Derp/Handshake/Opens.antt =====
-- What one end of the relay's handshake seals, the other opens.
use lando.Prelude.{
  ℕ, ◌+◌, ◌≤◌, ◌≡◌, refl, sym, ap, ◌∙◌, true, false, some, [], ◌++◌, append_assoc, length, take,
  drop, over, replicate, ltb, if◌then◌else◌, length-append, length-over, take-append_self,
  drop-append_self, Result, ok, err, inl, inr, Option-cases, Bool-cases, arith,
}
use lando.Prelude.Bytes.{Bytes, codes, copy_at}
use lando.Prelude.Bytes.{copy_at-over}
use lando.Prelude.Copies.{copy_at-again, copy_at-before, drop-take_append}
use lando.Crypto.{Box, BoxLaws}
use lando.Prelude.Decimal.{decimal}
use lando.Json.Writer.{Writer, begin_object, field_u64, end_object}
use lando.Derp.Frame.{DerpError, short_buffer}
use lando.Derp.Handshake.{seal, open_, keyed, info_payload, write_info, client_info_payload}

-- A payload as it is on the wire.
abbrev pub payload_of : Bytes → Bytes → Bytes → Bytes
payload_of nonce tag cipher = nonce ++ (tag ++ cipher)

written :
    (nonce text cipher tag out : Bytes)
    → length nonce ≡ 24
    → length tag ≡ 16
    → length cipher ≡ length text
    → 40 + length text ≤ length out
    → take
        (40 + length text)
        (copy_at (copy_at (copy_at (copy_at out 0 nonce) 40 text) 40 cipher) 24 tag)
      ≡ payload_of nonce tag cipher
written nonce text cipher tag out hn ht hc room =
    let filled = length-over nonce out (omega arith) in
    let b = over nonce out in
    let rest = drop (40 + length cipher) b in
    let all =
      append_assoc nonce (tag ++ cipher) rest
      ∙ ap (λ t. nonce ++ t) (append_assoc tag cipher rest) in
    ap (λ b. take (40 + length text) (copy_at (copy_at (copy_at b 40 text) 40 cipher) 24 tag))
      (copy_at-over [] nonce out 0 refl)
    ∙ ap (λ b. take (40 + length text) (copy_at b 24 tag))
        (copy_at-again b text 40 (omega (arith, filled)) cipher hc)
    ∙ ap (take (40 + length text)) (
        copy_at-before nonce tag cipher out 24 40 (sym hn) (omega arith) (omega (arith, filled))
        ∙ sym all)
    ∙ take-append_self (payload_of nonce tag cipher) rest (40 + length text)
        (omega (arith, length-append nonce (tag ++ cipher), length-append tag cipher))

keyed_ok :
    (front : Bytes) (r : Bytes × Result DerpError ℕ) {out' : Bytes} {n : ℕ}
    → keyed front r ≡ (out', ok n)
    → (rest : Bytes) × (m : ℕ) × (r ≡ (rest, ok m)) × (out' ≡ front ++ rest) × (n ≡ 32 + m)
keyed_ok front (rest, ok m) e = (rest, m, refl, ground arith, ground arith)
keyed_ok front (rest, err x) e = ground arith

info_lem : (w : Writer) × (write_info ≡ ok w) × (take w.pos w.buf ≡ codes "{\"Version\":2}")
unfolding write_info begin_object field_u64 end_object decimal
info_lem = (
  record { buf = codes "{\"Version\":2}" ++ replicate 51 0; pos = 13; needs_comma = true },
  refl,
  refl,
)

info_payload_ok :
    (box : Box) (mine key peer nonce out : Bytes) (w : Writer) {out' : Bytes} {n : ℕ}
    → info_payload box mine key peer nonce out (ok w) ≡ (out', ok n)
    → (32 ≤ length out)
      × (keyed
            (take 32 (copy_at out 0 key))
            (seal box mine peer nonce (take w.pos w.buf) (drop 32 (copy_at out 0 key)))
          ≡ (out', ok n))
info_payload_ok box mine key peer nonce out w e = elim (Bool-cases (ltb (length out) 32)) [
  | inl short ↦ ground arith
  | inr room ↦ (
    ground arith,
    ap
          (λ b.
            if b
            then (out, err short_buffer)
            else keyed (take 32 (copy_at out 0 key))
                (seal box mine peer nonce (take w.pos w.buf) (drop 32 (copy_at out 0 key))))
          (sym room)
        ∙ e,
  )
]

module _ (box : Box) (laws : BoxLaws box) where
  -- What a successful `seal` has done.
  seal_ok :
      (mine peer nonce text out : Bytes) {out' : Bytes} {n : ℕ}
      → length nonce ≡ 24
      → seal box mine peer nonce text out ≡ (out', ok n)
      → (p : Bytes × Bytes) × (box.encrypt mine peer nonce text ≡ some p)
        × (take n out' ≡ payload_of nonce p.1 p.0)
        × (n ≡ 40 + length text)
  unfolding seal
  seal_ok mine peer nonce text out h e = elim (Option-cases (box.encrypt mine peer nonce text)) [
    | inl fails ↦ ground arith
    | inr ((cipher, tag), sealed) ↦
        let size = laws.length-encrypt mine peer nonce text cipher tag sealed in
        let tagged = laws.length-tag mine peer nonce text cipher tag sealed in
        (
          (cipher, tag),
          sealed,
          ground (arith, written nonce text cipher tag out h tagged size),
          ground arith,
        )
  ]

  open_lem :
      (mine theirs nonce text cipher tag : Bytes)
      → length nonce ≡ 24
      → box.encrypt mine (box.public theirs) nonce text ≡ some (cipher, tag)
      → open_ box theirs (box.public mine) (payload_of nonce tag cipher) ≡ ok text
  unfolding open_
  open_lem mine theirs nonce text cipher tag h e =
      let tagged = laws.length-tag mine (box.public theirs) nonce text cipher tag e in
      let whole = payload_of nonce tag cipher in
      let size = (length-append nonce (tag ++ cipher)) in
      let size' = length-append tag cipher in
      let enough : ltb (length whole) 40 ≡ false = ground arith in
      let n = take-append_self nonce (tag ++ cipher) 24 (sym h) in
      let t =
        ap (take 16) (drop-append_self nonce (tag ++ cipher) 24 (sym h))
        ∙ take-append_self tag cipher 16 (sym tagged) in
      let c =
        ap (drop 40) (sym (append_assoc nonce tag cipher))
        ∙ drop-append_self (nonce ++ tag) cipher 40 (omega (arith, length-append nonce tag)) in
      rw enough (rw (n, t, c) (rw (laws.decrypt-encrypt mine theirs nonce text cipher tag e) refl))

  -- What `seal` wrote into a buffer for the holder of a key, `open` gives back to that holder, who opens
  -- it with the sender's public key. The payload is the plaintext's length and 40.
  pub open-seal :
      (mine theirs nonce text out : Bytes) {out' : Bytes} {n : ℕ}
      → length nonce ≡ 24
      → seal box mine (box.public theirs) nonce text out ≡ (out', ok n)
      → (open_ box theirs (box.public mine) (take n out') ≡ ok text) × (n ≡ 40 + length text)
  open-seal mine theirs nonce text out h e =
      let (p, sealed, wire, size) = seal_ok mine (box.public theirs) nonce text out h e in
      (
        ap (open_ box theirs (box.public mine)) wire
            ∙ open_lem mine theirs nonce text p.0 p.1 h sealed,
        size,
      )

  -- The payload of ClientInfo: the client's public key, and behind it what the server opens to the JSON
  -- text of the protocol version.
  pub client_info_payload_lem :
      (mine theirs nonce out : Bytes) {out' : Bytes} {n : ℕ}
      → length nonce ≡ 24
      → client_info_payload box mine (box.public mine) (box.public theirs) nonce out ≡ (out', ok n)
      → (take 32 out' ≡ box.public mine)
        × (open_ box theirs (box.public mine) (drop 32 (take n out'))
            ≡ ok (codes "{\"Version\":2}"))
  unfolding client_info_payload
  client_info_payload_lem mine theirs nonce out {out'} {n} h e =
      let (w, says, text) = info_lem in
      let key = laws.length-public mine in
      let (room, ran) = info_payload_ok box mine (box.public mine) (box.public theirs) nonce out w (
        ap (info_payload box mine (box.public mine) (box.public theirs) nonce out) (sym says)
        ∙ e) in
      let (rest, m, sealed, is_out, is_n) = keyed_ok _ _ ran in
      let front : take 32 (copy_at out 0 (box.public mine)) ≡ box.public mine =
        ap (take 32) (copy_at-over [] (box.public mine) out 0 refl)
        ∙ take-append_self (box.public mine) _ 32 (sym key) in
      let whole : out' ≡ box.public mine ++ rest = is_out ∙ ap (λ f. f ++ rest) front in
      (
        ap (take 32) whole ∙ take-append_self (box.public mine) rest 32 (sym key),
        ap (λ o. open_ box theirs (box.public mine) (drop 32 (take n o))) whole
            ∙ ap (open_ box theirs (box.public mine))
                (drop-take_append (box.public mine) rest 32 m n (sym key) is_n)
            ∙ (open-seal mine theirs nonce (take w.pos w.buf) _ h sealed).0
            ∙ ap ok text,
      )
