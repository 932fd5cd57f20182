-- ===== src/Upgrade/Base64.antt =====
-- Base64 against the decoder of RFC 4648.
use lando.Prelude.{
  ℕ, ◌+◌, ◌-◌, ◌*◌, ◌/◌, ◌%◌, ◌^◌, ◌≤◌, ◌<◌, ◌≡◌, refl, sym, ap, ap₂, ◌∙◌, inl, inr, Bool, true,
  false, Bool-cases, ◌&&◌, Option, none, some, Option-cases, [], ◌∷◌, ◌++◌, length, take, drop,
  over, append-nil, append_assoc, length-append, take-append_self, get_or, ltb, leb, ◌==◌, ==_iff,
  not, if◌then◌else◌, ok, err, arith, All,
}
use lando.Prelude.Checks.{all_below, both, all_below_lem}
use lando.Prelude.Bytes.{Bytes, IsByte, copy_at-over, from_be}
use lando.Upgrade.{b64, letter, chunk_text, encode_loop, base64_encode, short_buffer}

-- The text of a message, chunk by chunk.
unfoldable pub encoded : Bytes → Bytes
encoded [] = []
encoded (a ∷ []) = chunk_text (a ∷ [])
encoded (a ∷ b ∷ []) = chunk_text (a ∷ b ∷ [])
encoded (a ∷ b ∷ c ∷ input) = chunk_text (a ∷ b ∷ c ∷ []) ++ encoded input

-- The value of a letter, by the table of RFC 4648.
unfoldable pub value : ℕ → Option ℕ
value c =
    if leb b'A' c && leb c b'Z'
    then some (c - b'A')
    else if leb b'a' c && leb c b'z'
    then some (c - b'a' + 26)
    else if leb b'0' c && leb c b'9'
    then some (c - b'0' + 52)
    else if c == b'+'
    then some 62
    else if c == b'/'
    then some 63
    else none

-- Whether the letter of a number has that number's value, and is no padding.
abbrev is_value : Option ℕ → ℕ → Bool
is_value none n = false
is_value (some v) n = v == n

abbrev is_read : ℕ → Bool
is_read n = is_value (value (letter n)) n && not (letter n == b'=')

all_read : all_below is_read 64 ≡ true
unfolding letter value all_below
all_read = refl

is_read_lem :
    (n : ℕ) → is_read n ≡ true → (value (letter n) ≡ some n) × ((letter n == b'=') ≡ false)
is_read_lem n e =
    let (good, plain) = both (is_value (value (letter n)) n) (not (letter n == b'=')) e in
    elim (Option-cases (value (letter n))) [
      | inl f ↦ absurd (grind (arith, sym (ap (λ o. is_value o n) f) ∙ good))
      | inr (v, f) ↦ (
        f ∙ ap some ((==_iff v n).0 (sym (ap (λ o. is_value o n) f) ∙ good)),
        elim (Bool-cases (letter n == b'=')) [
          | inl g ↦ absurd (grind (arith, sym (ap not g) ∙ plain))
          | inr g ↦ g
        ],
      )
    ]

letter-value : (n : ℕ) → (value (letter n) ≡ some (n % 64)) × ((letter n == b'=') ≡ false)
unfolding letter
letter-value n =
    let twice : n % 64 % 64 ≡ n % 64 = omega arith in
    let is : letter (n % 64) ≡ letter n = ap (λ k. get_or b64 k 0) twice in
    let (good, plain) =
      is_read_lem (n % 64) (all_below_lem is_read 64 (n % 64) all_read (omega arith)) in
    (ap value (sym is) ∙ good, ap (λ k. k == b'=') (sym is) ∙ plain)

-- The bytes of four letters, by RFC 4648.
unfoldable pub quad : ℕ → ℕ → ℕ → ℕ → Option Bytes
quad a b c d = elim (value a) [
  | none ↦ none
  | some u ↦ elim (value b) [
    | none ↦ none
    | some v ↦
        if c == b'='
        then if d == b'=' then some ((u * 4 + v / 16) ∷ []) else none
        else elim (value c) [
          | none ↦ none
          | some w ↦
              if d == b'='
              then some ((u * 4 + v / 16) ∷ (v % 16 * 16 + w / 4) ∷ [])
              else elim (value d) [
                | none ↦ none
                | some x ↦ some ((u * 4 + v / 16) ∷ (v % 16 * 16 + w / 4) ∷ (w % 4 * 64 + x) ∷ [])
              ]
        ]
  ]
]

quad-one :
    (a n : ℕ)
    → a < 256
    → n ≡ a * 65536
    → quad (letter (n / 2 ^ 18)) (letter (n / 2 ^ 12)) b'=' b'=' ≡ some (a ∷ [])
unfolding quad
quad-one a n h is =
    rw (quad, (letter-value (n / 2 ^ 18)).0)
      (rw (letter-value (n / 2 ^ 12)).0 (ap (λ t. some (t ∷ [])) (omega arith)))

quad-two :
    (a b n : ℕ)
    → a < 256
    → b < 256
    → n ≡ (a * 256 + b) * 256
    → quad (letter (n / 2 ^ 18)) (letter (n / 2 ^ 12)) (letter (n / 2 ^ 6)) b'=' ≡ some (a ∷ b ∷ [])
unfolding quad
quad-two a b n h k is =
    let (w, plain) = letter-value (n / 2 ^ 6) in
    rw (quad, (letter-value (n / 2 ^ 18)).0)
      (rw (letter-value (n / 2 ^ 12)).0
        (rw plain (rw w (ap₂ (λ s t. some (s ∷ t ∷ [])) (omega arith) (omega arith)))))

quad-three :
    (a b c n : ℕ)
    → a < 256
    → b < 256
    → c < 256
    → n ≡ (a * 256 + b) * 256 + c
    → quad (letter (n / 2 ^ 18)) (letter (n / 2 ^ 12)) (letter (n / 2 ^ 6)) (letter n)
      ≡ some (a ∷ b ∷ c ∷ [])
unfolding quad
quad-three a b c n h k l is =
    let (w, plain) = letter-value (n / 2 ^ 6) in
    let (x, plain') = letter-value n in
    rw (quad, (letter-value (n / 2 ^ 18)).0)
      (rw (letter-value (n / 2 ^ 12)).0 (
        rw plain (
          rw w (
            rw plain' (
              rw x (
                ap₂ (λ s t. some (s ∷ t)) (omega arith)
                  (ap₂ (λ s t. s ∷ t ∷ []) (omega arith) (omega arith))))))))

abbrev joined_with : Option Bytes → Option Bytes → Option Bytes
joined_with none _ = none
joined_with (some bytes) none = none
joined_with (some bytes) (some rest) = some (bytes ++ rest)

-- Base64 text back to bytes.
unfoldable pub decode : Bytes → Option Bytes
decode [] = some []
decode (a ∷ []) = none
decode (a ∷ b ∷ []) = none
decode (a ∷ b ∷ c ∷ []) = none
decode (a ∷ b ∷ c ∷ d ∷ text) = joined_with (quad a b c d) (decode text)

decode-encoded : (input : Bytes) → All IsByte input → decode (encoded input) ≡ some input
unfolding decode encoded chunk_text
decode-encoded [] h = refl
decode-encoded (a ∷ []) h =
    ap (λ q. joined_with q (some [])) (quad-one a (from_be (a ∷ 0 ∷ 0 ∷ [])) h.0 (omega arith))
decode-encoded (a ∷ b ∷ []) h =
    ap (λ q. joined_with q (some []))
      (quad-two a b (from_be (a ∷ b ∷ 0 ∷ [])) h.0 h.1.0 (omega arith))
decode-encoded (a ∷ b ∷ c ∷ input) h =
    ap (λ q. joined_with q (decode (encoded input)))
      (quad-three a b c (from_be (a ∷ b ∷ c ∷ [])) h.0 h.1.0 h.1.1.0 (omega arith))
    ∙ ap (joined_with (some (a ∷ b ∷ c ∷ []))) (decode-encoded input h.1.1.1)

pub length-encoded : (input : Bytes) → length (encoded input) ≡ (length input + 2) / 3 * 4
unfolding encoded chunk_text
length-encoded [] = refl
length-encoded (a ∷ []) = refl
length-encoded (a ∷ b ∷ []) = refl
length-encoded (a ∷ b ∷ c ∷ input) = omega (arith, length-encoded input)

length-chunk_text : (chunk : Bytes) → length (chunk_text chunk) ≡ 4
unfolding chunk_text
length-chunk_text chunk = refl

-- The loop writes the text behind what is in front.
encode_loop_lem :
    (input front out : Bytes)
    → encode_loop input (length front) (over front out) ≡ over (front ++ encoded input) out
unfolding encode_loop encoded
encode_loop_lem [] front out = ap (λ f. over f out) (sym (append-nil front))
encode_loop_lem (a ∷ []) front out =
    copy_at-over front (chunk_text (a ∷ [])) out (length front) refl
encode_loop_lem (a ∷ b ∷ []) front out =
    copy_at-over front (chunk_text (a ∷ b ∷ [])) out (length front) refl
encode_loop_lem (a ∷ b ∷ c ∷ input) front out =
    let text = chunk_text (a ∷ b ∷ c ∷ []) in
    ap (encode_loop input (length front + 4)) (copy_at-over front text out (length front) refl)
    ∙ ap (λ (k : ℕ). encode_loop input k (over (front ++ text) out))
        (omega (arith, length-append front text, length-chunk_text (a ∷ b ∷ c ∷ [])))
    ∙ encode_loop_lem input (front ++ text) out
    ∙ ap (λ f. over f out) (append_assoc front text (encoded input))

-- What `base64_encode` leaves, and its result.
pub base64_encode_lem :
    (input out : Bytes)
    → base64_encode input out ≡ (
        if leb (length (encoded input)) (length out)
        then (over (encoded input) out, ok (length (encoded input)))
        else (out, err short_buffer))
unfolding base64_encode
base64_encode_lem input out =
    let size = length-encoded input in
    elim (Bool-cases (leb (length (encoded input)) (length out))) [
      | inl e ↦
          let room : ltb (length out) ((length input + 2) / 3 * 4) ≡ false = ground arith in
          rw (room, e) (ap₂ (λ b n. (b, ok n)) (encode_loop_lem input [] out) (sym size))
      | inr e ↦
          let full : ltb (length out) ((length input + 2) / 3 * 4) ≡ true = ground arith in
          rw (full, e) refl
    ]

-- Into a buffer with room for four letters for every three bytes begun, `base64_encode` writes just that
-- many, and a decoder of RFC 4648 gets the bytes back from them.
pub base64_encode-decode :
    (input out : Bytes)
    → All IsByte input
    → (length input + 2) / 3 * 4 ≤ length out
    → ((base64_encode input out).1 ≡ ok ((length input + 2) / 3 * 4))
      × (decode (take ((length input + 2) / 3 * 4) (base64_encode input out).0) ≡ some input)
base64_encode-decode input out bytes room =
    let size = length-encoded input in
    let enough : leb (length (encoded input)) (length out) ≡ true = ground arith in
    let done = base64_encode_lem input out ∙ rw enough refl in
    (
      ap (λ r. r.1) done ∙ ap ok size,
      ap (λ r. decode (take ((length input + 2) / 3 * 4) r.0)) done
          ∙ ap decode
              (take-append_self (encoded input) (drop (length (encoded input)) out) _ (sym size))
          ∙ decode-encoded input bytes,
    )
