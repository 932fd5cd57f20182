-- ===== src/Upgrade/Responses.antt =====
-- The response to the upgrade request.
use lando.Prelude.{
  ℕ, ◌+◌, ◌≤◌, ◌<◌, ◌≡◌, refl, sym, ap, ◌∙◌, inl, inr, Bool-cases, some, Option-cases, [], ◌∷◌,
  ◌++◌, length, take, ◌==◌, arith, length-take, take-append_le, false,
}
use lando.Prelude.Bytes.{Bytes, eq_bytes, eq_bytes→≡}
use lando.Upgrade.{
  window_position, find_headers_end, position, shifted, blank_line, check_status, parse_line,
  parse_ended, parse_response,
}

position-append :
    (byte : ℕ) (buf more : Bytes) {i : ℕ}
    → position byte buf ≡ some i
    → (position byte (buf ++ more) ≡ some i) × (i < length buf)
unfolding position
position-append byte [] more e = absurd (grind arith)
position-append byte (b ∷ buf) more {i} e = elim (Option-cases (position byte buf)) [
  | inl n ↦ ground arith
  | inr (j, f) ↦ let (g, below) = position-append byte buf more f in ground arith
]

window_position-append :
    (buf more : Bytes) {i : ℕ}
    → window_position buf ≡ some i
    → (window_position (buf ++ more) ≡ some i) × (i + 4 ≤ length buf)
unfolding window_position
window_position-append [] more e = absurd (grind arith)
window_position-append (b ∷ buf) more {i} e =
    elim (Bool-cases (eq_bytes (take 4 (b ∷ buf)) blank_line)) [
      | inl here ↦
          let is = eq_bytes→≡ (take 4 (b ∷ buf)) blank_line here in
          let long : 4 ≤ length (b ∷ buf) = omega (arith, length-take 4 (b ∷ buf), ap length is) in
          let same = take-append_le (b ∷ buf) more 4 long in
          let test = ap (λ t. eq_bytes t blank_line) same ∙ here in ground arith
      | inr not_here ↦ elim (Option-cases (window_position buf)) [
        | inl n ↦ ground arith
        | inr (j, f) ↦
            let (g, below) = window_position-append buf more f in
            let same = take-append_le (b ∷ buf) more 4 (omega arith) in
            let test = ap (λ t. eq_bytes t blank_line) same ∙ not_here in ground arith
      ]
    ]

find_headers_end-append :
    (buf more : Bytes) {end : ℕ}
    → find_headers_end buf ≡ some end
    → (find_headers_end (buf ++ more) ≡ some end) × (end ≤ length buf)
unfolding find_headers_end
find_headers_end-append buf more e = elim (Option-cases (window_position buf)) [
  | inl n ↦ ground arith
  | inr (j, f) ↦ let (g, below) = window_position-append buf more f in ground arith
]

other_start :
    (b : ℕ) (buf : Bytes) → (b == b'\r') ≡ false → eq_bytes (take 4 (b ∷ buf)) blank_line ≡ false
unfolding eq_bytes
other_start b buf e = rw e refl

position-window_position :
    (buf : Bytes) {i : ℕ} → window_position buf ≡ some i → (k : ℕ) × (position b'\r' buf ≡ some k)
unfolding window_position position
position-window_position [] e = absurd (grind arith)
position-window_position (b ∷ buf) {i} e = elim (Bool-cases (b == b'\r')) [
  | inl here ↦ (0, rw here refl)
  | inr not_here ↦ elim (Option-cases (window_position buf)) [
    | inl n ↦ absurd (let test = other_start b buf not_here in grind arith)
    | inr (j, f) ↦
        let (k, g) = position-window_position buf f in (k + 1, rw not_here (ap (shifted 1) g))
  ]
]

line_end :
    (buf : Bytes) {end : ℕ}
    → find_headers_end buf ≡ some end
    → (k : ℕ) × (position b'\r' buf ≡ some k)
unfolding find_headers_end
line_end buf e = elim (Option-cases (window_position buf)) [
  | inl n ↦ absurd (grind arith)
  | inr (j, f) ↦ position-window_position buf f
]

-- Once the headers of a response are complete, bytes that follow change nothing of what is read from
-- it, and the headers end within the bytes that had arrived.
pub parse_response-append :
    (buf more : Bytes) {end : ℕ}
    → find_headers_end buf ≡ some end
    → (parse_response (buf ++ more) ≡ parse_response buf) × (end ≤ length buf)
unfolding parse_response parse_ended parse_line
parse_response-append buf more {end} e =
    let (later, below) = find_headers_end-append buf more e in
    let (k, at) = line_end buf e in
    let (at', inside) = position-append b'\r' buf more at in
    let same = take-append_le buf more k (omega arith) in
    (
      ap (parse_ended (buf ++ more)) later
          ∙ ap (parse_line (buf ++ more) end) at'
          ∙ ap (λ status. check_status status end (position b' ' status)) same
          ∙ sym (ap (parse_ended buf) e ∙ ap (parse_line buf end) at),
      below,
    )
