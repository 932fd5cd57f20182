-- ===== src/Key/Hex.antt =====
-- Hexadecimal digits: what `write` puts down for a byte is what `parse_hex` reads.
use lando.Prelude.{
  ℕ, zero, suc, ◌+◌, ◌*◌, ◌/◌, ◌%◌, ◌<◌, ◌≤◌, ◌≡◌, refl, sym, ap, ◌∙◌, Bool, true, false, [], ◌∷◌,
  ◌++◌, append_assoc, append-nil, All, length, get_or, set, ◌==◌, if◌then◌else◌, ==_iff, Result, ok,
  err, ◌>>=◌, bit_or, arith, set-over, over, length-append,
}
use lando.Prelude.Bytes.{Bytes, IsByte}
use lando.Key.{KeyError, nibble, hex_digits, parse_pairs, write_pairs}

abbrev pub hex_of : Bytes → Bytes
hex_of [] = []
hex_of (b ∷ bs) = get_or hex_digits (b / 16) 0 ∷ get_or hex_digits (b % 16) 0 ∷ hex_of bs

pub length-hex_of : (bs : Bytes) → length (hex_of bs) ≡ length bs * 2
length-hex_of [] = omega arith
length-hex_of (b ∷ bs) = omega (arith, length-hex_of bs)

-- A test that every number up to a bound passes, by evaluation.
passes_lt : (ℕ → Bool) → ℕ → Bool
passes_lt test zero = true
passes_lt test (suc m) = if test m then passes_lt test m else false

passes_at : (test : ℕ → Bool) (m v : ℕ) → v < m → passes_lt test m ≡ true → test v ≡ true
unfolding passes_lt
passes_at test zero v below all = absurd (omega arith)
passes_at test (suc m) v below all = ground (arith, passes_at test m v)

reads : Result KeyError ℕ → ℕ → Bool
reads (ok v) n = v == n
reads (err e) n = false

reads_ok : (r : Result KeyError ℕ) (n : ℕ) → reads r n ≡ true → r ≡ ok n
unfolding reads
reads_ok (ok v) n h = ap ok ((==_iff v n).0 h)
reads_ok (err e) n h = cc

digit_table : passes_lt (λ n. reads (nibble (get_or hex_digits n 0)) n) 16 ≡ true
unfolding passes_lt reads nibble
digit_table = refl

pub nibble-digit : (n : ℕ) → n < 16 → nibble (get_or hex_digits n 0) ≡ ok n
nibble-digit n h =
    reads_ok (nibble (get_or hex_digits n 0)) n
      (passes_at (λ k. reads (nibble (get_or hex_digits k 0)) k) 16 n h digit_table)

join_table : passes_lt (λ b. bit_or ((b / 16) * 16) (b % 16) == b) 256 ≡ true
unfolding passes_lt
join_table = refl

pub bit_or-halves : (b : ℕ) → b < 256 → bit_or ((b / 16) * 16) (b % 16) ≡ b
bit_or-halves b h =
    (==_iff (bit_or ((b / 16) * 16) (b % 16)) b).0
      (passes_at (λ k. bit_or ((k / 16) * 16) (k % 16) == k) 256 b h join_table)

pub parse_pairs-hex_of : (bs : Bytes) → All IsByte bs → parse_pairs (hex_of bs) ≡ ok bs
unfolding parse_pairs
parse_pairs-hex_of [] h = refl
parse_pairs-hex_of (b ∷ bs) (hb, h) =
    rw (nibble-digit (b / 16) (omega arith), ◌>>=◌)
      (rw (nibble-digit (b % 16) (omega arith), ◌>>=◌)
        (rw (parse_pairs-hex_of bs h, ◌>>=◌) (ap (λ x. ok (x ∷ bs)) (bit_or-halves b hb))))

pub write_pairs-over :
    (at : ℕ) (bs front out : Bytes)
    → at ≡ length front
    → at + length bs * 2 ≤ length out
    → write_pairs at bs (over front out) ≡ over (front ++ hex_of bs) out
unfolding write_pairs
write_pairs-over at [] front out e h = ap (λ p. over p out) (sym (append-nil front))
write_pairs-over at (b ∷ bs) front out e h =
    let hi = get_or hex_digits (b / 16) 0 in
    let lo = get_or hex_digits (b % 16) 0 in
    ap (λ x. write_pairs (at + 2) bs (set x (at + 1) lo)) (set-over front out at hi e (omega arith))
    ∙ ap (write_pairs (at + 2) bs) (
        set-over (front ++ hi ∷ []) out (at + 1) lo (omega (arith, length-append front (hi ∷ [])))
          (omega arith))
    ∙ write_pairs-over (at + 2) bs ((front ++ hi ∷ []) ++ lo ∷ []) out
        (omega (arith, length-append front (hi ∷ []), length-append (front ++ hi ∷ []) (lo ∷ [])))
        (omega arith)
    ∙ ap (λ p. over p out)
        (append_assoc (front ++ hi ∷ []) (lo ∷ []) (hex_of bs)
          ∙ append_assoc front (hi ∷ []) (lo ∷ hex_of bs))
