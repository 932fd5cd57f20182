-- ===== src/Control/Frames/Early.antt =====
-- `parse_early_payload`, on what has arrived so far of a stream that starts with a payload.
use lando.Prelude.{
  ℕ, zero, suc, ◌+◌, ◌<◌, ◌≤◌, ◌^◌, ◌≡◌, ap, ap₂, refl, ◌∙◌, true, false, not, [], ◌∷◌, ◌++◌,
  length, take, ltb, min, length-take, length-append, if◌then◌else◌, Bool-cases, inl, inr, ◌-◌,
  arith,
}
use lando.Prelude.Bytes.{Bytes, slice, eq_bytes, to_be, from_be, from_be-to_be}
use lando.Control.Frames.{
  EarlyPayload, absent, incomplete, present, early_payload_magic, parse_early_payload,
}

-- The payload as the server frames it.
abbrev pub framed_early : Bytes → Bytes
framed_early json = early_payload_magic ++ (to_be 4 (length json) ++ json)

measure : ℕ → ℕ → Bytes → EarlyPayload
measure len have body = if ltb have (9 + len) then incomplete else present (9 + len) (take len body)

-- The parser with the number of bytes to compare and the length as arguments.
parsed : ℕ → ℕ → Bytes → EarlyPayload
parsed common have buf =
    let len = from_be (slice buf 5 4) in
    if not (eq_bytes (take common buf) (take common early_payload_magic))
    then absent
    else if ltb have 9
    then incomplete
    else if ltb have (9 + len)
    then incomplete
    else present (9 + len) (slice buf 9 len)

parsed-whole :
    (have v : ℕ) (body : Bytes)
    → ltb have 9 ≡ false
    → parsed 5 have (early_payload_magic ++ (to_be 4 v ++ body))
      ≡ measure (from_be (to_be 4 v)) have body
unfolding parsed measure eq_bytes
parsed-whole have v body e = rw e refl

parse-whole :
    (v : ℕ) (body : Bytes)
    → v < 256 ^ 4
    → parse_early_payload (early_payload_magic ++ (to_be 4 v ++ body))
      ≡ measure v (9 + length body) body
unfolding parse_early_payload parsed
parse-whole v body h =
    let buf = early_payload_magic ++ (to_be 4 v ++ body) in
    ap₂ (λ common have. parsed common have buf) {x = min (length buf) 5} {y = 5} {u = length buf}
      {v = 9 + length body} (omega arith) (omega arith)
    ∙ parsed-whole (9 + length body) v body (ground arith)
    ∙ ap (λ len. measure len (9 + length body) body) (from_be-to_be 4 v h)

parse-short :
    (n v : ℕ) (body : Bytes)
    → n < 9
    → parse_early_payload (take n (early_payload_magic ++ (to_be 4 v ++ body))) ≡ incomplete
unfolding parse_early_payload eq_bytes
parse-short zero v body h = refl
parse-short (suc zero) v body h = refl
parse-short (suc (suc zero)) v body h = refl
parse-short (suc (suc (suc zero))) v body h = refl
parse-short (suc (suc (suc (suc zero)))) v body h = refl
parse-short (suc (suc (suc (suc (suc zero))))) v body h = refl
parse-short (suc (suc (suc (suc (suc (suc zero)))))) v body h = refl
parse-short (suc (suc (suc (suc (suc (suc (suc zero))))))) v body h = refl
parse-short (suc (suc (suc (suc (suc (suc (suc (suc zero)))))))) v body h = refl
parse-short (suc (suc (suc (suc (suc (suc (suc (suc (suc n))))))))) v body h = absurd (omega arith)

taken_early :
    (m n : ℕ) (json rest : Bytes)
    → n ≡ 9 + m
    → take n (framed_early json ++ rest)
      ≡ early_payload_magic ++ (to_be 4 (length json) ++ take m (json ++ rest))
taken_early m n json rest e =
    ap (λ k. take k (framed_early json ++ rest))
      {y = suc (suc (suc (suc (suc (suc (suc (suc (suc m))))))))} (omega arith)

take-front : (xs ys : Bytes) (m : ℕ) → length xs ≤ m → take (length xs) (take m (xs ++ ys)) ≡ xs
take-front [] ys m h = refl
take-front (x ∷ xs) ys zero h = absurd (omega arith)
take-front (x ∷ xs) ys (suc m) h = ap (λ t. x ∷ t) (take-front xs ys m (omega arith))

parse-rest :
    (m n : ℕ) (json rest : Bytes)
    → n ≡ 9 + m
    → length json < 2 ^ 32
    → parse_early_payload (take n (framed_early json ++ rest))
      ≡ (if ltb n (9 + length json) then incomplete else present (9 + length json) json)
unfolding measure
parse-rest m n json rest e h =
    ap parse_early_payload (taken_early m n json rest e)
    ∙ parse-whole (length json) (take m (json ++ rest)) (omega arith)
    ∙ elim (Bool-cases (ltb n (9 + length json))) [
      | inl more ↦
          let short : ltb (9 + length (take m (json ++ rest))) (9 + length json) ≡ true =
            ground (arith, length-take m (json ++ rest), length-append json rest) in
          rw (more, short) refl
      | inr whole ↦
          let long : ltb (9 + length (take m (json ++ rest))) (9 + length json) ≡ false =
            ground (arith, length-take m (json ++ rest), length-append json rest) in
          rw (whole, long) (ap (present (9 + length json)) (take-front json rest m (ground arith)))
    ]

-- Whatever has arrived of a stream that starts with a framed payload, the parser asks for more until the
-- payload is there, and then says where it ends and gives its JSON, whatever follows.
pub parse_early_payload-take :
    (json rest : Bytes) (n : ℕ)
    → length json < 2 ^ 32
    → parse_early_payload (take n (framed_early json ++ rest))
      ≡ (if ltb n (9 + length json) then incomplete else present (9 + length json) json)
parse_early_payload-take json rest n h = elim (Bool-cases (ltb n 9)) [
  | inl short ↦
      let more : ltb n (9 + length json) ≡ true = ground arith in
      rw more (parse-short n (length json) (json ++ rest) (ground arith))
  | inr whole ↦ parse-rest (n - 9) n json rest (ground arith) h
]
