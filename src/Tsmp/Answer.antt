-- ===== src/Tsmp/Answer.antt =====
-- The pong that answers a ping.
use lando.Prelude.{
  ℕ, ◌+◌, ◌≤◌, ◌≡◌, refl, ap, ◌∙◌, some, [], ◌∷◌, ◌++◌, All, length, take, drop, replicate, ltb,
  arith, false,
}
use lando.Prelude.Bytes.{Bytes, IsByte, to_be}
use lando.Tsmp.{word_sum, checksum, write_ip_header, write_pong}
use lando.Tsmp.Checksum.{sum_checksum, checksum-added, checksum-16}

-- The header of a pong between two addresses, with its checksum field.
abbrev pub pong_header : ℕ → Bytes → Bytes → Bytes
pong_header sum from to =
    (0x45 ∷ 0 ∷ 0 ∷ 31 ∷ 0 ∷ 0 ∷ 0 ∷ 0 ∷ 64 ∷ 99 ∷ []) ++ (to_be 2 sum ++ (from ++ to))

header_run :
    (a b c d e f g h : ℕ) (data_bytes out : Bytes)
    → take 20 (
        write_ip_header
          (record { data_bytes = data_bytes; src = a ∷ b ∷ c ∷ d ∷ []; dst = e ∷ f ∷ g ∷ h ∷ [] })
          out)
      ≡ pong_header 0 (e ∷ f ∷ g ∷ h ∷ []) (a ∷ b ∷ c ∷ d ∷ [])
unfolding write_ip_header
header_run a b c d e f g h data_bytes out = refl

verifies :
    (a b c d e f g h : ℕ)
    → All IsByte (a ∷ b ∷ c ∷ d ∷ e ∷ f ∷ g ∷ h ∷ [])
    → checksum (
        pong_header
          (checksum (pong_header 0 (e ∷ f ∷ g ∷ h ∷ []) (a ∷ b ∷ c ∷ d ∷ [])))
          (e ∷ f ∷ g ∷ h ∷ [])
          (a ∷ b ∷ c ∷ d ∷ []))
      ≡ 0
unfolding checksum word_sum
verifies a b c d e f g h bytes =
    let sum = word_sum 0 (pong_header 0 (e ∷ f ∷ g ∷ h ∷ []) (a ∷ b ∷ c ∷ d ∷ [])) in
    let small = checksum-16 sum in
    ap sum_checksum
      {x = word_sum 0 (pong_header (sum_checksum sum) (e ∷ f ∷ g ∷ h ∷ []) (a ∷ b ∷ c ∷ d ∷ []))}
      {y = sum + sum_checksum sum} (omega (arith, small))
    ∙ checksum-added sum (omega arith) (omega arith)

-- For a ping whose addresses are four bytes each, and a buffer of at least 31 bytes, the pong is 31 bytes
-- from the ping's destination to its source, its header's checksum verifies, and it echoes the ping's
-- eight bytes; the rest of the buffer is left as it was.
pub write_pong_lem :
    (a b c d e f g h : ℕ) (data_bytes out : Bytes)
    → All IsByte (a ∷ b ∷ c ∷ d ∷ e ∷ f ∷ g ∷ h ∷ [])
    → length data_bytes ≡ 8
    → 31 ≤ length out
    → (header : Bytes) × (sum : ℕ) × (write_pong
          (record { data_bytes = data_bytes; src = a ∷ b ∷ c ∷ d ∷ []; dst = e ∷ f ∷ g ∷ h ∷ [] })
          out
        ≡ (header ++ (b'o' ∷ (data_bytes ++ (0 ∷ 0 ∷ drop 31 out))), some 31))
      × (header ≡ pong_header sum (e ∷ f ∷ g ∷ h ∷ []) (a ∷ b ∷ c ∷ d ∷ []))
      × (checksum header ≡ 0)
unfolding write_pong write_ip_header
write_pong_lem a b c d e f g h data_bytes out bytes eight room =
    let sum = checksum (pong_header 0 (e ∷ f ∷ g ∷ h ∷ []) (a ∷ b ∷ c ∷ d ∷ [])) in
    let enough : ltb (length out) 31 ≡ false = ground arith in
    let header = pong_header sum (e ∷ f ∷ g ∷ h ∷ []) (a ∷ b ∷ c ∷ d ∷ []) in
    (
      header,
      sum,
      rw enough (
          ap
            (λ n. (
              header
                  ++ (b'o'
                      ∷ (data_bytes
                          ++ drop n (header ++ (b'o' ∷ (replicate 10 0 ++ drop 31 out))))),
              some 31,
            ))
            {x = 21 + length data_bytes} {y = 29} (omega arith)),
      refl,
      verifies a b c d e f g h bytes,
    )
