-- ===== src/Tsmp.antt =====
-- crates/tailscale-core/src/tsmp.rs: the ping that is recognised in a tunnel packet, and the pong that
-- answers it. `write_pong` returns the buffer after the call, and the bytes written.
mod Checksum
pub mod Answer
mod Tests
use lando.Prelude.{
  ℕ, zero, suc, ◌+◌, ◌-◌, ◌*◌, ◌/◌, ◌%◌, ◌^◌, bit_and, Bool, true, false, Option, none, some, List,
  [], ◌∷◌, ◌++◌, length, get_or, set, take, drop, replicate, ltb, ◌==◌, not, ◌||◌, if◌then◌else◌,
}
use lando.Prelude.Bytes.{Bytes, slice, copy_at, to_be, from_be}

abbrev pub ip_proto_tsmp : ℕ
ip_proto_tsmp = 99

abbrev pub type_ping : ℕ
type_ping = b'p'

abbrev pub type_pong : ℕ
type_pong = b'o'

abbrev pub ipv4_header_len : ℕ
ipv4_header_len = 20

abbrev pub pong_payload_len : ℕ
pong_payload_len = 11

pub record Ping : Type 0 where
  pub data_bytes : Bytes
  pub src : Bytes
  pub dst : Bytes

unfoldable pub parse_ping : Bytes → Option Ping
parse_ping packet =
    let ihl = bit_and (get_or packet 0 0) 0x0f * 4 in
    let payload = drop ihl packet in
    if ltb (length packet) ipv4_header_len
    then none
    else if not (get_or packet 0 0 / 2 ^ 4 == 4)
    then none
    else if ltb ihl ipv4_header_len || ltb (length packet) (ihl + 9)
    then none
    else if not (get_or packet 9 0 == ip_proto_tsmp)
    then none
    else if not (get_or payload 0 0 == type_ping)
    then none
    else some (record {
      data_bytes = slice payload 1 8;
      src = slice packet 12 4;
      dst = slice packet 16 4;
    })

-- The loop over the words, and the odd byte behind them. A `u32` does not overflow on fewer than 65537
-- words, and the header has ten.
unfoldable pub word_sum : ℕ → Bytes → ℕ
word_sum sum [] = sum
word_sum sum (a ∷ []) = sum + a * 2 ^ 8
word_sum sum (a ∷ b ∷ header) = word_sum (sum + from_be (a ∷ b ∷ [])) header

-- `while sum >> 16 != 0`, with a round of fuel for each round that a `u32` can need, and one more.
unfoldable pub fold_carries : ℕ → ℕ → ℕ
fold_carries zero sum = sum
fold_carries (suc fuel) sum =
    let rest = fold_carries fuel (bit_and sum 0xffff + sum / 2 ^ 16) in
    if sum / 2 ^ 16 == 0 then sum else rest

unfoldable pub checksum : Bytes → ℕ
unfolding word_sum fold_carries
checksum header = 0xffff - fold_carries 3 (word_sum 0 header) % 2 ^ 16

abbrev pub total : ℕ
total = ipv4_header_len + pong_payload_len

-- The header before its checksum.
unfoldable pub write_ip_header : Ping → Bytes → Bytes
write_ip_header ping out =
    let out = copy_at out 0 (replicate total 0) in
    let out = set out 0 0x45 in
    let out = copy_at out 2 (to_be 2 total) in
    let out = set out 8 64 in
    let out = set out 9 ip_proto_tsmp in copy_at (copy_at out 12 ping.dst) 16 ping.src

unfoldable pub write_pong : Ping → Bytes → Bytes × Option ℕ
unfolding write_ip_header checksum
write_pong ping out =
    let out1 = write_ip_header ping out in
    let out2 = copy_at out1 10 (to_be 2 (checksum (take ipv4_header_len out1))) in
    let out3 = set out2 ipv4_header_len type_pong in
    if ltb (length out) total
    then (out, none)
    else (copy_at out3 (ipv4_header_len + 1) ping.data_bytes, some total)
