-- ===== src/Mdns.antt =====
-- The mDNS relay of crates/tailscale-core/src/mdns.rs. A message that a function rewrites in place
-- comes back beside the result; on an error it holds what was rewritten before. A `usize` is taken
-- to have 32 bits, as on the device.
pub mod Names
pub mod Questions
pub mod Restore
pub mod Relay
pub mod Wire
pub mod Requests
mod Tests
use lando.Prelude.{
  ℕ, zero, suc, ◌+◌, ◌-◌, ◌^◌, Bool, true, false, not, Option, none, some, List, length, get_elem?,
  get_or, set, ltb, leb, ◌==◌, if◌then◌else◌, Result, ok, err, bit_and, bit_or, ◌&&◌,
}
use lando.Prelude.Bytes.{Bytes, slice, from_be, to_be, copy_at}

abbrev pub header_len : ℕ
header_len = 12

abbrev pub qu_bit : ℕ
qu_bit = 0x80

abbrev pub usize_max : ℕ
usize_max = 2 ^ 32 - 1

pub data MdnsError : Type 0 where
  malformed : MdnsError

-- The loop of `skip_name`, one label for each round of fuel; `none` means that the fuel ran out.
pub skip_name_loop : ℕ → Bytes → ℕ → Option (Result MdnsError ℕ)
skip_name_loop zero msg pos = none
skip_name_loop (suc fuel) msg pos = elim (get_elem? msg pos) [
  | none ↦ some (err malformed)
  | some len ↦
      let next = skip_name_loop fuel msg (pos + 1 + len) in
      if not (bit_and len 0xc0 == 0)
      then some (err malformed)
      else if len == 0
      then some (ok (pos + 1))
      else if ltb usize_max (pos + 1 + len)
      then some (err malformed)
      else if ltb (length msg) (pos + 1 + len)
      then some (err malformed)
      else next
]

-- Every label takes a byte of the message at least.
unfoldable pub skip_name : Bytes → ℕ → Option (Result MdnsError ℕ)
unfolding skip_name_loop
skip_name msg pos = skip_name_loop (suc (length msg)) msg pos

-- The QU bit of one class byte.
abbrev pub write_qu : Bool → ℕ → ℕ
write_qu true b = bit_or b qu_bit
write_qu false b = bit_and b (0xff - qu_bit)

-- `for _ in 0..questions`, with the questions left: the message, and where the loop stopped.
unfoldable pub rewrite_from : ℕ → Bytes → ℕ → Bool → Bytes × Option (Result MdnsError ℕ)
rewrite_from zero msg pos on = (msg, some (ok pos))
rewrite_from (suc n) msg pos on = elim (skip_name msg pos) [
  | none ↦ (msg, none)
  | some (err e) ↦ (msg, some (err e))
  | some (ok at) ↦
      let class_at = at + 2 in
      let rest =
        rewrite_from n (set msg class_at (write_qu on (get_or msg class_at 0))) (class_at + 2) on in
      if ltb (length msg) (class_at + 2) then (msg, some (err malformed)) else rest
]

abbrev pub question_count : Bytes → ℕ
question_count msg = from_be (slice msg 4 2)

-- The count instead of the position.
abbrev pub count_as : ℕ → Option (Result MdnsError ℕ) → Option (Result MdnsError ℕ)
count_as n none = none
count_as n (some (ok pos)) = some (ok n)
count_as n (some (err e)) = some (err e)

unfoldable pub rewrite_question_class : Bytes → Bool → Bytes × Option (Result MdnsError ℕ)
unfolding rewrite_from
rewrite_question_class msg on =
    if ltb (length msg) header_len
    then (msg, some (err malformed))
    else let (msg', r) = rewrite_from (question_count msg) msg header_len on in
      (msg', count_as (question_count msg) r)

unfoldable pub request_unicast_replies : Bytes → Bytes × Option (Result MdnsError ℕ)
unfolding rewrite_question_class
request_unicast_replies msg = rewrite_question_class msg true

unfoldable pub restore_multicast_questions : Bytes → Bytes × Option (Result MdnsError ℕ)
unfolding rewrite_question_class
restore_multicast_questions msg = rewrite_question_class msg false

unfoldable pub is_response : Bytes → Bool
is_response msg = leb header_len (length msg) && not (bit_and (get_or msg 2 0) 0x80 == 0)

unfoldable pub transaction_id : Bytes → Option ℕ
transaction_id msg = if ltb (length msg) header_len then none else some (from_be (slice msg 0 2))

unfoldable pub set_transaction_id : Bytes → ℕ → Bytes
set_transaction_id msg id =
    let be = to_be 2 id in
    if leb header_len (length msg) then set (set msg 0 (get_or be 0 0)) 1 (get_or be 1 0) else msg
