-- ===== src/Wireguard/Timestamp.antt =====
-- `Tai64n` of crates/tailscale-core/src/wireguard/mod.rs: twelve bytes, compared as bytes.
-- The sum `EPOCH + seconds` wraps at `2 ^ 64`.
pub mod Order
mod Tests
use lando.Prelude.{ℕ, ◌+◌, ◌*◌, ◌%◌, ◌^◌, Bool, ◌++◌}
use lando.Prelude.Bytes.{Bytes, to_be, lex_lt}

-- `Tai64n::EPOCH`: 2^62 and ten leap seconds.
abbrev pub epoch : ℕ
epoch = 0x4000_0000_0000_000A

abbrev pub Tai64n : Type 0
Tai64n = Bytes

unfoldable pub from_unix : ℕ → ℕ → Tai64n
from_unix seconds nanos = to_be 8 ((epoch + seconds) % 2 ^ 64) ++ to_be 4 nanos

unfoldable pub from_counter : ℕ → Tai64n
unfolding from_unix
from_counter counter = from_unix counter 0

-- `self.0 > previous.0`
unfoldable pub is_newer_than : Tai64n → Tai64n → Bool
unfolding lex_lt
is_newer_than self previous = lex_lt previous self
