-- ===== src/Wireguard/Timestamp/Tests.antt =====
-- Timestamps at concrete inputs.
use lando.Prelude.{◌≡◌, refl, true, false, [], ◌∷◌, arith}
use lando.Wireguard.Timestamp.{from_unix, from_counter, is_newer_than}
use lando.Wireguard.Timestamp.Order.{is_newer_than-from_unix, is_newer_than-from_counter}

from_counter_run : from_counter 300 ≡ 0x40 ∷ 0 ∷ 0 ∷ 0 ∷ 0 ∷ 0 ∷ 1 ∷ 0x36 ∷ 0 ∷ 0 ∷ 0 ∷ 0 ∷ []
unfolding from_counter
from_counter_run = refl

is_newer_than-from_unix_run : is_newer_than (from_unix 7 5) (from_unix 7 9) ≡ false
is_newer_than-from_unix_run =
    is_newer_than-from_unix 7 9 7 5 (omega arith) (omega arith) (omega arith) (omega arith)

is_newer_than-from_counter_run : is_newer_than (from_counter 300) (from_counter 299) ≡ true
is_newer_than-from_counter_run = is_newer_than-from_counter 299 300 (omega arith) (omega arith)
