-- ===== src/Wireguard/Timestamp/Order.antt =====
-- Timestamps order as the counters, or the seconds and nanoseconds, that they are made from.
use lando.Prelude.{
  ℕ, ◌+◌, ◌*◌, ◌%◌, ◌^◌, ◌<◌, ◌≡◌, refl, sym, ap₂, ◌∙◌, ◌&&◌, ◌||◌, length, All, ltb, ◌==◌, arith,
}
use lando.Prelude.Bytes.{
  IsByte, to_be, from_be, to_be-IsByte, from_be-to_be, lex_lt-from_be, from_be-append,
  append-IsByte,
}
use lando.Wireguard.Timestamp.{epoch, from_unix, from_counter, is_newer_than}

-- The twelve bytes as one number.
value-from_unix :
    (seconds nanos : ℕ)
    → epoch + seconds < 2 ^ 64
    → nanos < 2 ^ 32
    → from_be (from_unix seconds nanos) ≡ (epoch + seconds) * 2 ^ 32 + nanos
unfolding from_unix
value-from_unix seconds nanos hs hn =
    from_be-append (to_be 8 ((epoch + seconds) % 2 ^ 64)) (to_be 4 nanos)
    ∙ ap₂ (λ s n. s * 2 ^ 32 + n)
        (from_be-to_be 8 ((epoch + seconds) % 2 ^ 64) (omega arith) ∙ omega arith)
        (from_be-to_be 4 nanos hn)

length-from_unix : (seconds nanos : ℕ) → length (from_unix seconds nanos) ≡ 12
unfolding from_unix
length-from_unix seconds nanos = refl

from_unix-IsByte : (seconds nanos : ℕ) → All IsByte (from_unix seconds nanos)
unfolding from_unix
from_unix-IsByte seconds nanos =
    append-IsByte (to_be 8 ((epoch + seconds) % 2 ^ 64)) (to_be 4 nanos)
      (to_be-IsByte 8 ((epoch + seconds) % 2 ^ 64)) (to_be-IsByte 4 nanos)

-- A timestamp is newer exactly when its seconds, or at equal seconds its nanoseconds, are greater,
-- where the seconds stay below 2^64 past the epoch and the nanoseconds fit 32 bits.
pub is_newer_than-from_unix :
    (s n s' n' : ℕ)
    → epoch + s < 2 ^ 64
    → epoch + s' < 2 ^ 64
    → n < 2 ^ 32
    → n' < 2 ^ 32
    → is_newer_than (from_unix s' n') (from_unix s n) ≡ (ltb s s' || (s == s' && ltb n n'))
unfolding is_newer_than
is_newer_than-from_unix s n s' n' hs hs' hn hn' = ground (
  arith,
  lex_lt-from_be (from_unix s n) (from_unix s' n')
      (length-from_unix s n ∙ sym (length-from_unix s' n')) (from_unix-IsByte s n)
      (from_unix-IsByte s' n'),
  value-from_unix s n hs hn,
  value-from_unix s' n' hs' hn',
)

-- Timestamps made from counters are accepted in exactly the order of the counters.
pub is_newer_than-from_counter :
    (a b : ℕ)
    → epoch + a < 2 ^ 64
    → epoch + b < 2 ^ 64
    → is_newer_than (from_counter b) (from_counter a) ≡ ltb a b
unfolding from_counter
is_newer_than-from_counter a b ha hb =
    ground (arith, is_newer_than-from_unix a 0 b 0 ha hb (omega arith) (omega arith))
