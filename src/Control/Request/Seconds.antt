-- ===== src/Control/Request/Seconds.antt =====
-- Latencies as text.
use lando.Prelude.{ℕ, ◌+◌, ◌*◌, ◌%◌, ◌≡◌, refl, [], ◌∷◌, All, take, drop, arith}
use lando.Prelude.Decimal.{value_from, IsDigit}
use lando.Control.Request.{write_seconds}

-- The text of a latency is a digit, a point and three digits, which spell the milliseconds modulo ten
-- seconds: for a latency of ten seconds or more the tens of seconds are lost.
pub write_seconds_lem :
    (ms : ℕ)
    → (value_from 0 (take 1 (write_seconds ms)) * 1000 + value_from 0 (drop 2 (write_seconds ms))
        ≡ ms % 10000)
      × All IsDigit (take 1 (write_seconds ms))
      × (take 1 (drop 1 (write_seconds ms)) ≡ b'.' ∷ [])
      × All IsDigit (drop 2 (write_seconds ms))
unfolding write_seconds
write_seconds_lem ms = (omega arith, omega arith, refl, omega arith)
