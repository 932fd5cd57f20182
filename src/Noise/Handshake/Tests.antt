-- ===== src/Noise/Handshake/Tests.antt =====
-- The handshake over the toy suite.
use lando.Prelude.{◌≡◌, refl, [], ◌∷◌, replicate, err, arith}
use lando.Prelude.Bytes.{codes}
use lando.Prelude.Decimal.{decimal}
use lando.Crypto.Tests.{toy, toy-SuiteLaws}
use lando.Noise.{server_error, unexpected_type}
use lando.Noise.Handshake.{Handshake, prologue, finish}
use lando.Noise.Handshake.Agreement.{Agrees, noise_agrees}

noise_agrees_example :
    Agrees toy (replicate 32 1) (replicate 32 2) 145 (replicate 32 3) (replicate 32 4)
noise_agrees_example =
    noise_agrees toy toy-SuiteLaws (replicate 32 1) (replicate 32 2) 145 (replicate 32 3)
      (replicate 32 4) (omega arith)

prologue_run : prologue 145 ≡ codes "Tailscale Control Protocol v145"
unfolding prologue decimal
prologue_run = refl

abbrev half : Handshake
half = record { state = record { h = []; ck = [] }; machine_key = []; ephemeral = [] }

error_run : finish toy half (3 ∷ 0 ∷ 2 ∷ codes "no") ≡ err server_error
unfolding finish
error_run = refl

other_run : finish toy half (9 ∷ 0 ∷ 0 ∷ []) ≡ err (unexpected_type 9)
unfolding finish
other_run = refl
