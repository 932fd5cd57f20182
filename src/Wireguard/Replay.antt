-- ===== src/Wireguard/Replay.antt =====
-- The replay filter of crates/tailscale-core/src/wireguard/transport.rs: `ReplayWindow`.
-- A `u64` is a number below `2 ^ 64`; the array of words is a list, and an index out of range
-- (which `Window` excludes) reads 0 and writes nothing.
pub mod Window
pub mod Spec
pub mod Refine
mod Tests
use lando.Prelude.{
  ℕ, zero, suc, ◌+◌, ◌-◌, ◌*◌, ◌/◌, ◌%◌, ◌^◌, ◌≡◌, Bool, true, false, not, List, [], ◌∷◌, get_or,
  set, replicate, ltb, leb, ◌==◌, if◌then◌else◌, bit_and, bit_or,
}

abbrev pub u64_max : ℕ
u64_max = 2 ^ 64 - 1

-- `REJECT_AFTER_MESSAGES`
abbrev pub reject_after_messages : ℕ
reject_after_messages = u64_max - 2 ^ 13 - 1

abbrev pub window_bits : ℕ
window_bits = 2048

abbrev pub window_words : ℕ
window_words = window_bits / 64

pub record ReplayWindow : Type 0 where
  pub highest : ℕ
  pub bits : List ℕ
  pub started : Bool

abbrev pub new_window : ReplayWindow
new_window = record { highest = 0; bits = replicate window_words 0; started = false }

-- The position of a counter's bit: its word and its place in the word.
abbrev pub index : ℕ → ℕ × ℕ
index counter = let bit = counter % window_bits in (bit / 64, bit % 64)

-- The methods `get`, `set` and `shift_left`, on the array of words.
unfoldable pub get_bit : List ℕ → ℕ → Bool
get_bit bits counter = let (w, b) = index counter in not (bit_and (get_or bits w 0) (2 ^ b) == 0)

unfoldable pub set_bit : List ℕ → ℕ → List ℕ
set_bit bits counter = let (w, b) = index counter in set bits w (bit_or (get_or bits w 0) (2 ^ b))

pub clear_bit : List ℕ → ℕ → List ℕ
clear_bit bits counter =
    let (w, b) = index counter in set bits w (bit_and (get_or bits w 0) (2 ^ 64 - 1 - 2 ^ b))

-- `for i in 1..=shift`, with the rounds left and the current `i`.
pub shift_from : ℕ → ℕ → ℕ → List ℕ → List ℕ
shift_from zero i highest bits = bits
shift_from (suc n) i highest bits =
    shift_from n (i + 1) highest (clear_bit bits ((highest + i) % 2 ^ 64))

pub shift_left : ReplayWindow → ℕ → List ℕ
unfolding shift_from
shift_left w shift = shift_from shift 1 w.highest w.bits

-- `accept`: the new state and the answer.
unfoldable pub accept : ReplayWindow → ℕ → ReplayWindow × Bool
accept w counter =
    if leb reject_after_messages counter
    then (w, false)
    else if not w.started
    then (record { highest = counter; bits = set_bit w.bits counter; started = true }, true)
    else if ltb w.highest counter
    then (advance (counter - w.highest), true)
    else if leb window_bits (w.highest - counter)
    then (w, false)
    else if get_bit w.bits counter
    then (w, false)
    else (record w { bits = set_bit w.bits counter }, true)
  where
    advance : ℕ → ReplayWindow
    advance shift = record w {
      highest = counter;
      bits =
          set_bit (if leb window_bits shift then replicate window_words 0 else shift_left w shift)
            counter;
    }

-- The answers to a sequence of counters.
pub accept_all : ReplayWindow → List ℕ → List Bool
accept_all w [] = []
accept_all w (c ∷ cs) = let (w', ok) = accept w c in ok ∷ accept_all w' cs

-- The window after a sequence of counters.
unfoldable pub accept_run : ReplayWindow → List ℕ → ReplayWindow
accept_run w [] = w
accept_run w (c ∷ cs) = accept_run (accept w c).0 cs
