-- ===== src/Wireguard/Replay/Spec.antt =====
-- What the replay filter promises, with no window: the counters accepted so far, latest first.
use lando.Prelude.{
  ℕ, ◌+◌, ◌≤◌, max, ◌≡◌, Bool, true, false, not, ◌&&◌, ◌||◌, List, [], ◌∷◌, ltb, ◌==◌,
  if◌then◌else◌, arith,
}
use lando.Wireguard.Replay.{reject_after_messages, window_bits}

abbrev pub History : Type 0
History = List ℕ

abbrev pub contains : ℕ → History → Bool
contains c [] = false
contains c (x ∷ xs) = c == x || contains c xs

abbrev pub maximum : History → ℕ
maximum [] = 0
maximum (x ∷ xs) = max x (maximum xs)

-- A counter is admitted if it is below the limit, new, and less than a window behind the highest.
abbrev pub admits : History → ℕ → Bool
admits seen c =
    ltb c reject_after_messages && (ltb (maximum seen) (c + window_bits) && not (contains c seen))

abbrev pub record_counter : History → ℕ → History
record_counter seen c = if admits seen c then c ∷ seen else seen

unfoldable pub admit_all : History → List ℕ → List Bool
admit_all seen [] = []
admit_all seen (c ∷ cs) = admits seen c ∷ admit_all (record_counter seen c) cs

pub le-maximum : (c : ℕ) (seen : History) → contains c seen ≡ true → c ≤ maximum seen
le-maximum c [] h = absurd (cc)
le-maximum c (x ∷ xs) h = ground (arith, le-maximum c xs)
