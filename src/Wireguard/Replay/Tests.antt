-- ===== src/Wireguard/Replay/Tests.antt =====
-- Runs of the replay filter, and its theorems at concrete inputs.
use lando.Prelude.{ℕ, ◌≡◌, refl, Bool, true, false, List, [], ◌∷◌}
use lando.Wireguard.Replay.{
  new_window, get_bit, set_bit, clear_bit, shift_from, shift_left, accept, accept_all, accept_run,
}
use lando.Wireguard.Replay.Spec.{admit_all}
use lando.Wireguard.Replay.Refine.{window_refines_history, no_replay}

-- Reordering within the window, replays, a jump that empties it, and counters too old.
abbrev arrivals : List ℕ
arrivals = 5 ∷ 3 ∷ 5 ∷ 2000 ∷ 3 ∷ 4 ∷ 5000 ∷ 2952 ∷ 2953 ∷ 2953 ∷ []

abbrev answers : List Bool
answers = true ∷ true ∷ false ∷ true ∷ false ∷ true ∷ true ∷ false ∷ true ∷ false ∷ []

arrivals_run : accept_all new_window arrivals ≡ answers
unfolding accept_all accept get_bit set_bit shift_left clear_bit shift_from
arrivals_run = refl

window_refines_history_example : accept_all new_window arrivals ≡ admit_all [] arrivals
window_refines_history_example = window_refines_history arrivals

nine_accepted : (accept (accept_run new_window (4 ∷ 7 ∷ [])) 9).1 ≡ true
unfolding accept accept_run get_bit set_bit shift_left clear_bit shift_from
nine_accepted = refl

no_replay_example :
    (accept (accept_run (accept (accept_run new_window (4 ∷ 7 ∷ [])) 9).0 (70 ∷ 8 ∷ [])) 9).1
    ≡ false
no_replay_example = no_replay (4 ∷ 7 ∷ []) (70 ∷ 8 ∷ []) 9 nine_accepted
