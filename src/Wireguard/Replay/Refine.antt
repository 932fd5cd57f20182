-- ===== src/Wireguard/Replay/Refine.antt =====
-- The window answers as the full history of accepted counters would.
use lando.Prelude.{
  ℕ, ◌+◌, ◌-◌, ◌%◌, ◌≤◌, ◌<◌, ◌≡◌, ◌≢◌, refl, sym, ap, ap₂, ◌∙◌, Bool, true, false, List, [], ◌∷◌,
  length, replicate, length-replicate, leb, ◌==◌, if◌then◌else◌, arith, ℕ_discrete, dec_lt, inl,
  inr, Bool-cases,
}
use lando.Wireguard.Replay.{
  ReplayWindow, new_window, reject_after_messages, window_words, set_bit, shift_left, accept,
  accept_all, accept_run,
}
use lando.Wireguard.Replay.Window.{
  place, place-set_bit_self, place-set_bit_ne, get_bit_lem, length-set_bit, length-shift_from,
  place-shift_from_ne, place-shift_from_self, place-replicate,
}
use lando.Wireguard.Replay.Spec.{
  History, contains, maximum, admits, record_counter, admit_all, le-maximum,
}

-- The bit of each counter from the highest down to a window below it tells whether it was accepted.
abbrev Agrees : List ℕ → ℕ → History → Type 0
Agrees bits top seen =
    (d : ℕ) → d ≤ top → top < d + 2048 → (place bits (d % 2048) == 1) ≡ contains d seen

pub record Holds (w : ReplayWindow) (seen : History) : Type 0 where
  pub full : length w.bits ≡ window_words
  pub top : w.highest ≡ maximum seen
  pub small : w.highest < reject_after_messages
  pub fresh : w.started ≡ false → seen ≡ []
  pub blank : w.started ≡ false → (k : ℕ) → place w.bits k ≡ 0
  pub agrees : Agrees w.bits w.highest seen

-- Setting the bit of `c` adds `c` to what the bits tell, if they told the rest.
mark :
    (bits : List ℕ) (top c : ℕ) (seen : History)
    → length bits ≡ window_words
    → c ≤ top
    → top < c + 2048
    → ((d : ℕ) → d ≢ c → d ≤ top → top < d + 2048 → (place bits (d % 2048) == 1) ≡ contains d seen)
    → Agrees (set_bit bits c) top (c ∷ seen)
mark bits top c seen full le near rest d p q = elim (ℕ_discrete d c) [
  | yes e ↦ ground (arith, place-set_bit_self bits full c (d % 2048) (omega arith))
  | no ne ↦
      ground
        (arith, place-set_bit_ne bits full c (d % 2048) (omega arith) (omega arith), rest d ne p q)
]

not_seen : (d : ℕ) (seen : History) → maximum seen < d → contains d seen ≡ false
not_seen d seen h = elim (Bool-cases (contains d seen)) [
  | inl e ↦ absurd (omega (arith, le-maximum d seen e))
  | inr e ↦ e
]

-- After the window moves up to `c`, the bits below `c` still tell what was accepted.
shifted :
    (w : ReplayWindow) (seen : History) (c d : ℕ)
    → Holds w seen
    → w.highest < c
    → c < reject_after_messages
    → c - w.highest < 2048
    → d ≢ c
    → d ≤ c
    → c < d + 2048
    → (place (shift_left w (c - w.highest)) (d % 2048) == 1) ≡ contains d seen
unfolding shift_left
shifted w seen c d v up lim near ne p q = elim (dec_lt w.highest d) [
  | yes above ↦ ground (
    arith,
    place-shift_from_self (c - w.highest) 1 w.highest w.bits (d - w.highest) v.full (omega arith)
        (omega arith) (omega arith) (omega arith),
    not_seen d seen (omega (arith, v.top)),
  )
  | no below ↦ ground (
    arith,
    place-shift_from_ne (c - w.highest) 1 w.highest w.bits (d % 2048) v.full (omega arith)
        (omega arith) (λ j a b. omega arith),
    v.agrees d (omega arith) (omega arith),
  )
]

-- What one call must do: answer as the history does, and still stand for it.
abbrev pub Step : ReplayWindow × Bool → History → ℕ → Type 0
Step (w, answer) seen c = (answer ≡ admits seen c) × Holds w (record_counter seen c)

moved : ReplayWindow → ℕ → List ℕ
moved w c =
    if leb 2048 (c - w.highest) then replicate window_words 0 else shift_left w (c - w.highest)

length-moved :
    (w : ReplayWindow) (c : ℕ) → length w.bits ≡ window_words → length (moved w c) ≡ window_words
unfolding moved shift_left
length-moved w c full = ground (
  arith,
  length-replicate {A = ℕ} window_words 0,
  length-shift_from (c - w.highest) 1 w.highest w.bits,
)

module _ (w : ReplayWindow) (seen : History) (c : ℕ) (v : Holds w seen) where
  too_late : reject_after_messages ≤ c → Step (accept w c) seen c
  unfolding accept
  too_late h = ground (arith, v)

  -- What the bits of a moved window tell of the counters other than `c`.
  moved-agrees :
      w.highest < c
      → c < reject_after_messages
      → (d : ℕ) → d ≢ c
      → d ≤ c
      → c < d + 2048
      → (place (moved w c) (d % 2048) == 1) ≡ contains d seen
  unfolding moved
  moved-agrees up lim d ne p q = elim (dec_lt (c - w.highest) 2048) [
    | yes near ↦ ground (arith, shifted w seen c d v up lim near ne p q)
    | no far ↦
        ground
          (arith, place-replicate window_words (d % 2048), not_seen d seen (omega (arith, v.top)))
  ]

  first-Holds :
      c < reject_after_messages
      → w.started ≡ false
      → Holds (record { highest = c; bits = set_bit w.bits c; started = true }) (c ∷ seen)
  first-Holds lim e = record {
    full = length-set_bit w.bits c ∙ v.full;
    top = omega (arith, ap maximum (v.fresh e));
    small = lim;
    fresh = λ p. cc;
    blank = λ p. cc;
    agrees =
        mark w.bits c c seen v.full (omega arith) (omega arith)
          (λ d ne p q. ground (arith, v.blank e (d % 2048), v.fresh e));
  }

  ahead-Holds :
      c < reject_after_messages
      → w.started ≡ true
      → w.highest < c
      → Holds (record w { highest = c; bits = set_bit (moved w c) c }) (c ∷ seen)
  ahead-Holds lim e up = record {
    full = length-set_bit (moved w c) c ∙ length-moved w c v.full;
    top = omega (arith, v.top);
    small = lim;
    fresh = λ p. cc;
    blank = λ p. cc;
    agrees =
        mark (moved w c) c c seen (length-moved w c v.full) (omega arith) (omega arith)
          (moved-agrees up lim);
  }

  behind-Holds :
      w.started ≡ true
      → c ≤ w.highest
      → w.highest < c + 2048
      → Holds (record w { bits = set_bit w.bits c }) (c ∷ seen)
  behind-Holds e le near = record {
    full = length-set_bit w.bits c ∙ v.full;
    top = omega (arith, v.top);
    small = v.small;
    fresh = λ p. cc;
    blank = λ p. cc;
    agrees = mark w.bits w.highest c seen v.full le near (λ d ne p q. v.agrees d p q);
  }

  first : c < reject_after_messages → w.started ≡ false → Step (accept w c) seen c
  unfolding accept
  first lim e = ground (arith, first-Holds lim e, v.fresh e)

  ahead : c < reject_after_messages → w.started ≡ true → w.highest < c → Step (accept w c) seen c
  unfolding accept moved
  ahead lim e up = ground (arith, ahead-Holds lim e up, v.top, not_seen c seen)

  behind : c < reject_after_messages → w.started ≡ true → c ≤ w.highest → Step (accept w c) seen c
  unfolding accept
  behind lim e le = ground (arith, behind-Holds e le, v, v.top, get_bit_lem w.bits c, v.agrees c le)

-- Every call answers as the history does, and the window still stands for the history.
pub accept_refines :
    (w : ReplayWindow) (seen : History) (c : ℕ) → Holds w seen → Step (accept w c) seen c
accept_refines w seen c v = elim (dec_lt c reject_after_messages) [
  | no late ↦ too_late w seen c v (omega arith)
  | yes lim ↦ elim (Bool-cases w.started) [
    | inr e ↦ first w seen c v lim e
    | inl e ↦ elim (dec_lt w.highest c) [
      | yes up ↦ ahead w seen c v lim e up
      | no down ↦ behind w seen c v lim e (omega arith)
    ]
  ]
]

pub new_window-Holds : Holds new_window []
new_window-Holds = record {
  full = refl;
  top = refl;
  small = omega arith;
  fresh = λ p. refl;
  blank = λ p k. place-replicate window_words k;
  agrees = λ d p q. ground (arith, place-replicate window_words (d % 2048));
}

accept_all_refines :
    (w : ReplayWindow) (seen : History) (cs : List ℕ)
    → Holds w seen
    → accept_all w cs ≡ admit_all seen cs
unfolding accept_all admit_all
accept_all_refines w seen [] v = refl
accept_all_refines w seen (c ∷ cs) v =
    ap₂ ◌∷◌ (accept_refines w seen c v).0
      (accept_all_refines (accept w c).0 (record_counter seen c) cs (accept_refines w seen c v).1)

-- From the empty window, every sequence of counters gets the answers that the full history of
-- accepted counters would give: a counter is accepted exactly when it is below
-- REJECT_AFTER_MESSAGES, was not accepted before, and is less than 2048 behind the highest.
pub window_refines_history : (cs : List ℕ) → accept_all new_window cs ≡ admit_all [] cs
window_refines_history cs = accept_all_refines new_window [] cs new_window-Holds

-- The history behind a window after more counters.
history_after : History → List ℕ → History
history_after seen [] = seen
history_after seen (c ∷ cs) = history_after (record_counter seen c) cs

accept_run-Holds :
    (w : ReplayWindow) (seen : History) (cs : List ℕ)
    → Holds w seen
    → Holds (accept_run w cs) (history_after seen cs)
unfolding accept_run history_after
accept_run-Holds w seen [] v = v
accept_run-Holds w seen (c ∷ cs) v =
    accept_run-Holds (accept w c).0 (record_counter seen c) cs (accept_refines w seen c v).1

contains-history_after :
    (seen : History) (cs : List ℕ) (c : ℕ)
    → contains c seen ≡ true
    → contains c (history_after seen cs) ≡ true
unfolding history_after
contains-history_after seen [] c h = h
contains-history_after seen (x ∷ cs) c h =
    contains-history_after (record_counter seen x) cs c (ground arith)

contains-record_counter :
    (seen : History) (c : ℕ) → admits seen c ≡ true → contains c (record_counter seen c) ≡ true
contains-record_counter seen c h = ground arith

admits-contains : (seen : History) (c : ℕ) → contains c seen ≡ true → admits seen c ≡ false
admits-contains seen c h = ground arith

-- A counter accepted once, after any counters, is refused after any further counters.
pub no_replay :
    (before between : List ℕ) (c : ℕ)
    → (accept (accept_run new_window before) c).1 ≡ true
    → (accept (accept_run (accept (accept_run new_window before) c).0 between) c).1 ≡ false
no_replay before between c h =
    let seen = history_after [] before in
    let once =
      accept_refines (accept_run new_window before) seen c
        (accept_run-Holds new_window [] before new_window-Holds) in
    let later = history_after (record_counter seen c) between in
    (accept_refines (accept_run (accept (accept_run new_window before) c).0 between) later c (
      accept_run-Holds (accept (accept_run new_window before) c).0 (record_counter seen c) between
        once.1)).0
    ∙ admits-contains later c (
        contains-history_after (record_counter seen c) between c
          (contains-record_counter seen c (sym once.0 ∙ h)))
