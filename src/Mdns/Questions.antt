-- ===== src/Mdns/Questions.antt =====
-- What rewriting the questions of a message changes, and how restoring undoes requesting.
use lando.Prelude.{
  ℕ, suc, ◌+◌, ◌<◌, ◌≤◌, ◌≡◌, refl, ap, ◌∙◌, inl, inr, Bool, true, false, some, length, get_or, set,
  ltb, Result, ok, err, bit_or, arith, Option-cases, Result-cases, Bool-cases,
}
use lando.Prelude.Bytes.{Bytes}
use lando.Prelude.Bits.{bit_and_127, bit_or_128}
use lando.Mdns.{MdnsError, malformed, skip_name, write_qu, rewrite_from}
use lando.Mdns.Names.{skip_name-ne-none}

-- Clearing the QU bit undoes setting it.
pub write_qu_restores : (b : ℕ) → write_qu false (write_qu true b) ≡ write_qu false b
write_qu_restores b = omega (arith, bit_and_127 b, bit_and_127 (bit_or b 128), bit_or_128 b)

-- What the next question does to the loop.
pub data Question (msg : Bytes) (pos : ℕ) : Type 0 where
  fails : skip_name msg pos ≡ some (err malformed) → Question msg pos
  cut : (at : ℕ) → skip_name msg pos ≡ some (ok at) → length msg < at + 4 → Question msg pos
  asks : (at : ℕ) → skip_name msg pos ≡ some (ok at) → at + 4 ≤ length msg → Question msg pos

only_malformed : (x : MdnsError) → ◌≡◌ {A = Result MdnsError ℕ} (err x) (err malformed)
only_malformed malformed = refl

pub question : (msg : Bytes) (pos : ℕ) → Question msg pos
question msg pos = elim (Option-cases (skip_name msg pos)) [
  | inl e ↦ absurd (skip_name-ne-none msg pos e)
  | inr (r, e) ↦ elim (Result-cases r) [
    | inr (x, e') ↦ fails (e ∙ ap some (e' ∙ only_malformed x))
    | inl (at, e') ↦ elim (Bool-cases (ltb (length msg) (at + 4))) [
      | inl short ↦ cut at (e ∙ ap some e') (ground arith)
      | inr room ↦ asks at (e ∙ ap some e') (ground arith)
    ]
  ]
]

pub rewrite_fails :
    (n : ℕ) (msg : Bytes) (pos : ℕ) (on : Bool)
    → skip_name msg pos ≡ some (err malformed)
    → rewrite_from (suc n) msg pos on ≡ (msg, some (err malformed))
unfolding rewrite_from
rewrite_fails n msg pos on e = ground arith

pub rewrite_cut :
    (n : ℕ) (msg : Bytes) (pos at : ℕ) (on : Bool)
    → skip_name msg pos ≡ some (ok at)
    → length msg < at + 4
    → rewrite_from (suc n) msg pos on ≡ (msg, some (err malformed))
unfolding rewrite_from
rewrite_cut n msg pos at on e h = ground arith

pub rewrite_asks :
    (n : ℕ) (msg : Bytes) (pos at : ℕ) (on : Bool)
    → skip_name msg pos ≡ some (ok at)
    → at + 4 ≤ length msg
    → rewrite_from (suc n) msg pos on
      ≡ rewrite_from n (set msg (at + 2) (write_qu on (get_or msg (at + 2) 0))) (at + 2 + 2) on
unfolding rewrite_from
rewrite_asks n msg pos at on e h =
    let room : ltb (length msg) (at + 2 + 2) ≡ false = ground arith in ground arith
