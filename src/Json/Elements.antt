-- ===== src/Json/Elements.antt =====
-- `json::Elements`, the iterator over an array of the same file.
pub mod Printed
use lando.Prelude.{
  ℕ, zero, suc, Bool, true, false, Option, none, some, List, [], ◌∷◌, length, ◌==◌, if◌then◌else◌,
  ok, err,
}
use lando.Prelude.Bytes.{Bytes}
use lando.Json.Reader.{Value, Read, skip_ws, peeks, parse_value}

pub record Elements : Type 0 where
  pub rest : Bytes
  pub started : Bool
  pub done : Bool

abbrev pub elements : Bytes → Elements
elements raw = record { rest = raw; started = false; done = false }

-- Where the iterator has ended it stays.
abbrev pub stopped : Elements × Option Value
stopped = (record { rest = []; started = true; done = true }, none)

abbrev pub yielded : Read Value → Elements × Option Value
yielded (ok (v, rest)) = (record { rest = rest; started = true; done = false }, some v)
yielded (err e) = stopped

-- Behind the bracket or the comma.
unfoldable pub next_value : Bytes → Elements × Option Value
next_value s = if peeks b']' s then stopped else yielded (parse_value s)

unfoldable pub next_after : ℕ → Bytes → Elements × Option Value
unfolding next_value
next_after c [] = stopped
next_after c (b ∷ s) = if b == c then next_value (skip_ws s) else stopped

-- `Elements::next`
unfoldable pub next : Elements → Elements × Option Value
unfolding next_after
next e =
    if e.done then (e, none) else next_after (if e.started then b',' else b'[') (skip_ws e.rest)

-- The values that the iterator yields, one byte at least for each.
unfoldable pub collect : ℕ → Elements → List Value
unfolding next
collect zero e = []
collect (suc fuel) e = elim ((next e).1) [ none ↦ [] | some v ↦ v ∷ collect fuel (next e).0 ]

unfoldable pub collect_all : Bytes → List Value
unfolding collect
collect_all raw = collect (suc (length raw)) (elements raw)
