-- ===== src/Control/Frames/Pieces.antt =====
-- `MapFrames::feed` reads the stream, whatever pieces the stream arrives in.
use lando.Prelude.{
  ℕ, zero, suc, ◌-◌, ◌≤◌, ◌≡◌, ◌≢◌, refl, sym, ap, ◌∙◌, false, List, [], ◌∷◌, ◌++◌, All, length,
  length-drop, take, drop, take-append-drop, ◌==◌, if◌then◌else◌, arith,
}
use lando.Prelude.Bytes.{Bytes}
use lando.Control.Frames.{MapFrames, new_frames, feed}
use lando.Control.Frames.Stream.{
  Event, header, steps, steps-append, steps_none, encode_frames, frames_events, IsSmall,
  steps-encode_frames,
}
use lando.Control.Frames.Calls.{IsValid, phase, events}
use lando.Control.Frames.Refine.{feed-Moves}

-- Feeding the input until it is used up, as callers do, a round for each byte at most.
unfoldable pub feed_all : ℕ → MapFrames → Bytes → MapFrames × List Event
feed_all zero s input = (s, [])
feed_all (suc fuel) s input =
    let r = feed s input in
    let rest = feed_all fuel r.0 (drop r.1 input) in
    if length input == 0 then (s, []) else (rest.0, events r.2 ++ rest.1)

-- The pieces of the stream, one after another.
unfoldable pub feed_pieces : MapFrames → List Bytes → MapFrames × List Event
unfolding feed_all
feed_pieces s [] = (s, [])
feed_pieces s (p ∷ ps) =
    let r = feed_all (length p) s p in let rest = feed_pieces r.0 ps in (rest.0, r.1 ++ rest.1)

feed_all-eq :
    (fuel : ℕ) (s : MapFrames) (input : Bytes)
    → length input ≢ 0
    → feed_all (suc fuel) s input ≡ (
      (feed_all fuel (feed s input).0 (drop (feed s input).1 input)).0,
      events (feed s input).2 ++ (feed_all fuel (feed s input).0 (drop (feed s input).1 input)).1,
    )
unfolding feed_all
feed_all-eq fuel s input h = let e : length input == 0 ≡ false = ground arith in rw e refl

feed_all-none : (fuel : ℕ) (s : MapFrames) → feed_all fuel s [] ≡ (s, [])
unfolding feed_all
feed_all-none zero s = refl
feed_all-none (suc fuel) s = refl

-- An answer that stands where the stream does.
record Follows (s : MapFrames) (input : Bytes) (r : MapFrames × List Event) : Type 0 where
  valid : IsValid r.0
  same : steps (phase s) input ≡ (phase r.0, r.1)

feed_all-Follows :
    (fuel : ℕ) (s : MapFrames) (input : Bytes)
    → IsValid s
    → length input ≤ fuel
    → Follows s input (feed_all fuel s input)
feed_all-Follows fuel s [] v h =
    rw (feed_all-none fuel s) (record { valid = v; same = steps_none (phase s) })
feed_all-Follows zero s (b ∷ input) v h = absurd (omega arith)
feed_all-Follows (suc fuel) s (b ∷ input) v h =
    let whole = b ∷ input in
    let r = feed s whole in
    let m = feed-Moves s whole v in
    let used : r.1 - 0 ≡ r.1 = omega arith in
    let here = ap (λ n. steps (phase s) (take n whole)) (sym used) ∙ m.takes.same in
    let ih =
      feed_all-Follows fuel r.0 (drop r.1 whole) m.takes.valid
        (omega (arith, length-drop r.1 whole, m.some_used (omega arith))) in
    rw (feed_all-eq fuel s whole (omega arith)) (record {
      valid = ih.valid;
      same =
          ap (steps (phase s)) (sym (take-append-drop r.1 whole))
          ∙ steps-append (phase s) (take r.1 whole) (drop r.1 whole)
          ∙ ap (λ x. ((steps x.0 (drop r.1 whole)).0, x.1 ++ (steps x.0 (drop r.1 whole)).1)) here
          ∙ ap (λ x. (x.0, events r.2 ++ x.1)) ih.same;
    })

abbrev pub concat : List Bytes → Bytes
concat [] = []
concat (p ∷ ps) = p ++ concat ps

feed_pieces-Follows :
    (s : MapFrames) (ps : List Bytes) → IsValid s → Follows s (concat ps) (feed_pieces s ps)
unfolding feed_pieces
feed_pieces-Follows s [] v = record { valid = v; same = steps_none (phase s) }
feed_pieces-Follows s (p ∷ ps) v =
    let first = feed_all-Follows (length p) s p v (omega arith) in
    let r = feed_all (length p) s p in
    let ih = feed_pieces-Follows r.0 ps first.valid in
    record {
      valid = ih.valid;
      same =
          steps-append (phase s) p (concat ps)
          ∙ ap (λ x. ((steps x.0 (concat ps)).0, x.1 ++ (steps x.0 (concat ps)).1)) first.same
          ∙ ap (λ x. (x.0, r.1 ++ x.1)) ih.same;
    }

pub new_frames-IsValid : IsValid new_frames
new_frames-IsValid = record { buffer = refl; partial = omega arith; apart = λ h. refl }

-- Frames with bodies of less than 4 GiB, sent one after another and arriving in any pieces whatever,
-- come out of `feed` as the bytes of each body in order, with its end and its announced length
-- right behind the last of them.
pub feed_pieces-encode_frames :
    (bodies pieces : List Bytes)
    → All IsSmall bodies
    → concat pieces ≡ encode_frames bodies
    → (feed_pieces new_frames pieces).1 ≡ frames_events bodies
feed_pieces-encode_frames bodies pieces small e =
    let f = feed_pieces-Follows new_frames pieces new_frames-IsValid in
    ap (λ x. x.1) (sym f.same ∙ ap (steps (header [])) e ∙ steps-encode_frames bodies small)

-- The pieces do not matter, whatever bytes arrive and wherever in a frame they break off.
pub feed_pieces-pieces :
    (ps qs : List Bytes)
    → concat ps ≡ concat qs
    → (feed_pieces new_frames ps).1 ≡ (feed_pieces new_frames qs).1
feed_pieces-pieces ps qs e =
    let f = feed_pieces-Follows new_frames ps new_frames-IsValid in
    let g = feed_pieces-Follows new_frames qs new_frames-IsValid in
    ap (λ x. x.1) (sym f.same ∙ ap (steps (header [])) e ∙ g.same)
