-- ===== src/H2/Reader/Loop.antt =====
-- The loop of the reader.
use lando.Prelude.{
  ℕ, zero, suc, ◌+◌, ◌%◌, ◌^◌, ◌<◌, ◌≤◌, ◌≡◌, refl, subst, ap, ◌∙◌, ◌⊎◌, some, length, arith, inl,
  inr,
}
use lando.Prelude.Bytes.{Bytes}
use lando.H2.Reader.{
  State, at_header, buffering, streaming, draining, FrameReader, Answer, Round, more, done, round,
  feed_loop, feed,
}
use lando.H2.Reader.Rounds.{
  Pending, IsValid, charged, rounds, Answers, Goes, read_streaming-Goes, read_draining-Goes,
  read_buffering-Goes, read_header-Goes,
}

round-Goes :
    (s : State) (r : FrameReader) (v : IsValid r) (input : Bytes) (pos : ℕ)
    → pos ≤ length input
    → r.state ≡ s
    → Pending s r
    → Goes s r.pending_window (length input) pos (round s r input pos)
unfolding round
round-Goes at_header r v input pos within at h = read_header-Goes r v input pos within at
round-Goes buffering r v input pos within at h = read_buffering-Goes r v input pos within at h.0 h.1
round-Goes streaming r v input pos within at h = read_streaming-Goes r v input pos within at h
round-Goes draining r v input pos within at h = read_draining-Goes r v input pos within at h

Round-cases :
    (ρ : Round) → ((a : Answer) × (ρ ≡ done a)) ⊎ ((r : FrameReader) × (pos : ℕ) × (ρ ≡ more r pos))
Round-cases (done a) = inl (a, refl)
Round-cases (more r pos) = inr (r, pos, refl)

pub feed_loop-done :
    (fuel : ℕ) (r : FrameReader) (input : Bytes) (pos : ℕ) {a : Answer}
    → round r.state r input pos ≡ done a
    → feed_loop (suc fuel) r input pos ≡ some a
unfolding feed_loop
feed_loop-done fuel r input pos e = ground arith

pub feed_loop-more :
    (fuel : ℕ) (r : FrameReader) (input : Bytes) (pos : ℕ) {r' : FrameReader} {pos' : ℕ}
    → round r.state r input pos ≡ more r' pos'
    → feed_loop (suc fuel) r input pos ≡ feed_loop fuel r' input pos'
unfolding feed_loop
feed_loop-more fuel r input pos e = ground arith

rounds_pos : (s : State) (len pos : ℕ) → 0 < rounds s len pos
rounds_pos at_header len pos = omega arith
rounds_pos buffering len pos = ground arith
rounds_pos streaming len pos = omega arith
rounds_pos draining len pos = omega arith

-- An answer from a later position is one from an earlier position.
Answers-earlier :
    (w w' len pos pos' : ℕ) (a : Answer)
    → pos ≤ pos'
    → pos' ≤ len
    → (pos < len → pos < pos')
    → w' ≡ w
    → Answers w' len pos' a
    → Answers w len pos a
Answers-earlier w w' len pos pos' a le within up same owes = record {
  valid = owes.valid;
  from = omega (arith, owes.from);
  within = owes.within;
  used = λ h. omega (arith, up h, owes.from);
  counted = owes.counted ∙ ap (λ w. (w + charged a.2) % 2 ^ 32) same;
}

-- With as many rounds of fuel as the state can take, the loop answers.
feed_loop-Answers :
    (fuel : ℕ) (r : FrameReader) (input : Bytes) (pos : ℕ)
    → IsValid r
    → pos ≤ length input
    → rounds r.state (length input) pos ≤ fuel
    → (a : Answer) × (feed_loop fuel r input pos ≡ some a)
      × Answers r.pending_window (length input) pos a
feed_loop-Answers zero r input pos v within enough =
    absurd (omega (arith, rounds_pos r.state (length input) pos))
feed_loop-Answers (suc fuel) r input pos v within enough =
    let owed = Goes r.state r.pending_window (length input) pos in
    let go = round-Goes r.state r v input pos within refl v.pending in
    elim (Round-cases (round r.state r input pos)) [
      | inl (a, e) ↦ (a, feed_loop-done fuel r input pos e, subst owed e go)
      | inr (r', pos', e) ↦
          let (v', le, in_range, up, fewer, same) = subst owed e go in
          let (a, answer, owes) = feed_loop-Answers fuel r' input pos' v' in_range (omega arith) in
          (
            a,
            feed_loop-more fuel r input pos e ∙ answer,
            Answers-earlier r.pending_window r'.pending_window (length input) pos pos' a le in_range
                up same owes,
          )
    ]

rounds-le : (s : State) (len pos : ℕ) → rounds s len pos ≤ 4
rounds-le at_header len pos = omega arith
rounds-le buffering len pos = ground arith
rounds-le streaming len pos = omega arith
rounds-le draining len pos = omega arith

-- From every valid reader `feed` answers within its four rounds. The reader stays valid, no more than
-- the input is used, and some of it wherever there is any. The pending window grows, modulo `2 ^ 32`, by
-- the payload bytes of the item where that is a part of a DATA frame, and is unchanged elsewhere.
pub feed_counts :
    (r : FrameReader) (input : Bytes)
    → IsValid r
    → (a : Answer) × (feed r input ≡ some a) × Answers r.pending_window (length input) 0 a
unfolding feed
feed_counts r input v =
    feed_loop-Answers 4 r input 0 v (omega arith) (rounds-le r.state (length input) 0)
