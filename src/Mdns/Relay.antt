-- ===== src/Mdns/Relay.antt =====
-- What the relay does to a whole message.
use lando.Prelude.{
  ℕ, zero, suc, ◌+◌, ◌^◌, ◌<◌, ◌≤◌, ◌≡◌, ◌≢◌, refl, sym, ap, ◌∙◌, inl, inr, Bool, true, false,
  Option, none, some, [], ◌∷◌, length, get_elem?, ltb, leb, Result, ok, err, take, drop, arith,
  Bool-cases,
}
use lando.Prelude.Bytes.{Bytes, slice, from_be, from_be-to_be}
use lando.Mdns.{
  MdnsError, malformed, rewrite_from, question_count, header_len, count_as, rewrite_question_class,
  request_unicast_replies, restore_multicast_questions, transaction_id, set_transaction_id,
}
use lando.Mdns.Restore.{rewrite_from-Tame, restore-request_from}

take_agree :
    (n : ℕ) (xs ys : Bytes)
    → ((i : ℕ) → i < n → get_elem? xs i ≡ get_elem? ys i)
    → take n xs ≡ take n ys
take_agree zero xs ys h = refl
take_agree (suc n) [] [] h = refl
take_agree (suc n) [] (y ∷ ys) h = let e = h 0 (omega arith) in cc
take_agree (suc n) (x ∷ xs) [] h = let e = h 0 (omega arith) in cc
take_agree (suc n) (x ∷ xs) (y ∷ ys) h =
    let e = h 0 (omega arith) in
    let rest = take_agree n xs ys (λ i k. h (suc i) (omega arith)) in cc

slice_agree :
    (at n : ℕ) (xs ys : Bytes)
    → ((i : ℕ) → i < at + n → get_elem? xs i ≡ get_elem? ys i)
    → slice xs at n ≡ slice ys at n
slice_agree zero n xs ys h = take_agree n xs ys (λ i k. h i (omega arith))
slice_agree (suc at) n [] [] h = refl
slice_agree (suc at) n [] (y ∷ ys) h = let e = h 0 (omega arith) in cc
slice_agree (suc at) n (x ∷ xs) [] h = let e = h 0 (omega arith) in cc
slice_agree (suc at) n (x ∷ xs) (y ∷ ys) h = slice_agree at n xs ys (λ i k. h (suc i) (omega arith))

rewrite_short :
    (msg : Bytes) (on : Bool)
    → length msg < header_len
    → rewrite_question_class msg on ≡ (msg, some (err malformed))
unfolding rewrite_question_class
rewrite_short msg on h = ground arith

pub rewrite_long :
    (msg : Bytes) (on : Bool)
    → header_len ≤ length msg
    → rewrite_question_class msg on ≡ (
      (rewrite_from (question_count msg) msg header_len on).0,
      count_as (question_count msg) (rewrite_from (question_count msg) msg header_len on).1,
    )
unfolding rewrite_question_class
rewrite_long msg on h =
    let room : ltb (length msg) header_len ≡ false = ground arith in ground arith

count_as-none : (n : ℕ) (r : Option (Result MdnsError ℕ)) → count_as n r ≡ none → r ≡ none
count_as-none n none h = refl
count_as-none n (some (ok pos)) h = cc
count_as-none n (some (err e)) h = cc

rewrite_question_class_spares :
    (msg : Bytes) (on : Bool) (i : ℕ)
    → i < header_len
    → get_elem? (rewrite_question_class msg on).0 i ≡ get_elem? msg i
rewrite_question_class_spares msg on i h = elim (Bool-cases (ltb (length msg) header_len)) [
  | inl short ↦ ap (λ r. get_elem? r.0 i) (rewrite_short msg on (ground arith))
  | inr room ↦
      ap (λ r. get_elem? r.0 i) (rewrite_long msg on (ground arith))
      ∙ (rewrite_from-Tame (question_count msg) msg header_len on).spares i h
]

-- Rewriting the questions of a message, whatever the message holds, stops with an answer, keeps the
-- length of the message and leaves its header as it was.
pub rewrite_question_class_total :
    (msg : Bytes) (on : Bool)
    → ((rewrite_question_class msg on).1 ≢ none)
      × (length (rewrite_question_class msg on).0 ≡ length msg)
      × (slice (rewrite_question_class msg on).0 0 header_len ≡ slice msg 0 header_len)
rewrite_question_class_total msg on =
    let head =
      slice_agree 0 header_len (rewrite_question_class msg on).0 msg
        (rewrite_question_class_spares msg on) in
    elim (Bool-cases (ltb (length msg) header_len)) [
      | inl short ↦
          let e = rewrite_short msg on (ground arith) in (λ h. cc, ap (λ r. length r.0) e, head)
      | inr room ↦
          let n = question_count msg in
          let r = (rewrite_from n msg header_len on).1 in
          let e = rewrite_long msg on (ground arith) in
          let t = rewrite_from-Tame n msg header_len on in
          (
            λ h. t.ends (count_as-none n r (sym (ap (λ r. r.1) e) ∙ h)),
            ap (λ r. length r.0) e ∙ t.keeps,
            head,
          )
    ]

-- Restoring the questions of a message that `request_unicast_replies` rewrote, in whole or up to
-- where it failed, is restoring the questions of the message it was given: the relay forwards what
-- it would have forwarded, with the same answer and the same bytes.
pub restore-request :
    (msg : Bytes)
    → restore_multicast_questions (request_unicast_replies msg).0 ≡ restore_multicast_questions msg
unfolding restore_multicast_questions request_unicast_replies
restore-request msg = elim (Bool-cases (ltb (length msg) header_len)) [
  | inl short ↦ ap (λ r. rewrite_question_class r.0 false) (rewrite_short msg true (ground arith))
  | inr room ↦
      let t = rewrite_question_class_total msg true in
      let n = question_count msg in
      let m = (rewrite_question_class msg true).0 in
      let here : header_len ≤ length msg = ground arith in
      let same : question_count m ≡ n =
        ap from_be
          (slice_agree 4 2 m msg (λ i k. rewrite_question_class_spares msg true i (omega arith))) in
      rewrite_long m false (omega (arith, t.1))
      ∙ ap
          (λ k. (
            (rewrite_from k m header_len false).0,
            count_as k (rewrite_from k m header_len false).1,
          ))
          same
      ∙ ap
          (λ q. (
            (rewrite_from n q.0 header_len false).0,
            count_as n (rewrite_from n q.0 header_len false).1,
          ))
          (rewrite_long msg true here)
      ∙ ap (λ r. (r.0, count_as n r.1)) (restore-request_from n msg header_len)
      ∙ sym (rewrite_long msg false here)
]

-- In a message with a whole header, the 16-bit transaction id that is written is the one read back,
-- and nothing past it changes.
pub transaction_id-set_transaction_id :
    (msg : Bytes) (id : ℕ)
    → header_len ≤ length msg
    → id < 2 ^ 16
    → (transaction_id (set_transaction_id msg id) ≡ some id)
      × (length (set_transaction_id msg id) ≡ length msg)
      × (drop 2 (set_transaction_id msg id) ≡ drop 2 msg)
unfolding transaction_id set_transaction_id
transaction_id-set_transaction_id [] id h small = absurd (omega arith)
transaction_id-set_transaction_id (a ∷ []) id h small = absurd (omega arith)
transaction_id-set_transaction_id (a ∷ b ∷ msg) id h small =
    let full : leb header_len (suc (suc (length msg))) ≡ true = ground arith in
    let whole : ltb (suc (suc (length msg))) header_len ≡ false = ground arith in
    let v = from_be-to_be 2 id small in rw (full) (rw (whole) (ap some v, refl, refl))
