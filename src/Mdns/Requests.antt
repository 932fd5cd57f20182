-- ===== src/Mdns/Requests.antt =====
-- What the relay asks for and puts back in a message whose questions are written out.
use lando.Prelude.{
  ℕ, suc, ◌+◌, ◌%◌, ◌^◌, ◌<◌, ◌≡◌, refl, sym, ap, ◌∙◌, Bool, true, false, some, List, [], ◌∷◌, ◌++◌,
  append_assoc, length, length-append, take, take-append_self, drop-append_self, All, ok, arith,
  map,
}
use lando.Prelude.Bytes.{Bytes, slice, to_be, from_be, from_be-to_be}
use lando.Prelude.Bits.{bit_and_127}
use lando.Mdns.{
  write_qu, rewrite_from, question_count, count_as, rewrite_question_class, request_unicast_replies,
  restore_multicast_questions,
}
use lando.Mdns.Restore.{rewrite_done}
use lando.Mdns.Relay.{rewrite_long, restore-request}
use lando.Mdns.Wire.{
  Asked, IsAsked, with_high, name_text, question_text, questions_text, sets_bit,
  rewrite_from-question_text,
}

clears_bit : (b : ℕ) → write_qu false b ≡ b % 128
clears_bit b = bit_and_127 b

size_with_high :
    (f : ℕ → ℕ) (q : Asked) → length (question_text (with_high f q)) ≡ length (question_text q)
size_with_high f q =
    let class = λ (v : ℕ). v ∷ q.low ∷ [] in
    let size = λ (v : ℕ).
      length-append (name_text q.labels) (q.kind ++ class v)
      ∙ ap (λ n. length (name_text q.labels) + n) (length-append q.kind (class v)) in
    size (f q.high) ∙ sym (size q.high)

rewrite_from-questions_text :
    (qs : List Asked) (front rest : Bytes) (on : Bool) (f : ℕ → ℕ)
    → ((b : ℕ) → b < 256 → write_qu on b ≡ f b)
    → All IsAsked qs
    → length (front ++ (questions_text qs ++ rest)) < 2 ^ 32
    → (at : ℕ) × (rewrite_from (length qs) (front ++ (questions_text qs ++ rest)) (length front) on
        ≡ (front ++ (questions_text (map (with_high f) qs) ++ rest), some (ok at)))
rewrite_from-questions_text [] front rest on f does asked small =
    (length front, rewrite_done (front ++ rest) (length front) on)
rewrite_from-questions_text (q ∷ qs) front rest on f does (is, asked) small =
    let text = question_text (with_high f q) in
    let done = front ++ text in
    let whole : front ++ ((question_text q ++ questions_text qs) ++ rest)
        ≡ front ++ (question_text q ++ (questions_text qs ++ rest)) =
      ap (λ t. front ++ t) (append_assoc (question_text q) (questions_text qs) rest) in
    let left = questions_text qs ++ rest in
    let same : with_high (write_qu on) q ≡ with_high f q =
      ap (λ b. record q { high = b }) (does q.high is.2) in
    let (at, ih) = rewrite_from-questions_text qs done rest on f does asked (
      omega (
        arith,
        ap length whole,
        length-append front (question_text q ++ left),
        length-append (question_text q) left,
        length-append done left,
        length-append front text,
        size_with_high f q,
      )) in
    (
      at,
      ap (λ m. rewrite_from (suc (length qs)) m (length front) on) whole
          ∙ rewrite_from-question_text (length qs) q front (questions_text qs ++ rest) on is
              (omega (arith, ap length whole))
          ∙ ap
              (λ (p : Asked).
                rewrite_from (length qs) ((front ++ question_text p) ++ (questions_text qs ++ rest))
                  (length (front ++ question_text p)) on)
              same
          ∙ ih
          ∙ ap (λ m. (m, some (ok at)))
              (append_assoc front text (questions_text (map (with_high f) qs) ++ rest)
                ∙ ap (λ t. front ++ t)
                    (sym (append_assoc text (questions_text (map (with_high f) qs)) rest))),
    )

-- A message: four bytes, the number of questions, six bytes, the questions, and the rest.
abbrev pub message : Bytes → Bytes → List Asked → Bytes → Bytes
message head tail qs rest = (head ++ (to_be 2 (length qs) ++ tail)) ++ (questions_text qs ++ rest)

length-map : (f : Asked → Asked) (qs : List Asked) → length (map f qs) ≡ length qs
length-map f [] = refl
length-map f (q ∷ qs) = ap suc (length-map f qs)

rewrite_question_class-message :
    (head tail rest : Bytes) (qs : List Asked) (on : Bool) (f : ℕ → ℕ)
    → ((b : ℕ) → b < 256 → write_qu on b ≡ f b)
    → length head ≡ 4
    → length tail ≡ 6
    → All IsAsked qs
    → length qs < 2 ^ 16
    → length (message head tail qs rest) < 2 ^ 32
    → rewrite_question_class (message head tail qs rest) on
      ≡ (message head tail (map (with_high f) qs) rest, some (ok (length qs)))
rewrite_question_class-message head tail rest qs on f does four six asked few small =
    let count = to_be 2 (length qs) in
    let front = head ++ (count ++ tail) in
    let body = questions_text qs ++ rest in
    let twelve : length front ≡ 12 =
      omega (arith, length-append head (count ++ tail), length-append count tail) in
    let counted : slice (front ++ body) 4 2 ≡ count =
      ap (λ m. slice m 4 2) (append_assoc head (count ++ tail) body)
      ∙ ap (take 2) (drop-append_self head ((count ++ tail) ++ body) 4 (sym four))
      ∙ ap (take 2) (append_assoc count tail body)
      ∙ take-append_self count (tail ++ body) 2 refl in
    let n : question_count (front ++ body) ≡ length qs =
      ap from_be counted ∙ from_be-to_be 2 (length qs) few in
    let (at, run) = rewrite_from-questions_text qs front rest on f does asked small in
    rewrite_long (front ++ body) on (omega (arith, length-append front body))
    ∙ ap
        (λ k. (
          (rewrite_from k (front ++ body) 12 on).0,
          count_as k (rewrite_from k (front ++ body) 12 on).1,
        ))
        n
    ∙ ap
        (λ p. (
          (rewrite_from (length qs) (front ++ body) p on).0,
          count_as (length qs) (rewrite_from (length qs) (front ++ body) p on).1,
        ))
        (sym twelve)
    ∙ ap (λ r. (r.0, count_as (length qs) r.1)) run
    ∙ ap
        (λ k. (
          (head ++ (to_be 2 k ++ tail)) ++ (questions_text (map (with_high f) qs) ++ rest),
          some (ok (length qs)),
        ))
        (sym (length-map (with_high f) qs))

-- In a message of less than 2 ^ 32 bytes whose questions are written out, `request_unicast_replies`
-- sets the unicast-response bit of every question, and changes nothing else;
-- `restore_multicast_questions` clears it in every question, and changes nothing else; and after
-- the one, the other leaves the questions as they came but for that bit, which is clear even where it
-- came set. Each counts the questions.
pub request-restore :
    (head tail rest : Bytes) (qs : List Asked)
    → length head ≡ 4
    → length tail ≡ 6
    → All IsAsked qs
    → length qs < 2 ^ 16
    → length (message head tail qs rest) < 2 ^ 32
    → (request_unicast_replies (message head tail qs rest)
        ≡ (message head tail (map (with_high (λ b. b % 128 + 128)) qs) rest, some (ok (length qs))))
      × (restore_multicast_questions (message head tail qs rest)
          ≡ (message head tail (map (with_high (λ b. b % 128)) qs) rest, some (ok (length qs))))
      × (restore_multicast_questions (request_unicast_replies (message head tail qs rest)).0
          ≡ (message head tail (map (with_high (λ b. b % 128)) qs) rest, some (ok (length qs))))
unfolding request_unicast_replies restore_multicast_questions
request-restore head tail rest qs four six asked few small =
    let restored =
      rewrite_question_class-message head tail rest qs false (λ b. b % 128) (λ b h. clears_bit b)
        four six asked few small in
    (
      rewrite_question_class-message head tail rest qs true (λ b. b % 128 + 128) sets_bit four six
          asked few small,
      restored,
      restore-request (message head tail qs rest) ∙ restored,
    )
