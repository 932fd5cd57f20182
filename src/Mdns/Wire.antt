-- ===== src/Mdns/Wire.antt =====
-- Questions as they stand in a message, after RFC 1035: the labels of a name with their lengths, a zero,
-- the type, and the class with the unicast-response bit on top of its first byte.
use lando.Prelude.{
  ℕ, zero, suc, ◌+◌, ◌-◌, ◌%◌, ◌^◌, ◌<◌, ◌≤◌, ◌≡◌, refl, sym, ap, ◌∙◌, Bool, true, false, some,
  List, [], ◌∷◌, ◌++◌, append_assoc, length, length-append, get_elem?, get_or, set, All, ok, ◌==◌,
  ltb, bit_and, bit_or, arith, ==_iff,
}
use lando.Prelude.Bytes.{Bytes}
use lando.Prelude.Checks.{all_below, all_below_lem}
use lando.Prelude.Fields.{get_or-at, set-at}
use lando.Mdns.{skip_name_loop, skip_name, write_qu, rewrite_from}
use lando.Mdns.Questions.{rewrite_asks}

pub record Asked : Type 0 where
  pub labels : List Bytes
  pub kind : Bytes
  pub high : ℕ
  pub low : ℕ

abbrev pub name_text : List Bytes → Bytes
name_text [] = 0 ∷ []
name_text (label ∷ labels) = (length label ∷ label) ++ name_text labels

abbrev pub question_text : Asked → Bytes
question_text q = name_text q.labels ++ (q.kind ++ (q.high ∷ q.low ∷ []))

abbrev pub questions_text : List Asked → Bytes
questions_text [] = []
questions_text (q ∷ qs) = question_text q ++ questions_text qs

-- Labels of 1 to 63 bytes, and a type of two.
abbrev pub IsAsked : Asked → Type 0
IsAsked q =
    All (λ (label : Bytes). (1 ≤ length label) × (length label < 64)) q.labels
    × (length q.kind ≡ 2)
    × (q.high < 256)

abbrev pub with_high : (ℕ → ℕ) → Asked → Asked
with_high f q = record q { high = f q.high }

length_bits : (n : ℕ) → n < 64 → (bit_and n 0xc0 == 0) ≡ true
unfolding all_below
length_bits n h = all_below_lem (λ k. bit_and k 0xc0 == 0) 64 n refl h

pub sets_bit : (b : ℕ) → b < 256 → write_qu true b ≡ b % 128 + 128
unfolding all_below
sets_bit b h =
    (==_iff (bit_or b 0x80) (b % 128 + 128)).0
      (all_below_lem (λ k. bit_or k 0x80 == k % 128 + 128) 256 b refl h)

-- The byte behind `front`.
get_elem?-at : (front rest : Bytes) (v : ℕ) → get_elem? (front ++ v ∷ rest) (length front) ≡ some v
get_elem?-at [] rest v = refl
get_elem?-at (x ∷ front) rest v = get_elem?-at front rest v

skip_name_loop-name_text :
    (fuel : ℕ) (labels : List Bytes) (front rest : Bytes)
    → All (λ (label : Bytes). (1 ≤ length label) × (length label < 64)) labels
    → length (front ++ (name_text labels ++ rest)) < 2 ^ 32
    → length (name_text labels) ≤ fuel
    → skip_name_loop fuel (front ++ (name_text labels ++ rest)) (length front)
      ≡ some (ok (length front + length (name_text labels)))
unfolding skip_name_loop
skip_name_loop-name_text zero [] front rest good small enough = absurd (omega arith)
skip_name_loop-name_text zero (label ∷ labels) front rest good small enough = absurd (omega arith)
skip_name_loop-name_text (suc fuel) [] front rest good small enough =
    rw (skip_name_loop, get_elem?-at front rest 0) refl
skip_name_loop-name_text (suc fuel) (label ∷ labels) front rest ((some_bytes, few), good) small
      enough =
    let text : Bytes = length label ∷ label in
    let msg = front ++ ((text ++ name_text labels) ++ rest) in
    let split : msg ≡ (front ++ text) ++ (name_text labels ++ rest) =
      ap (λ t. front ++ t) (append_assoc text (name_text labels) rest)
      ∙ sym (append_assoc front text (name_text labels ++ rest)) in
    let whole = length-append front text in
    let sizes = length-append (front ++ text) (name_text labels ++ rest) in
    let at : length (front ++ text) ≡ length front + 1 + length label = omega arith in
    let next : skip_name_loop fuel msg (length front + 1 + length label)
        ≡ some (ok (length (front ++ text) + length (name_text labels))) =
      ap (λ p. skip_name_loop fuel msg p) (sym at)
      ∙ ap (λ m. skip_name_loop fuel m (length (front ++ text))) split
      ∙ skip_name_loop-name_text fuel labels (front ++ text) rest good
          (omega (arith, ap length split)) (omega (arith, length-append text (name_text labels))) in
    let here : get_elem? msg (length front) ≡ some (length label) =
      get_elem?-at front ((label ++ name_text labels) ++ rest) (length label) in
    let bits = length_bits (length label) few in
    let more : (length label == 0) ≡ false = ground arith in
    let fits : ltb (2 ^ 32 - 1) (length front + 1 + length label) ≡ false =
      ground (arith, whole, sizes, ap length split) in
    let within : ltb (length msg) (length front + 1 + length label) ≡ false =
      ground (arith, whole, sizes, ap length split) in
    rw (skip_name_loop, here, bits, more, fits, within)
      (next ∙ ap (λ n. some (ok n)) (omega (arith, length-append text (name_text labels))))

skip_name-name_text :
    (labels : List Bytes) (front rest : Bytes)
    → All (λ (label : Bytes). (1 ≤ length label) × (length label < 64)) labels
    → length (front ++ (name_text labels ++ rest)) < 2 ^ 32
    → skip_name (front ++ (name_text labels ++ rest)) (length front)
      ≡ some (ok (length (front ++ name_text labels)))
unfolding skip_name
skip_name-name_text labels front rest good small =
    let msg = front ++ (name_text labels ++ rest) in
    skip_name_loop-name_text (suc (length msg)) labels front rest good small (
      omega (
        arith,
        length-append front (name_text labels ++ rest),
        length-append (name_text labels) rest,
      ))
    ∙ ap (λ n. some (ok n)) (sym (length-append front (name_text labels)))

-- One question, with the bytes before it done.
pub rewrite_from-question_text :
    (n : ℕ) (q : Asked) (front rest : Bytes) (on : Bool)
    → IsAsked q
    → length (front ++ (question_text q ++ rest)) < 2 ^ 32
    → rewrite_from (suc n) (front ++ (question_text q ++ rest)) (length front) on
      ≡ rewrite_from n
          ((front ++ question_text (with_high (write_qu on) q)) ++ rest)
          (length (front ++ question_text (with_high (write_qu on) q)))
          on
rewrite_from-question_text n q front rest on (good, two, byte) small =
    let name = name_text q.labels in
    let class = λ (v : ℕ). v ∷ q.low ∷ [] in
    let v = write_qu on q.high in
    let msg = front ++ (question_text q ++ rest) in
    let before = (front ++ name) ++ q.kind in
    let text = question_text (with_high (write_qu on) q) in
    let done = front ++ text in
    let named = λ (v : ℕ). ap (λ t. front ++ t) (append_assoc name (q.kind ++ class v) rest) in
    let classed = λ (v : ℕ).
      named v
      ∙ sym (append_assoc front name ((q.kind ++ class v) ++ rest))
      ∙ ap (λ t. (front ++ name) ++ t) (append_assoc q.kind (class v) rest)
      ∙ sym (append_assoc (front ++ name) q.kind (class v ++ rest)) in
    let at : length before ≡ length (front ++ name) + 2 =
      omega (arith, length-append (front ++ name) q.kind) in
    let skipped : skip_name msg (length front) ≡ some (ok (length (front ++ name))) =
      ap (λ m. skip_name m (length front)) (named q.high)
      ∙ skip_name-name_text q.labels front ((q.kind ++ class q.high) ++ rest) good
          (omega (arith, ap length (named q.high))) in
    let read : get_or msg (length (front ++ name) + 2) 0 ≡ q.high =
      ap (λ m. get_or m (length (front ++ name) + 2) 0) (classed q.high)
      ∙ ap (λ i. get_or (before ++ q.high ∷ (q.low ∷ rest)) i 0) (sym at)
      ∙ get_or-at before (q.low ∷ rest) q.high in
    let wrote : set msg (length (front ++ name) + 2) v ≡ done ++ rest =
      ap (λ m. set m (length (front ++ name) + 2) v) (classed q.high)
      ∙ ap (λ i. set (before ++ q.high ∷ (q.low ∷ rest)) i v) (sym at)
      ∙ set-at before (q.low ∷ rest) q.high v
      ∙ append_assoc before (v ∷ []) (q.low ∷ rest)
      ∙ sym (classed v)
      ∙ sym (append_assoc front text rest) in
    rewrite_asks n msg (length front) (length (front ++ name)) on skipped
      (omega (arith, ap length (classed q.high), length-append before (q.high ∷ (q.low ∷ rest))))
    ∙ ap
        (λ b.
          rewrite_from n (set msg (length (front ++ name) + 2) (write_qu on b))
            (length (front ++ name) + 2 + 2) on)
        read
    ∙ ap (λ m. rewrite_from n m (length (front ++ name) + 2 + 2) on) wrote
    ∙ ap (λ p. rewrite_from n (done ++ rest) p on)
        (omega (
          arith,
          length-append front name,
          length-append front text,
          length-append name (q.kind ++ class v),
          length-append q.kind (class v),
        ))
