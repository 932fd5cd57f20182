-- ===== src/Mdns/Restore.antt =====
-- Requesting and then restoring the questions of a message, as the relay does.
use lando.Prelude.{
  ℕ, zero, suc, ◌+◌, ◌<◌, ◌≡◌, ◌≢◌, refl, sym, ap, ◌∙◌, Bool, true, false, none, some, [], ◌∷◌,
  length, get_elem?, get_or, set, Result, ok, arith, get_elem?-set_ne, get_or-set_self,
  get_or-set_ne, length-set, set-set_ne, set-set_self,
}
use lando.Prelude.Bytes.{Bytes}
use lando.Mdns.{MdnsError, write_qu, rewrite_from}
use lando.Mdns.Names.{skip_name_bounds, skip_name-set, skip_name_prefix}
use lando.Mdns.Questions.{
  fails, cut, asks, question, rewrite_fails, rewrite_cut, rewrite_asks, write_qu_restores,
}

pub rewrite_done :
    (msg : Bytes) (pos : ℕ) (on : Bool) → rewrite_from 0 msg pos on ≡ (msg, some (ok pos))
unfolding rewrite_from
rewrite_done msg pos on = refl

-- The loop ends, keeps the length, and writes nothing before the question it starts at.
pub record Tame (n : ℕ) (msg : Bytes) (pos : ℕ) (on : Bool) : Type 0 where
  pub ends : (rewrite_from n msg pos on).1 ≢ none
  pub keeps : length (rewrite_from n msg pos on).0 ≡ length msg
  pub spares : (i : ℕ) → i < pos → get_elem? (rewrite_from n msg pos on).0 i ≡ get_elem? msg i

unmoved-Tame :
    (n : ℕ) (msg : Bytes) (pos : ℕ) (on : Bool) {x : Result MdnsError ℕ}
    → rewrite_from n msg pos on ≡ (msg, some x)
    → Tame n msg pos on
unmoved-Tame n msg pos on e = record {
  ends = λ h. cc;
  keeps = ap (λ r. length r.0) e;
  spares = λ i h. ap (λ r. get_elem? r.0 i) e;
}

pub rewrite_from-Tame : (n : ℕ) (msg : Bytes) (pos : ℕ) (on : Bool) → Tame n msg pos on
rewrite_from-Tame zero msg pos on =
    unmoved-Tame zero msg pos on {x = ok pos} (rewrite_done msg pos on)
rewrite_from-Tame (suc n) msg pos on = elim (question msg pos) [
  | fails e ↦ unmoved-Tame (suc n) msg pos on (rewrite_fails n msg pos on e)
  | cut at e h ↦ unmoved-Tame (suc n) msg pos on (rewrite_cut n msg pos at on e h)
  | asks at e h ↦
      let j = at + 2 in
      let w = write_qu on (get_or msg j 0) in
      let step = rewrite_asks n msg pos at on e h in
      let t = rewrite_from-Tame n (set msg j w) (at + 2 + 2) on in
      let past = (skip_name_bounds msg pos e).0 in
      record {
        ends = λ k. t.ends (sym (ap (λ r. r.1) step) ∙ k);
        keeps = ap (λ r. length r.0) step ∙ t.keeps ∙ length-set msg j w;
        spares = λ i k.
            ap (λ r. get_elem? r.0 i) step
            ∙ t.spares i (omega arith)
            ∙ get_elem?-set_ne msg j i w (λ p. omega arith);
      }
]

get_or_agree :
    (xs ys : Bytes) (i d : ℕ) → get_elem? xs i ≡ get_elem? ys i → get_or xs i d ≡ get_or ys i d
get_or_agree [] [] i d e = refl
get_or_agree [] (y ∷ ys) zero d e = cc
get_or_agree [] (y ∷ ys) (suc i) d e = get_or_agree [] ys i d e
get_or_agree (x ∷ xs) [] zero d e = cc
get_or_agree (x ∷ xs) [] (suc i) d e = get_or_agree xs [] i d e
get_or_agree (x ∷ xs) (y ∷ ys) zero d e = cc
get_or_agree (x ∷ xs) (y ∷ ys) (suc i) d e = get_or_agree xs ys i d e

-- A byte before the question that the loop starts at can as well be written afterwards.
rewrite_from-set :
    (n : ℕ) (msg : Bytes) (pos : ℕ) (on : Bool) (i v : ℕ)
    → i < pos
    → rewrite_from n (set msg i v) pos on
      ≡ (set (rewrite_from n msg pos on).0 i v, (rewrite_from n msg pos on).1)
rewrite_from-set zero msg pos on i v h =
    rewrite_done (set msg i v) pos on ∙ sym (ap (λ r. (set r.0 i v, r.1)) (rewrite_done msg pos on))
rewrite_from-set (suc n) msg pos on i v h = elim (question msg pos) [
  | fails e ↦
      rewrite_fails n (set msg i v) pos on (skip_name-set msg pos i v h ∙ e)
      ∙ sym (ap (λ r. (set r.0 i v, r.1)) (rewrite_fails n msg pos on e))
  | cut at e k ↦
      rewrite_cut n (set msg i v) pos at on (skip_name-set msg pos i v h ∙ e)
        (omega (arith, length-set msg i v))
      ∙ sym (ap (λ r. (set r.0 i v, r.1)) (rewrite_cut n msg pos at on e k))
  | asks at e k ↦
      let j = at + 2 in
      let w = write_qu on (get_or msg j 0) in
      let past = (skip_name_bounds msg pos e).0 in
      let apart : i ≢ j = λ p. omega arith in
      rewrite_asks n (set msg i v) pos at on (skip_name-set msg pos i v h ∙ e)
        (omega (arith, length-set msg i v))
      ∙ ap (λ b. rewrite_from n (set (set msg i v) j (write_qu on b)) (at + 2 + 2) on)
          (get_or-set_ne msg i j v 0 apart)
      ∙ ap (λ m. rewrite_from n m (at + 2 + 2) on) (set-set_ne msg i j v w apart)
      ∙ rewrite_from-set n (set msg j w) (at + 2 + 2) on i v (omega arith)
      ∙ sym (ap (λ r. (set r.0 i v, r.1)) (rewrite_asks n msg pos at on e k))
]

-- Restoring from a question on does not see whether the same questions were requested before.
pub restore-request_from :
    (n : ℕ) (msg : Bytes) (pos : ℕ)
    → rewrite_from n (rewrite_from n msg pos true).0 pos false ≡ rewrite_from n msg pos false
restore-request_from zero msg pos =
    ap (λ r. rewrite_from 0 r.0 pos false) (rewrite_done msg pos true)
restore-request_from (suc n) msg pos = elim (question msg pos) [
  | fails e ↦ ap (λ r. rewrite_from (suc n) r.0 pos false) (rewrite_fails n msg pos true e)
  | cut at e h ↦ ap (λ r. rewrite_from (suc n) r.0 pos false) (rewrite_cut n msg pos at true e h)
  | asks at e h ↦
      let j = at + 2 in
      let b = get_or msg j 0 in
      let m = set msg j (write_qu true b) in
      let r = (rewrite_from n m (at + 2 + 2) true).0 in
      let t = rewrite_from-Tame n m (at + 2 + 2) true in
      let past = (skip_name_bounds msg pos e).0 in
      let long = t.keeps ∙ length-set msg j (write_qu true b) in
      let same =
        skip_name_prefix msg r pos long
          (λ i k.
            t.spares i (omega arith)
            ∙ get_elem?-set_ne msg j i (write_qu true b) (λ p. omega arith))
          e in
      let seen : get_or r j 0 ≡ write_qu true b =
        get_or_agree r m j 0 (t.spares j (omega arith))
        ∙ get_or-set_self msg j (write_qu true b) 0 (omega arith) in
      ap (λ q. rewrite_from (suc n) q.0 pos false) (rewrite_asks n msg pos at true e h)
      ∙ rewrite_asks n r pos at false same (omega arith)
      ∙ ap (λ c. rewrite_from n (set r j c) (at + 2 + 2) false)
          (ap (write_qu false) seen ∙ write_qu_restores b)
      ∙ ap (λ q. rewrite_from n q.0 (at + 2 + 2) false)
          (sym (rewrite_from-set n m (at + 2 + 2) true j (write_qu false b) (omega arith)))
      ∙ ap (λ q. rewrite_from n (rewrite_from n q (at + 2 + 2) true).0 (at + 2 + 2) false)
          (set-set_self msg j (write_qu true b) (write_qu false b))
      ∙ restore-request_from n (set msg j (write_qu false b)) (at + 2 + 2)
      ∙ sym (rewrite_asks n msg pos at false e h)
]
