-- ===== src/Wireguard/Transport/Replays.antt =====
-- What a session guards against: forged packets, replayed packets, and a nonce used twice.
use lando.Prelude.{
  ℕ, ◌≡◌, refl, sym, ap, subst, ◌∙◌, ◌⊎◌, inl, inr, true, false, Option, none, some, List, [], ◌∷◌,
  ok, err, is_ok, arith, Option-cases, Bool-cases, length, get_or, not, ◌||◌, ◌==◌, ltb,
}
use lando.Prelude.Bytes.{Bytes, from_le, slice}
use lando.Crypto.{Aead}
use lando.Wireguard.Message.{replayed_transport}
use lando.Wireguard.Replay.{accept}
use lando.Wireguard.Replay.Spec.{History, contains, admits, record_counter}
use lando.Wireguard.Replay.Refine.{Holds, accept_refines, new_window-Holds}
use lando.Wireguard.Transport.{
  SessionKeys, Session, new_session, nonce, decrypt, deliver, counter_of, body_of, tag_of,
}

-- What stays the same of a session while it receives.
record SameKeys (r r' : Session) : Type 0 where
  same_cipher : r'.receive_cipher ≡ r.receive_cipher
  same_index : r'.local_index ≡ r.local_index

-- What a step does to a session whose window stands for `seen`.
record Grown (r : Session) (seen : History) (r' : Session) : Type 0 where
  later : History
  holds : Holds r'.replay later
  keeps : (c : ℕ) → contains c seen ≡ true → contains c later ≡ true
  same : SameKeys r r'

deliver-Grown :
    (r : Session) (seen : History) (c : ℕ) (text : Bytes)
    → Holds r.replay seen
    → Grown r seen (deliver r c text).0
unfolding deliver
deliver-Grown r seen c text v = record {
  later = record_counter seen c;
  holds = (accept_refines r.replay seen c v).1;
  keeps = λ d h. ground arith;
  same = record { same_cipher = refl; same_index = refl };
}

contains_new :
    (seen : History) (c : ℕ) → admits seen c ≡ true → contains c (record_counter seen c) ≡ true
contains_new seen c h = ground arith

after_deliver :
    (r : Session) (seen : History) (c : ℕ) (text : Bytes) {r' : Session}
    → Holds r.replay seen
    → (accept r.replay c).1 ≡ true
    → deliver r c text ≡ (r', ok text)
    → Holds r'.replay (record_counter seen c)
      × (contains c (record_counter seen c) ≡ true)
      × SameKeys r r'
unfolding deliver
after_deliver r seen c text v fresh e =
    let step = accept_refines r.replay seen c v in
    subst
      (λ (q : Session).
        Holds q.replay (record_counter seen c)
        × (contains c (record_counter seen c) ≡ true)
        × SameKeys r q)
      (ap (λ p. p.0) e)
      (
        step.1,
        contains_new seen c (sym step.0 ∙ fresh),
        record { same_cipher = refl; same_index = refl },
      )

module _ (aead : Aead) where
  -- What the AEAD answers for a packet.
  abbrev pub opening : Session → Bytes → Option Bytes
  opening r pk = aead.decrypt r.receive_cipher (nonce (counter_of pk)) [] (body_of pk) (tag_of pk)

  -- A packet that fails authentication is an error and leaves the session, its replay window
  -- included, as it was.
  pub decrypt_forged :
      (r : Session) (pk : Bytes)
      → opening r pk ≡ none
      → ((decrypt aead r pk).0 ≡ r) × (is_ok (decrypt aead r pk).1 ≡ false)
  unfolding decrypt
  decrypt_forged r pk e = ground arith

  -- Either the session is unchanged, or the packet was opened and delivered.
  decrypt_cases :
      (r : Session) (pk : Bytes)
      → ((decrypt aead r pk).0 ≡ r)
        ⊎ ((text : Bytes) × (decrypt aead r pk ≡ deliver r (counter_of pk) text))
  unfolding decrypt
  decrypt_cases r pk = elim (Bool-cases (ltb (length pk) 32 || not (get_or pk 0 0 == 4))) [
    | inl bad ↦ inl (ground arith)
    | inr shaped ↦ elim (Bool-cases (not (from_le (slice pk 4 4) == r.local_index))) [
      | inl bad ↦ inl (ground arith)
      | inr addressed ↦ elim (Option-cases (opening r pk)) [
        | inl fails ↦ inl (ground arith)
        | inr (text, e) ↦ inr (text, ground arith)
      ]
    ]
  ]

  decrypt-Grown :
      (r : Session) (seen : History) (pk : Bytes)
      → Holds r.replay seen
      → Grown r seen (decrypt aead r pk).0
  decrypt-Grown r seen pk v = elim (decrypt_cases r pk) [
    | inl same ↦ rw same (record {
      later = seen;
      holds = v;
      keeps = λ c h. h;
      same = record { same_cipher = refl; same_index = refl };
    })
    | inr (text, e) ↦ rw e (deliver-Grown r seen (counter_of pk) text v)
  ]

  -- The session after a sequence of packets.
  unfoldable pub receive_all : Session → List Bytes → Session
  receive_all r [] = r
  receive_all r (pk ∷ pks) = receive_all (decrypt aead r pk).0 pks

  receive_all-Grown :
      (r : Session) (seen : History) (pks : List Bytes)
      → Holds r.replay seen
      → Grown r seen (receive_all r pks)
  unfolding receive_all
  receive_all-Grown r seen [] v = record {
    later = seen;
    holds = v;
    keeps = λ c h. h;
    same = record { same_cipher = refl; same_index = refl };
  }
  receive_all-Grown r seen (pk ∷ pks) v =
      let g = decrypt-Grown r seen pk v in
      let g' = receive_all-Grown (decrypt aead r pk).0 g.later pks g.holds in
      record {
        later = g'.later;
        holds = g'.holds;
        keeps = λ c h. g'.keeps c (g.keeps c h);
        same = record {
          same_cipher = g'.same.same_cipher ∙ g.same.same_cipher;
          same_index = g'.same.same_index ∙ g.same.same_index;
        };
      }

  -- What a packet that `decrypt` accepts has passed.
  record Accepted (r : Session) (pk text : Bytes) : Type 0 where
    shaped : (ltb (length pk) 32 || not (get_or pk 0 0 == 4)) ≡ false
    addressed : not (from_le (slice pk 4 4) == r.local_index) ≡ false
    opens : opening r pk ≡ some text
    fresh : (accept r.replay (counter_of pk)).1 ≡ true

  decrypt_ok :
      (r : Session) (pk text : Bytes) {r' : Session}
      → decrypt aead r pk ≡ (r', ok text)
      → Accepted r pk text
  unfolding decrypt deliver
  decrypt_ok r pk text e = elim (Bool-cases (ltb (length pk) 32 || not (get_or pk 0 0 == 4))) [
    | inl bad ↦ ground arith
    | inr shaped ↦ elim (Bool-cases (not (from_le (slice pk 4 4) == r.local_index))) [
      | inl bad ↦ ground arith
      | inr addressed ↦ elim (Option-cases (opening r pk)) [
        | inl fails ↦ ground arith
        | inr (t, opens) ↦ elim (Bool-cases (accept r.replay (counter_of pk)).1) [
          | inl fresh ↦ ground arith
          | inr stale ↦ ground arith
        ]
      ]
    ]
  ]

  -- The same packet at a session with the same keys, whose window knows the counter.
  refused :
      (r r' : Session) (seen : History) (pk text : Bytes)
      → Accepted r pk text
      → SameKeys r r'
      → Holds r'.replay seen
      → contains (counter_of pk) seen ≡ true
      → (decrypt aead r' pk).1 ≡ err replayed_transport
  unfolding decrypt deliver
  refused r r' seen pk text a same v known =
      ground (arith, a, same, (accept_refines r'.replay seen (counter_of pk) v).0)

  delivers :
      (r : Session) (pk text : Bytes)
      → Accepted r pk text
      → decrypt aead r pk ≡ deliver r (counter_of pk) text
  unfolding decrypt
  delivers r pk text a = rw (a.shaped, a.addressed, a.opens)

  after_accept :
      (r : Session) (seen : History) (pk text : Bytes) {r' : Session}
      → Holds r.replay seen
      → decrypt aead r pk ≡ (r', ok text)
      → Holds r'.replay (record_counter seen (counter_of pk))
        × (contains (counter_of pk) (record_counter seen (counter_of pk)) ≡ true)
        × SameKeys r r'
  after_accept r seen pk text v e =
      let a = decrypt_ok r pk text e in
      after_deliver r seen (counter_of pk) text v a.fresh (sym (delivers r pk text a) ∙ e)

  -- Once a session has accepted a packet, the same packet is answered by `ReplayedTransport`
  -- whenever it comes again, whatever packets came before and come between.
  pub decrypt_replayed :
      (keys : SessionKeys) (before others : List Bytes) (pk text : Bytes) {r' : Session}
      → decrypt aead (receive_all (new_session keys) before) pk ≡ (r', ok text)
      → (decrypt aead (receive_all r' others) pk).1 ≡ err replayed_transport
  unfolding new_session
  decrypt_replayed keys before others pk text {r'} e =
      let r = receive_all (new_session keys) before in
      let start = receive_all-Grown (new_session keys) [] before new_window-Holds in
      let now = after_accept r start.later pk text start.holds e in
      let end = receive_all-Grown r' (record_counter start.later (counter_of pk)) others now.0 in
      refused r (receive_all r' others) end.later pk text (decrypt_ok r pk text e)
        (record {
          same_cipher = end.same.same_cipher ∙ now.2.same_cipher;
          same_index = end.same.same_index ∙ now.2.same_index;
        })
        end.holds (end.keeps (counter_of pk) now.1)
