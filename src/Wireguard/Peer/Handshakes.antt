-- ===== src/Wireguard/Peer/Handshakes.antt =====
-- Handshake timestamps that only grow, and retries that stop.
use lando.Prelude.{
  ℕ, ◌+◌, ◌-◌, ◌*◌, ◌≤◌, ◌<◌, ◌≡◌, refl, Bool, true, false, ◌&&◌, none, some, List, [], ◌∷◌, length,
  leb, ltb, if◌then◌else◌, ok, err, arith, inl, inr, Bool-cases,
}
use lando.Prelude.Bytes.{Bytes, lex_lt}
use lando.Wireguard.Message.{replayed_handshake}
use lando.Wireguard.Timestamp.{Tai64n, is_newer_than}
use lando.Wireguard.Peer.{
  Action, initiate, keepalive, idle, Peer, accept_handshake_timestamp, mark_handshake_sent, poll,
  rekey_attempt_time, rekey_timeout,
}

lex_lt_irrefl : (xs : Bytes) → lex_lt xs xs ≡ false
unfolding lex_lt
lex_lt_irrefl [] = refl
lex_lt_irrefl (x ∷ xs) = ground (arith, lex_lt_irrefl xs)

lex_lt_trans : (xs ys zs : Bytes) → lex_lt xs ys ≡ true → lex_lt ys zs ≡ true → lex_lt xs zs ≡ true
unfolding lex_lt
lex_lt_trans [] [] zs h k = cc
lex_lt_trans [] (y ∷ ys) [] h k = cc
lex_lt_trans [] (y ∷ ys) (z ∷ zs) h k = refl
lex_lt_trans (x ∷ xs) [] zs h k = cc
lex_lt_trans (x ∷ xs) (y ∷ ys) [] h k = cc
lex_lt_trans (x ∷ xs) (y ∷ ys) (z ∷ zs) h k = ground (arith, lex_lt_trans xs ys zs)

-- The peer after a sequence of timestamps.
unfoldable pub accept_timestamps : Peer → List Tai64n → Peer
accept_timestamps p [] = p
accept_timestamps p (ts ∷ rest) = accept_timestamps (accept_handshake_timestamp p ts).0 rest

-- The peer has accepted a timestamp that is not older than `ts`.
abbrev Reached : Peer → Tai64n → Type 0
Reached p ts = (last : Tai64n) × (p.last_handshake_timestamp ≡ some last) × (lex_lt last ts ≡ false)

Reached-refused :
    (p : Peer) (ts : Tai64n)
    → Reached p ts
    → (accept_handshake_timestamp p ts).1 ≡ err replayed_handshake
unfolding accept_handshake_timestamp is_newer_than
Reached-refused p ts (last, e, h) = rw (e, h)

lex_lt_weaken :
    (xs ys zs : Bytes) → lex_lt xs ys ≡ true → lex_lt xs zs ≡ false → lex_lt ys zs ≡ false
lex_lt_weaken xs ys zs h k = elim (Bool-cases (lex_lt ys zs)) [
  | inl e ↦ absurd (let t = lex_lt_trans xs ys zs h e in cc)
  | inr e ↦ e
]

accept-Reached :
    (p : Peer) (ts other : Tai64n)
    → Reached p ts
    → Reached (accept_handshake_timestamp p other).0 ts
unfolding accept_handshake_timestamp is_newer_than
accept-Reached p ts other (last, e, h) = elim (Bool-cases (lex_lt last other)) [
  | inl newer ↦ (other, rw (e, newer), lex_lt_weaken last other ts newer h)
  | inr older ↦ (last, rw (e, older), h)
]

accept_timestamps-Reached :
    (p : Peer) (ts : Tai64n) (others : List Tai64n)
    → Reached p ts
    → Reached (accept_timestamps p others) ts
unfolding accept_timestamps
accept_timestamps-Reached p ts [] r = r
accept_timestamps-Reached p ts (t ∷ others) r =
    accept_timestamps-Reached (accept_handshake_timestamp p t).0 ts others (accept-Reached p ts t r)

accept_ok-Reached :
    (p : Peer) (ts older : Tai64n)
    → (accept_handshake_timestamp p ts).1 ≡ ok tt
    → lex_lt ts older ≡ false
    → Reached (accept_handshake_timestamp p ts).0 older
unfolding accept_handshake_timestamp
accept_ok-Reached p ts older h le = (ts, ground arith, le)

-- Once a peer's handshake timestamp is accepted, that timestamp and every one that is not newer are
-- refused as replays ever after, whatever timestamps come between.
pub accept_handshake_timestamp_replayed :
    (p : Peer) (ts older : Tai64n) (others : List Tai64n)
    → (accept_handshake_timestamp p ts).1 ≡ ok tt
    → is_newer_than older ts ≡ false
    → (accept_handshake_timestamp
        (accept_timestamps (accept_handshake_timestamp p ts).0 others)
        older).1
      ≡ err replayed_handshake
unfolding is_newer_than
accept_handshake_timestamp_replayed p ts older others h le =
    Reached-refused (accept_timestamps (accept_handshake_timestamp p ts).0 others) older (
      accept_timestamps-Reached (accept_handshake_timestamp p ts).0 older others
        (accept_ok-Reached p ts older h le))

is_initiate : Action → Bool
is_initiate initiate = true
is_initiate keepalive = false
is_initiate idle = false

-- A caller that polls at these times and sends a handshake initiation whenever it is told to, while
-- no answer arrives: the times at which it sends.
unfoldable pub attempts : Peer → List ℕ → List ℕ
unfolding is_initiate
attempts p [] = []
attempts p (now ∷ times) =
    if is_initiate (poll p now)
    then now ∷ attempts (mark_handshake_sent p now) times
    else attempts p times

-- With an initiation in flight, `poll` asks for another one only after five seconds, and only
-- within ninety seconds of the first.
poll_in_flight :
    (p : Peer) (start sent now : ℕ)
    → p.handshake_started ≡ some start
    → p.handshake_sent ≡ some sent
    → is_initiate (poll p now)
      ≡ (ltb (now - start) rekey_attempt_time && leb rekey_timeout (now - sent))
unfolding poll is_initiate
poll_in_flight p start sent now hs ht = ground arith

attempts_in_flight :
    (p : Peer) (start sent : ℕ) (times : List ℕ)
    → p.handshake_started ≡ some start
    → p.handshake_sent ≡ some sent
    → sent < start + rekey_attempt_time
    → rekey_timeout * length (attempts p times) + sent < start + rekey_attempt_time
unfolding attempts mark_handshake_sent
attempts_in_flight p start sent [] hs ht lim = omega arith
attempts_in_flight p start sent (now ∷ times) hs ht lim = ground (
  arith,
  poll_in_flight p start sent now hs ht,
  attempts_in_flight p start sent times hs ht lim,
  attempts_in_flight (record p { handshake_sent = some now; handshake_started = some start }) start
      now times refl refl,
)

-- A peer with no handshake in flight whose initiations are never answered is sent at most 18 of
-- them, however long and however often it is polled.
pub attempts_bounded :
    (p : Peer) (times : List ℕ)
    → p.handshake_sent ≡ none
    → p.handshake_started ≡ none
    → length (attempts p times) ≤ 18
unfolding attempts mark_handshake_sent
attempts_bounded p [] hs ht = omega arith
attempts_bounded p (now ∷ times) hs ht = ground (
  arith,
  attempts_bounded p times hs ht,
  attempts_in_flight (record p { handshake_sent = some now; handshake_started = some now }) now now
      times refl refl,
)

-- With an initiation in flight, `poll` asks for another exactly from five seconds after it on, and
-- before ninety seconds have passed since the first; otherwise it asks for nothing.
pub poll_in_flight_lem :
    (p : Peer) (start sent now : ℕ)
    → p.handshake_started ≡ some start
    → p.handshake_sent ≡ some sent
    → poll p now ≡ (if ltb now (start + 90_000) && leb (sent + 5_000) now then initiate else idle)
unfolding poll
poll_in_flight_lem p start sent now hs ht = ground arith
