-- ===== src/Wireguard/Peer/Tests.antt =====
-- The theorems of a peer at concrete inputs.
use lando.Prelude.{
  ℕ, ◌+◌, ◌<◌, ◌≤◌, ◌≡◌, refl, true, false, none, some, List, [], ◌∷◌, length, ok, err, arith, ◌⊎◌,
}
use lando.Wireguard.Message.{replayed_handshake}
use lando.Wireguard.Replay.{reject_after_messages}
use lando.Wireguard.Timestamp.{from_counter, is_newer_than}
use lando.Wireguard.Transport.{SessionKeys, Session, new_session}
use lando.Wireguard.Peer.{
  Active, Peer, new_peer, install_session, send_session, session_for_index, expire, has_session,
  poll, initiate, accept_handshake_timestamp, mark_handshake_sent,
}
use lando.Wireguard.Peer.Expiry.{
  send_session_lem, session_for_index_lem, session_for_index-install_session, expire_invisible,
}
use lando.Wireguard.Peer.Handshakes.{
  accept_timestamps, accept_handshake_timestamp_replayed, attempts, attempts_bounded,
  poll_in_flight_lem,
}

abbrev keys : ℕ → SessionKeys
keys i = record { send = 1 ∷ []; receive = 2 ∷ []; local_index = i; peer_index = 20 }

abbrev active : ℕ → ℕ → Active
active i t = record {
  session = new_session (keys i);
  established = t;
  last_sent = none;
  last_received = none;
  initiator = true;
}

abbrev peer : Peer
peer = record (new_peer (5 ∷ [])) { current = some (active 7 1000) }

abbrev same : Session → Session
same s = s

send_session_lem_run :
    ((a : Active) × (peer.current ≡ some a)
      × (5000 < a.established + 180_000)
      × (a.session.send_counter < reject_after_messages)
      × (send_session peer 5000 same ≡ (
        record peer { current = some (record a { session = a.session; last_sent = some 5000 }) },
        some a.session,
      )))
    ⊎ ((send_session peer 5000 same ≡ (peer, none))
        × ((a : Active)
            → peer.current ≡ some a
            → 5000 < a.established + 180_000
            → reject_after_messages ≤ a.session.send_counter))
send_session_lem_run = send_session_lem peer 5000 same

found : (session_for_index peer 7 5000 same).1 ≡ some (new_session (keys 7))
unfolding session_for_index new_session
found = refl

session_for_index_lem_run :
    (a : Active) × ((peer.current ≡ some a) ⊎ (peer.previous ≡ some a))
    × (new_session (keys 7) ≡ a.session)
    × (a.session.local_index ≡ 7)
    × (5000 < a.established + 180_000)
session_for_index_lem_run = session_for_index_lem peer 7 5000 same (new_session (keys 7)) found

session_for_index-install_session_example :
    (session_for_index (install_session peer (keys 8) 121_000 true) 7 122_000 same).1
    ≡ some (new_session (keys 7))
unfolding new_session
session_for_index-install_session_example =
    session_for_index-install_session peer (active 7 1000) (keys 8) 121_000 122_000 true same refl
      (λ e. omega arith)

expire_invisible_run :
    ((send_session (expire peer 200_000) 200_000 same).1 ≡ (send_session peer 200_000 same).1)
    × ((session_for_index (expire peer 200_000) 7 200_000 same).1
        ≡ (session_for_index peer 7 200_000 same).1)
    × (has_session (expire peer 200_000) 200_000 ≡ has_session peer 200_000)
    × (poll (expire peer 200_000) 200_000 ≡ poll peer 200_000)
expire_invisible_run = expire_invisible peer 7 200_000 same

first_timestamp : (accept_handshake_timestamp peer (from_counter 9)).1 ≡ ok tt
unfolding accept_handshake_timestamp new_peer
first_timestamp = refl

not_newer : is_newer_than (from_counter 8) (from_counter 9) ≡ false
unfolding is_newer_than from_counter
not_newer = refl

accept_handshake_timestamp_replayed_example :
    (accept_handshake_timestamp
      (accept_timestamps
        (accept_handshake_timestamp peer (from_counter 9)).0
        (from_counter 12 ∷ from_counter 3 ∷ []))
      (from_counter 8)).1
    ≡ err replayed_handshake
accept_handshake_timestamp_replayed_example =
    accept_handshake_timestamp_replayed peer (from_counter 9) (from_counter 8)
      (from_counter 12 ∷ from_counter 3 ∷ []) first_timestamp not_newer

-- Polled every three seconds from the start.
abbrev every_three : List ℕ
every_three = 0 ∷ 3000 ∷ 6000 ∷ 9000 ∷ 12_000 ∷ 95_000 ∷ []

attempts_run : attempts (new_peer []) every_three ≡ 0 ∷ 6000 ∷ 12_000 ∷ []
unfolding attempts poll new_peer mark_handshake_sent
attempts_run = refl

attempts_bounded_example : length (attempts (new_peer []) every_three) ≤ 18
unfolding new_peer
attempts_bounded_example = attempts_bounded (new_peer []) every_three refl refl

poll_in_flight_lem_run :
    poll (record peer { handshake_sent = some 20_000; handshake_started = some 10_000 }) 25_000
    ≡ initiate
poll_in_flight_lem_run =
    poll_in_flight_lem
      (record peer { handshake_sent = some 20_000; handshake_started = some 10_000 }) 10_000 20_000
      25_000 refl refl
