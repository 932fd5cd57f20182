-- ===== src/Wireguard/Peer/Expiry.antt =====
-- Which sessions a peer hands out, and what dropping the expired ones changes.
use lando.Prelude.{
  ℕ, ◌+◌, ◌≤◌, ◌<◌, ◌≡◌, ◌≢◌, refl, Bool, true, ◌||◌, Option, none, some, leb, if◌then◌else◌, arith,
  inl, inr, ◌⊎◌, Option-cases, Bool-cases,
}
use lando.Wireguard.Replay.{reject_after_messages}
use lando.Wireguard.Transport.{SessionKeys, Session, new_session}
use lando.Wireguard.Peer.{
  Active, Peer, reject_after_time, expired, install_session, send_session, session_for_index,
  addressed, session_of, expire, has_session, poll,
}

-- A session in use at `now`: it was established less than 180 seconds before.
abbrev Fresh : Active → ℕ → Type 0
Fresh a now = now < a.established + reject_after_time

-- `send_session` hands out the current session, unless it is missing, 180 seconds old, or at the
-- message limit; and only then is the send time noted, with no other slot touched.
pub send_session_lem :
    (p : Peer) (now : ℕ) (f : Session → Session)
    → ((a : Active) × (p.current ≡ some a)
        × Fresh a now
        × (a.session.send_counter < reject_after_messages)
        × (send_session p now f ≡ (
          record p { current = some (record a { session = f a.session; last_sent = some now }) },
          some a.session,
        )))
      ⊎ ((send_session p now f ≡ (p, none))
          × ((a : Active)
              → p.current ≡ some a
              → Fresh a now
              → reject_after_messages ≤ a.session.send_counter))
unfolding send_session
send_session_lem p now f = elim (Option-cases p.current) [
  | inl e ↦ inr (ground arith, λ a e' h. ground arith)
  | inr (a, e) ↦
      elim (Bool-cases (expired a now || leb reject_after_messages a.session.send_counter)) [
        | inl old ↦ inr (ground arith, λ b e' h. ground arith)
        | inr new ↦ inl (a, e, ground arith, ground arith, ground arith)
      ]
]

slot_lem :
    (o : Option Active) (index now : ℕ) (s : Session)
    → addressed o index now ≡ true
    → session_of o ≡ some s
    → (a : Active) × (o ≡ some a) × (s ≡ a.session) × (a.session.local_index ≡ index) × Fresh a now
unfolding expired
slot_lem none index now s h e = cc
slot_lem (some a) index now s h e = (a, refl, ground arith, ground arith, ground arith)

-- What `session_for_index` hands out belongs to a slot with that index that has not expired.
pub session_for_index_lem :
    (p : Peer) (index now : ℕ) (f : Session → Session) (s : Session)
    → (session_for_index p index now f).1 ≡ some s
    → (a : Active) × ((p.current ≡ some a) ⊎ (p.previous ≡ some a))
      × (s ≡ a.session)
      × (a.session.local_index ≡ index)
      × Fresh a now
unfolding session_for_index
session_for_index_lem p index now f s h = elim (Bool-cases (addressed p.current index now)) [
  | inl here ↦
      let (a, e, same, idx, fresh) = slot_lem p.current index now s here (ground arith) in
      (a, inl e, same, idx, fresh)
  | inr other ↦ elim (Bool-cases (addressed p.previous index now)) [
    | inl here ↦
        let (a, e, same, idx, fresh) = slot_lem p.previous index now s here (ground arith) in
        (a, inr e, same, idx, fresh)
    | inr neither ↦ ground arith
  ]
]

-- While a rekey is in flight, a packet for the retired session's index still finds that session
-- exactly until it expires, if the new session has another index.
pub session_for_index-install_session :
    (p : Peer) (a : Active) (keys : SessionKeys) (t now : ℕ) (b : Bool) (f : Session → Session)
    → p.current ≡ some a
    → keys.local_index ≢ a.session.local_index
    → (session_for_index (install_session p keys t b) a.session.local_index now f).1
      ≡ (if leb (a.established + reject_after_time) now then none else some a.session)
unfolding session_for_index install_session new_session
session_for_index-install_session p a keys t now b f e ne = ground arith

-- Dropping the expired sessions changes none of the peer's answers at that time.
pub expire_invisible :
    (p : Peer) (index now : ℕ) (f : Session → Session)
    → ((send_session (expire p now) now f).1 ≡ (send_session p now f).1)
      × ((session_for_index (expire p now) index now f).1 ≡ (session_for_index p index now f).1)
      × (has_session (expire p now) now ≡ has_session p now)
      × (poll (expire p now) now ≡ poll p now)
unfolding expire send_session session_for_index has_session poll
expire_invisible p index now f = (ground arith, ground arith, ground arith, ground arith)
