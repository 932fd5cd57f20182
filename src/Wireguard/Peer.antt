-- ===== src/Wireguard/Peer.antt =====
-- The session lifecycle and timers of crates/tailscale-core/src/wireguard/peer.rs. An `Instant` is
-- a number of milliseconds, `saturating_sub` the subtraction of ℕ. A method that hands out a
-- `&mut Session` takes the caller's use of it as a function on the session.
pub mod Expiry
pub mod Handshakes
mod Tests
use lando.Prelude.{
  ℕ, ◌-◌, ◌^◌, Bool, true, false, not, ◌&&◌, ◌||◌, Option, none, some, leb, ◌==◌, if◌then◌else◌,
  Result, ok, err,
}
use lando.Prelude.Bytes.{Bytes}
use lando.Wireguard.Message.{WgError, replayed_handshake}
use lando.Wireguard.Replay.{reject_after_messages}
use lando.Wireguard.Timestamp.{Tai64n, is_newer_than}
use lando.Wireguard.Transport.{SessionKeys, Session, new_session}

abbrev pub rekey_after_time : ℕ
rekey_after_time = 120_000

abbrev pub reject_after_time : ℕ
reject_after_time = 180_000

abbrev pub rekey_timeout : ℕ
rekey_timeout = 5_000

abbrev pub rekey_attempt_time : ℕ
rekey_attempt_time = 90_000

abbrev pub keepalive_timeout : ℕ
keepalive_timeout = 10_000

abbrev pub rekey_after_messages : ℕ
rekey_after_messages = 2 ^ 60

pub data Action : Type 0 where
  idle : Action
  initiate : Action
  keepalive : Action

pub record Active : Type 0 where
  pub session : Session
  pub established : ℕ
  pub last_sent : Option ℕ
  pub last_received : Option ℕ
  pub initiator : Bool

unfoldable pub expired : Active → ℕ → Bool
expired a now = leb reject_after_time (now - a.established)

unfoldable pub due_for_rekey : Active → ℕ → Bool
due_for_rekey a now =
    a.initiator
    && (leb rekey_after_time (now - a.established)
        || leb rekey_after_messages a.session.send_counter)

unfoldable pub owes_keepalive : Active → ℕ → Bool
owes_keepalive a now = elim a.last_received [
  | none ↦ false
  | some received ↦
      if (elim a.last_sent [ none ↦ false | some s ↦ leb received s ])
      then false
      else leb keepalive_timeout (now - received)
]

pub record Peer : Type 0 where
  pub static_public : Bytes
  pub current : Option Active
  pub previous : Option Active
  pub last_handshake_timestamp : Option Tai64n
  pub handshake_sent : Option ℕ
  pub handshake_started : Option ℕ

-- `Peer::new`
unfoldable pub new_peer : Bytes → Peer
new_peer static_public = record {
  static_public = static_public;
  current = none;
  previous = none;
  last_handshake_timestamp = none;
  handshake_sent = none;
  handshake_started = none;
}

unfoldable pub accept_handshake_timestamp : Peer → Tai64n → Peer × Result WgError (Unit {0})
accept_handshake_timestamp p ts =
    if (elim p.last_handshake_timestamp [ none ↦ false | some prev ↦ not (is_newer_than ts prev) ])
    then (p, err replayed_handshake)
    else (record p { last_handshake_timestamp = some ts }, ok tt)

-- The method `handshake_sent`.
unfoldable pub mark_handshake_sent : Peer → ℕ → Peer
mark_handshake_sent p now = record p {
  handshake_sent = some now;
  handshake_started = some (elim p.handshake_started [ none ↦ now | some s ↦ s ]);
}

unfoldable pub install_session : Peer → SessionKeys → ℕ → Bool → Peer
install_session p keys now initiator = record p {
  previous = p.current;
  current = some (record {
    session = new_session keys;
    established = now;
    last_sent = none;
    last_received = none;
    initiator = initiator;
  });
  handshake_sent = none;
  handshake_started = none;
}

-- The answer is the session as it was found; `f` is what the caller makes of it.
unfoldable pub send_session : Peer → ℕ → (Session → Session) → Peer × Option Session
unfolding expired
send_session p now f = elim p.current [
  | none ↦ (p, none)
  | some a ↦
      if expired a now || leb reject_after_messages a.session.send_counter then (p, none) else (
        record p { current = some (record a { session = f a.session; last_sent = some now }) },
        some a.session,
      )
]

-- The test that a slot is the one that a packet is addressed to.
abbrev pub addressed : Option Active → ℕ → ℕ → Bool
addressed none index now = false
addressed (some a) index now = a.session.local_index == index && not (expired a now)

-- A slot after its session was handed out.
abbrev pub received_on : ℕ → (Session → Session) → Option Active → Option Active
received_on now f none = none
received_on now f (some a) = some (record a { session = f a.session; last_received = some now })

abbrev pub session_of : Option Active → Option Session
session_of none = none
session_of (some a) = some a.session

-- The current slot first, then the previous one.
unfoldable pub session_for_index : Peer → ℕ → ℕ → (Session → Session) → Peer × Option Session
unfolding expired
session_for_index p index now f =
    if addressed p.current index now
    then (record p { current = received_on now f p.current }, session_of p.current)
    else if addressed p.previous index now
    then (record p { previous = received_on now f p.previous }, session_of p.previous)
    else (p, none)

abbrev pub drop_expired : ℕ → Option Active → Option Active
drop_expired now none = none
drop_expired now (some a) = if expired a now then none else some a

unfoldable pub expire : Peer → ℕ → Peer
unfolding expired
expire p now = record p {
  current = drop_expired now p.current;
  previous = drop_expired now p.previous;
}

unfoldable pub has_session : Peer → ℕ → Bool
unfolding expired
has_session p now = elim p.current [ none ↦ false | some a ↦ not (expired a now) ]

-- What `poll` decides from the current slot, once no handshake is in flight.
abbrev pub poll_current : Option Active → ℕ → Action
poll_current none now = initiate
poll_current (some a) now =
    if expired a now
    then initiate
    else if due_for_rekey a now
    then initiate
    else if owes_keepalive a now
    then keepalive
    else idle

unfoldable pub poll : Peer → ℕ → Action
unfolding expired due_for_rekey owes_keepalive
poll p now = elim p.handshake_sent [
  | some sent ↦
      if (elim p.handshake_started [ none ↦ false | some s ↦ leb rekey_attempt_time (now - s) ])
      then idle
      else if leb rekey_timeout (now - sent)
      then initiate
      else idle
  | none ↦ poll_current p.current now
]
