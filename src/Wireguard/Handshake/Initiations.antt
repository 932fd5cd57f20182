-- ===== src/Wireguard/Handshake/Initiations.antt =====
-- An initiation: what the initiator writes, and what the responder learns of it.
use lando.Prelude.{
  ℕ, ◌^◌, ◌<◌, ◌≡◌, refl, sym, ap, ◌∙◌, true, List, [], ◌∷◌, ◌++◌, length, get_or, take, drop, over,
  replicate, ok, ◌==◌, arith,
}
use lando.Prelude.Bytes.{Bytes, slice, copy_at, to_le, from_le, from_le-to_le, eq_bytes_refl}
use lando.Prelude.Fields.{
  joined, offset, length-joined, slice-joined, copy_at-field, take-joined, over-joined,
  take-joined_append,
}
use lando.Crypto.{Suite, SuiteLaws}
use lando.Crypto.Blake.Lengths.{length-kdf, length-keyed_mac}
use lando.Wireguard.Message.{mac1}
use lando.Wireguard.Timestamp.{Tai64n}
use lando.Wireguard.Handshake.{
  State, Initiator, Responder, Initiation, new_state, mix_hash, mix_key, mix_key_and_cipher,
  new_initiator, consume_initiation,
}
use lando.Wireguard.Handshake.Seals.{Sealed, sealed}

pub length-cipher :
    (suite : Suite) (laws : SuiteLaws suite) (s : State) (input : Bytes)
    → length (mix_key_and_cipher suite s input).1 ≡ 32
unfolding mix_key_and_cipher
length-cipher suite laws s input = length-kdf suite laws 2 1 s.c input (omega arith)

pub length-mac1 :
    (suite : Suite) (laws : SuiteLaws suite) (key prefix : Bytes)
    → length (mac1 suite key prefix) ≡ 16
unfolding mac1
length-mac1 suite laws key prefix = length-keyed_mac suite laws _ _

module _ (suite : Suite) (laws : SuiteLaws suite) (mine theirs ephemeral : Bytes) (local_index : ℕ)
    (timestamp : Tai64n) (twelve : length timestamp ≡ 12) where
  abbrev peer : Bytes
  peer = suite.public theirs

  abbrev pub ephemeral_pub : Bytes
  ephemeral_pub = suite.public ephemeral

  -- The state once the ephemeral key is mixed in, and the two texts that are sealed after it.
  abbrev started : State
  started = mix_hash suite (mix_key suite (new_state suite peer) ephemeral_pub) ephemeral_pub

  abbrev first : State × Bytes
  first = mix_key_and_cipher suite started (suite.shared ephemeral peer)

  abbrev sealed_static : Sealed suite first.0 first.1 (suite.public mine)
  sealed_static =
      sealed suite laws first.0 first.1 (suite.public mine)
        (length-cipher suite laws started (suite.shared ephemeral peer))
        (omega (arith, laws.length-public mine))

  abbrev second : State × Bytes
  second = mix_key_and_cipher suite sealed_static.after (suite.shared mine peer)

  abbrev pub sealed_timestamp : Sealed suite second.0 second.1 timestamp
  sealed_timestamp =
      sealed suite laws second.0 second.1 timestamp
        (length-cipher suite laws sealed_static.after (suite.shared mine peer)) (omega arith)

  abbrev fields : List Bytes
  fields =
      (1 ∷ 0 ∷ 0 ∷ 0 ∷ [])
      ∷ to_le 4 local_index
      ∷ ephemeral_pub
      ∷ sealed_static.bytes
      ∷ sealed_timestamp.bytes
      ∷ []

  abbrev mac : Bytes
  mac = mac1 suite peer (joined fields)

  abbrev pub initiation : Bytes
  initiation = joined (fields ++ mac ∷ replicate 16 0 ∷ [])

  abbrev pub initiator : Initiator
  initiator = record {
    state = sealed_timestamp.after;
    ephemeral = ephemeral;
    static_private = mine;
    local_index = local_index;
  }

  abbrev blank : Bytes
  blank = replicate 148 0

  sizes :
      (length ephemeral_pub ≡ 32)
      × (length sealed_static.bytes ≡ 48)
      × (length sealed_timestamp.bytes ≡ 28)
      × (length mac ≡ 16)
  sizes = (
    laws.length-public ephemeral,
    omega (arith, sealed_static.size, laws.length-public mine),
    omega (arith, sealed_timestamp.size),
    length-mac1 suite laws peer (joined fields),
  )

  -- The buffer as the fields are written.
  filled :
      copy_at
        (copy_at
          (copy_at (copy_at (copy_at blank 0 (1 ∷ [])) 4 (to_le 4 local_index)) 8 ephemeral_pub)
          40
          sealed_static.bytes)
        88
        sealed_timestamp.bytes
      ≡ over (joined fields) blank
  filled =
      let (e, s, t, m) = sizes in
      let start : List Bytes = (1 ∷ 0 ∷ 0 ∷ 0 ∷ []) ∷ [] in
      ap
        (λ b.
          copy_at (copy_at (copy_at b 8 ephemeral_pub) 40 sealed_static.bytes) 88
            sealed_timestamp.bytes)
        (copy_at-field start (to_le 4 local_index) blank 4 refl)
      ∙ ap (λ b. copy_at (copy_at b 40 sealed_static.bytes) 88 sealed_timestamp.bytes)
          (copy_at-field (start ++ to_le 4 local_index ∷ []) ephemeral_pub blank 8 refl)
      ∙ ap (λ b. copy_at b 88 sealed_timestamp.bytes)
          (copy_at-field (start ++ to_le 4 local_index ∷ ephemeral_pub ∷ []) sealed_static.bytes
            blank 40 (omega (arith, e)))
      ∙ copy_at-field (start ++ to_le 4 local_index ∷ ephemeral_pub ∷ sealed_static.bytes ∷ [])
          sealed_timestamp.bytes blank 88 (omega (arith, e, s))

  finished :
      copy_at
        (over (joined fields) blank)
        116
        (mac1 suite peer (take 116 (over (joined fields) blank)))
      ≡ initiation
  finished =
      let (e, s, t, m) = sizes in
      ap (λ p. copy_at (over (joined fields) blank) 116 (mac1 suite peer p))
        (take-joined fields blank 116 (omega (arith, e, s, t)))
      ∙ copy_at-field fields mac blank 116 (omega (arith, e, s, t))
      ∙ over-joined (fields ++ mac ∷ []) blank 132 (omega (arith, e, s, t, m))

  pub new_initiator-initiation :
      new_initiator suite mine peer ephemeral local_index timestamp ≡ ok (initiator, initiation)
  unfolding new_initiator
  new_initiator-initiation = rw (sealed_static.seals 48 (omega (arith, laws.length-public mine))) (
      rw (sealed_timestamp.seals 28 (omega arith)) (
        ap (λ b. ok (initiator, copy_at b 116 (mac1 suite peer (take 116 b)))) filled
        ∙ ap (λ b. ok (initiator, b)) finished))

  -- What the responder makes of it.
  abbrev pub responder : Responder
  responder = record {
    state = sealed_timestamp.after;
    static_private = theirs;
    peer_static = suite.public mine;
    peer_ephemeral = ephemeral_pub;
    peer_index = local_index;
  }

  abbrev pub learned : Initiation
  learned = record {
    peer_static = suite.public mine;
    timestamp = timestamp;
    peer_index = local_index;
  }

  field_at :
      (i start n : ℕ) (f : Bytes) (rest : List Bytes)
      → drop i (fields ++ mac ∷ replicate 16 0 ∷ []) ≡ f ∷ rest
      → start ≡ offset (fields ++ mac ∷ replicate 16 0 ∷ []) i
      → n ≡ length f
      → slice initiation start n ≡ f
  field_at i start n f rest = slice-joined (fields ++ mac ∷ replicate 16 0 ∷ []) rest f i start n

  -- The responder on any message with these fields.
  consumes :
      (msg : Bytes)
      → length msg ≡ 148
      → get_or msg 0 0 ≡ 1
      → take 116 msg ≡ joined fields
      → slice msg 116 16 ≡ mac
      → from_le (slice msg 4 4) ≡ local_index
      → slice msg 8 32 ≡ ephemeral_pub
      → slice msg 40 48 ≡ sealed_static.bytes
      → slice msg 88 28 ≡ sealed_timestamp.bytes
      → consume_initiation suite theirs msg ≡ ok (responder, learned)
  unfolding consume_initiation
  consumes msg whole kind prefix check index key boxed stamp =
      let whole_test : (length msg == 148) ≡ true = ground arith in
      let kind_test : (get_or msg 0 0 == 1) ≡ true = ground arith in
      let sized : slice msg 116 (length mac) ≡ mac =
        ap (slice msg 116) (length-mac1 suite laws peer (joined fields)) ∙ check in
      let same = laws.shared-public theirs ephemeral in
      let same' = laws.shared-public theirs mine in
      rw (whole_test, kind_test)
        (rw prefix (
          rw (sized, eq_bytes_refl mac)
            (rw (key, index, boxed, stamp)
              (rw same (
                rw (sealed_static.opens 32 (sym (laws.length-public mine)))
                  (rw same' (rw (sealed_timestamp.opens 12 (sym twelve)) refl)))))))

  pub consume_initiation-initiation :
      local_index < 2 ^ 32 → consume_initiation suite theirs initiation ≡ ok (responder, learned)
  unfolding consume_initiation
  consume_initiation-initiation small =
      let (e, s, t, m) = sizes in
      let whole : length initiation ≡ 148 =
        omega (arith, length-joined (fields ++ mac ∷ replicate 16 0 ∷ []), e, s, t, m) in
      let index = field_at 1 4 4 (to_le 4 local_index) _ refl refl refl in
      let key = field_at 2 8 32 ephemeral_pub _ refl refl (sym e) in
      let boxed = field_at 3 40 48 sealed_static.bytes _ refl (omega (arith, e)) (sym s) in
      let stamp = field_at 4 88 28 sealed_timestamp.bytes _ refl (omega (arith, e, s)) (sym t) in
      consumes initiation whole refl
        (take-joined_append fields (mac ∷ replicate 16 0 ∷ []) 116 (omega (arith, e, s, t)))
        (field_at 5 116 16 mac _ refl (omega (arith, e, s, t)) (sym m))
        (ap from_le index ∙ from_le-to_le 4 local_index small) key boxed stamp
