-- ===== src/Wireguard/Handshake/Responses.antt =====
-- A response: what the responder writes, and what the initiator makes of it.
use lando.Prelude.{
  ℕ, ◌^◌, ◌<◌, ◌≡◌, refl, sym, ap, ◌∙◌, true, List, [], ◌∷◌, ◌++◌, length, get_or, take, over,
  replicate, ok, ◌==◌, arith,
}
use lando.Prelude.Bytes.{Bytes, slice, copy_at, to_le, from_le, from_le-to_le}
use lando.Prelude.Fields.{
  joined, length-joined, slice-joined, copy_at-field, take-joined, over-joined,
}
use lando.Crypto.{Suite, SuiteLaws}
use lando.Crypto.Blake.Lengths.{length-kdf}
use lando.Wireguard.Message.{mac1}
use lando.Wireguard.Transport.{SessionKeys}
use lando.Wireguard.Handshake.{
  State, Initiator, Responder, mix_hash, mix_key, mix_psk, split, respond, consume_response,
}
use lando.Wireguard.Handshake.Seals.{Sealed, sealed}
use lando.Wireguard.Handshake.Initiations.{length-mac1}

pub length-psk_cipher :
    (suite : Suite) (laws : SuiteLaws suite) (s : State) → length (mix_psk suite s).1 ≡ 32
unfolding mix_psk
length-psk_cipher suite laws s = length-kdf suite laws 3 2 s.c _ (omega arith)

module _ (suite : Suite) (laws : SuiteLaws suite) (state : State)
    (mine theirs my_ephemeral ephemeral : Bytes) (my_index index : ℕ) where
  abbrev pub initiator : Initiator
  initiator = record {
    state = state;
    ephemeral = my_ephemeral;
    static_private = mine;
    local_index = my_index;
  }

  abbrev pub responder : Responder
  responder = record {
    state = state;
    static_private = theirs;
    peer_static = suite.public mine;
    peer_ephemeral = suite.public my_ephemeral;
    peer_index = my_index;
  }

  abbrev key : Bytes
  key = suite.public ephemeral

  abbrev mixed : State
  mixed =
      mix_key suite
        (mix_key suite (mix_hash suite (mix_key suite state key) key)
          (suite.shared ephemeral (suite.public my_ephemeral)))
        (suite.shared ephemeral (suite.public mine))

  abbrev boxed : State × Bytes
  boxed = mix_psk suite mixed

  abbrev sealed_empty : Sealed suite boxed.0 boxed.1 []
  sealed_empty =
      sealed suite laws boxed.0 boxed.1 [] (length-psk_cipher suite laws mixed) (omega arith)

  abbrev fields : List Bytes
  fields = (2 ∷ 0 ∷ 0 ∷ 0 ∷ []) ∷ to_le 4 index ∷ to_le 4 my_index ∷ key ∷ sealed_empty.bytes ∷ []

  abbrev mac : Bytes
  mac = mac1 suite (suite.public mine) (joined fields)

  abbrev pub response : Bytes
  response = joined (fields ++ mac ∷ replicate 16 0 ∷ [])

  abbrev blank : Bytes
  blank = replicate 92 0

  -- The keys of the two sides.
  abbrev pub both : Bytes × Bytes
  both = split suite sealed_empty.after

  abbrev pub their_keys : SessionKeys
  their_keys = record {
    send = both.1;
    receive = both.0;
    local_index = index;
    peer_index = my_index;
  }

  abbrev pub my_keys : SessionKeys
  my_keys = record { send = both.0; receive = both.1; local_index = my_index; peer_index = index }

  sizes : (length key ≡ 32) × (length sealed_empty.bytes ≡ 16) × (length mac ≡ 16)
  sizes =
      (laws.length-public ephemeral, sealed_empty.size, length-mac1 suite laws _ (joined fields))

  filled :
      copy_at
        (copy_at
          (copy_at (copy_at (copy_at blank 0 (2 ∷ [])) 4 (to_le 4 index)) 8 (to_le 4 my_index))
          12
          key)
        44
        sealed_empty.bytes
      ≡ over (joined fields) blank
  filled =
      let (k, s, m) = sizes in
      let start : List Bytes = (2 ∷ 0 ∷ 0 ∷ 0 ∷ []) ∷ [] in
      ap (λ b. copy_at (copy_at (copy_at b 8 (to_le 4 my_index)) 12 key) 44 sealed_empty.bytes)
        (copy_at-field start (to_le 4 index) blank 4 refl)
      ∙ ap (λ b. copy_at (copy_at b 12 key) 44 sealed_empty.bytes)
          (copy_at-field (start ++ to_le 4 index ∷ []) (to_le 4 my_index) blank 8 refl)
      ∙ ap (λ b. copy_at b 44 sealed_empty.bytes)
          (copy_at-field (start ++ to_le 4 index ∷ to_le 4 my_index ∷ []) key blank 12 refl)
      ∙ copy_at-field (start ++ to_le 4 index ∷ to_le 4 my_index ∷ key ∷ []) sealed_empty.bytes
          blank 44 (omega (arith, k))

  finished :
      copy_at
        (over (joined fields) blank)
        60
        (mac1 suite (suite.public mine) (take 60 (over (joined fields) blank)))
      ≡ response
  finished =
      let (k, s, m) = sizes in
      ap (λ p. copy_at (over (joined fields) blank) 60 (mac1 suite (suite.public mine) p))
        (take-joined fields blank 60 (omega (arith, k, s)))
      ∙ copy_at-field fields mac blank 60 (omega (arith, k, s))
      ∙ over-joined (fields ++ mac ∷ []) blank 76 (omega (arith, k, s, m))

  pub respond-response : respond suite responder ephemeral index ≡ ok (response, their_keys)
  unfolding respond
  respond-response = rw (sealed_empty.seals 16 refl) (
      ap (λ b. ok (copy_at b 60 (mac1 suite (suite.public mine) (take 60 b)), their_keys)) filled
      ∙ ap (λ b. ok (b, their_keys)) finished)

  -- The initiator on any message with these fields.
  consumes :
      (msg : Bytes)
      → length msg ≡ 92
      → get_or msg 0 0 ≡ 2
      → from_le (slice msg 4 4) ≡ index
      → slice msg 12 32 ≡ key
      → slice msg 44 16 ≡ sealed_empty.bytes
      → consume_response suite initiator msg ≡ ok my_keys
  unfolding consume_response
  consumes msg whole kind sender found tag =
      let whole_test : (length msg == 92) ≡ true = ground arith in
      let kind_test : (get_or msg 0 0 == 2) ≡ true = ground arith in
      rw (whole_test, kind_test)
        (rw (found, sender, tag)
          (rw (laws.shared-public my_ephemeral ephemeral, laws.shared-public mine ephemeral)
            (rw (sealed_empty.opens 0 refl) refl)))

  pub consume_response-response :
      index < 2 ^ 32 → consume_response suite initiator response ≡ ok my_keys
  consume_response-response small =
      let (k, s, m) = sizes in
      let all = fields ++ mac ∷ replicate 16 0 ∷ [] in
      consumes response (omega (arith, length-joined all, k, s, m)) refl
        (ap from_le (slice-joined all _ (to_le 4 index) 1 4 4 refl refl refl)
          ∙ from_le-to_le 4 index small)
        (slice-joined all _ key 3 12 32 refl refl (sym k))
        (slice-joined all _ sealed_empty.bytes 4 44 16 refl (omega (arith, k)) (sym s))
