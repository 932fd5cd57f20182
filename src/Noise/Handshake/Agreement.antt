-- ===== src/Noise/Handshake/Agreement.antt =====
-- The client and the server agree.
use lando.Prelude.{
  ℕ, ◌-◌, ◌^◌, ◌<◌, ◌≡◌, refl, sym, ap, ◌∙◌, true, false, List, [], ◌∷◌, ◌++◌, length, get_or, take,
  replicate, ltb, ok, ◌==◌, arith, append-nil,
}
use lando.Prelude.Bytes.{Bytes, slice, copy_at, to_be, from_be, from_be-to_be}
use lando.Prelude.Fields.{joined, length-joined, slice-joined, copy_at-field, over-joined}
use lando.Crypto.{Suite, SuiteLaws}
use lando.Crypto.Blake.{kdf}
use lando.Crypto.Blake.Lengths.{length-kdf}
use lando.Noise.{Session}
use lando.Noise.Handshake.{
  SymmetricState, Handshake, prologue, initialize, mix_hash, mix_dh, split, start, finish_with,
  finish,
}
use lando.Noise.Handshake.Seals.{Sealed, sealed}
use lando.Noise.Handshake.Spec.{spec_ops}
use lando.Noise.Handshake.Follows.{client_ops, prologue_lem, spec_ops-client_ops}
use lando.Noise.Handshake.Server.{Served, answer, serve}

pub length-cipher :
    (suite : Suite) (laws : SuiteLaws suite) (s : SymmetricState) (private public : Bytes)
    → length (mix_dh suite s private public).1 ≡ 32
unfolding mix_dh
length-cipher suite laws s private public = length-kdf suite laws 2 1 s.ck _ (omega arith)

mix_dh-public :
    (suite : Suite) (laws : SuiteLaws suite) (s : SymmetricState) (a b : Bytes)
    → mix_dh suite s a (suite.public b) ≡ mix_dh suite s b (suite.public a)
unfolding mix_dh
mix_dh-public suite laws s a b =
    ap
      (λ secret.
        let blocks = kdf suite 2 s.ck secret in
        (record s { ck = get_or blocks 0 [] }, get_or blocks 1 []))
      (laws.shared-public a b)

module _ (suite : Suite) (laws : SuiteLaws suite) (machine control : Bytes) (version : ℕ)
    (ephemeral theirs : Bytes) where
  abbrev server : Bytes
  server = suite.public control

  abbrev key : Bytes
  key = suite.public ephemeral

  abbrev hashed : SymmetricState
  hashed =
      mix_hash suite (mix_hash suite (mix_hash suite (initialize suite) (prologue version)) server)
        key

  abbrev first : SymmetricState × Bytes
  first = mix_dh suite hashed ephemeral server

  abbrev sealed_key : Sealed suite first.0 first.1 (suite.public machine)
  sealed_key =
      sealed suite laws first.0 first.1 (suite.public machine)
        (length-cipher suite laws hashed ephemeral server)
        (omega (arith, laws.length-public machine))

  abbrev second : SymmetricState × Bytes
  second = mix_dh suite sealed_key.after machine server

  abbrev sealed_empty : Sealed suite second.0 second.1 []
  sealed_empty =
      sealed suite laws second.0 second.1 []
        (length-cipher suite laws sealed_key.after machine server) (omega arith)

  abbrev fields : List Bytes
  fields =
      to_be 2 version ∷ (1 ∷ []) ∷ to_be 2 96 ∷ key ∷ sealed_key.bytes ∷ sealed_empty.bytes ∷ []

  abbrev pub initiation : Bytes
  initiation = joined (fields ++ [] ∷ [])

  abbrev pub client : Handshake
  client = record { state = sealed_empty.after; machine_key = machine; ephemeral = ephemeral }

  abbrev blank : Bytes
  blank = replicate 101 0

  sizes : (length key ≡ 32) × (length sealed_key.bytes ≡ 48) × (length sealed_empty.bytes ≡ 16)
  sizes = (
    laws.length-public ephemeral,
    omega (arith, sealed_key.size, laws.length-public machine),
    sealed_empty.size,
  )

  filled :
      copy_at
        (copy_at
          (copy_at
            (copy_at (copy_at (copy_at blank 0 (to_be 2 version)) 2 (1 ∷ [])) 3 (to_be 2 96))
            5
            key)
          37
          sealed_key.bytes)
        85
        sealed_empty.bytes
      ≡ initiation
  filled =
      let (k, s, t) = sizes in
      ap (λ b. copy_at (copy_at (copy_at b 5 key) 37 sealed_key.bytes) 85 sealed_empty.bytes)
        (copy_at-field (to_be 2 version ∷ (1 ∷ []) ∷ []) (to_be 2 96) blank 3 refl)
      ∙ ap (λ b. copy_at (copy_at b 37 sealed_key.bytes) 85 sealed_empty.bytes)
          (copy_at-field (to_be 2 version ∷ (1 ∷ []) ∷ to_be 2 96 ∷ []) key blank 5 refl)
      ∙ ap (λ b. copy_at b 85 sealed_empty.bytes)
          (copy_at-field (to_be 2 version ∷ (1 ∷ []) ∷ to_be 2 96 ∷ key ∷ []) sealed_key.bytes blank
            37 (omega (arith, k)))
      ∙ copy_at-field (to_be 2 version ∷ (1 ∷ []) ∷ to_be 2 96 ∷ key ∷ sealed_key.bytes ∷ [])
          sealed_empty.bytes blank 85 (omega (arith, k, s))
      ∙ over-joined fields blank 101 (omega (arith, k, s, t))

  start-initiation : start suite machine server version ephemeral ≡ ok (client, initiation)
  unfolding start
  start-initiation =
      rw (sealed_key.seals 48 (omega (arith, laws.length-public machine)))
        (rw (sealed_empty.seals 16 refl) (ap (λ b. ok (client, b)) filled))

  -- The answer, and what it is sealed in.
  abbrev their_key : Bytes
  their_key = suite.public theirs

  abbrev answered : SymmetricState
  answered = (mix_dh suite (mix_hash suite sealed_empty.after their_key) theirs key).0

  abbrev third : SymmetricState × Bytes
  third = mix_dh suite answered theirs (suite.public machine)

  abbrev sealed_answer : Sealed suite third.0 third.1 []
  sealed_answer =
      sealed suite laws third.0 third.1 []
        (length-cipher suite laws answered theirs (suite.public machine)) (omega arith)

  abbrev response : Bytes
  response = (2 ∷ 0 ∷ 48 ∷ []) ++ (their_key ++ sealed_answer.bytes)

  abbrev both : Bytes × Bytes
  both = split suite sealed_answer.after

  abbrev session_of : Bytes → Bytes → Session
  session_of tx rx = record {
    tx = tx;
    rx = rx;
    tx_nonce = 0;
    rx_nonce = 0;
    handshake_hash = sealed_answer.after.h;
  }

  answer_lem :
      answer suite (client_ops suite) sealed_empty.after theirs key (suite.public machine)
      ≡ ok (response, sealed_answer.after)
  unfolding answer
  answer_lem = rw (sealed_answer.seals 16 refl) refl

  abbrev what_it_serves : Served
  what_it_serves = record {
    response = response;
    client = suite.public machine;
    session = session_of both.1 both.0;
  }

  serves :
      (msg : Bytes)
      → length msg ≡ 101
      → get_or msg 2 0 ≡ 1
      → from_be (slice msg 3 2) ≡ 96
      → from_be (take 2 msg) ≡ version
      → slice msg 5 32 ≡ key
      → slice msg 37 48 ≡ sealed_key.bytes
      → slice msg 85 16 ≡ sealed_empty.bytes
      → version < 2 ^ 16
      → serve suite (client_ops suite) control theirs msg ≡ ok what_it_serves
  unfolding serve
  serves msg whole kind declared says k s t small =
      let whole_test : (length msg == 101) ≡ true = ground arith in
      let kind_test : (get_or msg 2 0 == 1) ≡ true = ground arith in
      let declared_test : (from_be (slice msg 3 2) == 96) ≡ true = ground arith in
      rw (whole_test, kind_test, declared_test)
        (rw (says, k, s, t)
          (rw (prologue_lem version small) (
            rw (same_secret) (
              rw (sealed_key.opens (length sealed_key.bytes - 16) (omega (arith, sealed_key.size)))
                (rw (same_secret') (
                  rw
                    (sealed_empty.opens (length sealed_empty.bytes - 16)
                      (omega (arith, sealed_empty.size)))
                    (rw answer_lem refl)))))))
    where
      same_secret : mix_dh suite hashed control key ≡ first
      same_secret = mix_dh-public suite laws hashed control ephemeral

      same_secret' : mix_dh suite sealed_key.after control (suite.public machine) ≡ second
      same_secret' = mix_dh-public suite laws sealed_key.after control machine

  finishes :
      (resp : Bytes)
      → length resp ≡ 51
      → get_or resp 0 0 ≡ 2
      → slice resp 1 2 ≡ to_be 2 48
      → slice resp 3 32 ≡ their_key
      → slice resp 35 16 ≡ sealed_answer.bytes
      → finish suite client resp ≡ ok (session_of both.0 both.1)
  unfolding finish finish_with
  finishes resp whole kind declared k t =
      let whole_test : (length resp == 51) ≡ true = ground arith in
      let enough : ltb (length resp) 3 ≡ false = ground arith in
      rw (enough, kind, declared, whole_test)
        (rw (k, t)
          (rw
            (mix_dh-public suite laws (mix_hash suite sealed_empty.after their_key) ephemeral
              theirs)
            (rw (mix_dh-public suite laws answered machine theirs)
              (rw (sealed_answer.opens 0 refl) refl))))

  finish-response : finish suite client response ≡ ok (session_of both.0 both.1)
  finish-response =
      let k = laws.length-public theirs in
      let t = sealed_answer.size in
      let all : List Bytes = (2 ∷ []) ∷ (0 ∷ 48 ∷ []) ∷ their_key ∷ sealed_answer.bytes ∷ [] in
      let same : joined all ≡ response =
        ap (λ e. (2 ∷ 0 ∷ 48 ∷ []) ++ (their_key ++ e)) (append-nil sealed_answer.bytes) in
      finishes response (ap length (sym same) ∙ omega (arith, length-joined all, k, t)) refl refl
        (ap (λ m. slice m 3 32) (sym same) ∙ slice-joined all _ their_key 2 3 32 refl refl (sym k))
        (ap (λ m. slice m 35 16) (sym same)
          ∙ slice-joined all _ sealed_answer.bytes 3 35 16 refl (omega (arith, k)) (sym t))

  serve-initiation :
      version < 2 ^ 16 → serve suite (spec_ops suite) control theirs initiation ≡ ok what_it_serves
  serve-initiation small =
      let (k, s, t) = sizes in
      let all = fields ++ [] ∷ [] in
      ap (λ ops. serve suite ops control theirs initiation) (spec_ops-client_ops suite laws)
      ∙ serves initiation (omega (arith, length-joined all, k, s, t)) refl
          (ap from_be (slice-joined all _ (to_be 2 96) 2 3 2 refl refl refl))
          (from_be-to_be 2 version small) (slice-joined all _ key 3 5 32 refl refl (sym k))
          (slice-joined all _ sealed_key.bytes 4 37 48 refl (omega (arith, k)) (sym s))
          (slice-joined all _ sealed_empty.bytes 5 85 16 refl (omega (arith, k, s)) (sym t)) small

-- What a handshake comes to, and that the two ends have the same keys, crosswise.
pub record Agrees (suite : Suite) (machine control : Bytes) (version : ℕ) (ephemeral theirs : Bytes)
    : Type 0 where
  pub client_half : Handshake
  pub message : Bytes
  pub served : Served
  pub mine : Session
  pub starts :
      start suite machine (suite.public control) version ephemeral ≡ ok (client_half, message)
  pub serves_it : serve suite (spec_ops suite) control theirs message ≡ ok served
  pub knows : served.client ≡ suite.public machine
  pub finishes_it : finish suite client_half served.response ≡ ok mine
  pub crosswise : (mine.tx ≡ served.session.rx) × (mine.rx ≡ served.session.tx)
  pub fresh :
      (mine.tx_nonce ≡ 0)
      × (mine.rx_nonce ≡ 0)
      × (served.session.tx_nonce ≡ 0)
      × (served.session.rx_nonce ≡ 0)
  pub bound : mine.handshake_hash ≡ served.session.handshake_hash

-- Against a server that follows the Noise specification, with the hash, the key derivation, the
-- prologue and the sealing written out from it, the handshake goes through for all keys and
-- every version of 16 bits: `start` does not panic, the server learns the client's machine key, `finish`
-- accepts the server's answer, and the two sessions have each other's keys, fresh nonces and the same
-- handshake hash.
pub noise_agrees :
    (suite : Suite) (laws : SuiteLaws suite) (machine control : Bytes) (version : ℕ)
    (ephemeral theirs : Bytes)
    → version < 2 ^ 16
    → Agrees suite machine control version ephemeral theirs
noise_agrees suite laws machine control version ephemeral theirs small = record {
  client_half = client suite laws machine control version ephemeral theirs;
  message = initiation suite laws machine control version ephemeral theirs;
  served = what_it_serves suite laws machine control version ephemeral theirs;
  mine =
      session_of suite laws machine control version ephemeral theirs
        (both suite laws machine control version ephemeral theirs).0
        (both suite laws machine control version ephemeral theirs).1;
  starts = start-initiation suite laws machine control version ephemeral theirs;
  serves_it = serve-initiation suite laws machine control version ephemeral theirs small;
  knows = refl;
  finishes_it = finish-response suite laws machine control version ephemeral theirs;
  crosswise = (refl, refl);
  fresh = (refl, refl, refl, refl);
  bound = refl;
}
