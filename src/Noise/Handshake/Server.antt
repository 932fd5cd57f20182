-- ===== src/Noise/Handshake/Server.antt =====
-- The server's half of the handshake, which is not part of the sources, after the Noise specification
-- (pattern IK): what the client has to agree with. It is over the operations of a symmetric state.
use lando.Prelude.{
  not, ◌||◌, [], ◌∷◌, ◌++◌, length, get_or, take, ◌==◌, if◌then◌else◌, Result, ok, err, ◌>>=◌,
}
use lando.Prelude.Bytes.{Bytes, slice, from_be}
use lando.Crypto.{Suite}
use lando.Noise.{Session, NoiseError, bad_length}
use lando.Noise.Handshake.{SymmetricState}
use lando.Noise.Handshake.Spec.{Ops, spec_prologue}

-- What the server ends with: its answer, the client's key, and its session.
pub record Served : Type 0 where
  pub response : Bytes
  pub client : Bytes
  pub session : Session

module _ (suite : Suite) (ops : Ops) where
  -- The tokens `e, ee, se` and an empty payload.
  unfoldable pub answer :
      SymmetricState → Bytes → Bytes → Bytes → Result NoiseError (Bytes × SymmetricState)
  answer s ephemeral client_ephemeral client =
      let key = suite.public ephemeral in
      let s1 = ops.mix_hash s key in
      let s2 = (ops.mix_dh s1 ephemeral client_ephemeral).0 in
      let (s3, cipher) = ops.mix_dh s2 ephemeral client in
      ops.seal s3 cipher [] >>= λ (s4, empty). ok ((2 ∷ 0 ∷ 48 ∷ []) ++ (key ++ empty), s4)

  unfoldable pub serve : Bytes → Bytes → Bytes → Result NoiseError Served
  serve private ephemeral msg =
      let key = slice msg 5 32 in
      let s0 = ops.mix_hash ops.initialize (spec_prologue (from_be (take 2 msg))) in
      let s1 = ops.mix_hash (ops.mix_hash s0 (suite.public private)) key in
      let (s2, cipher) = ops.mix_dh s1 private key in
      if not (length msg == 101) || not (get_or msg 2 0 == 1) || not (from_be (slice msg 3 2) == 96)
      then err bad_length
      else ops.open_ s2 cipher (slice msg 37 48) >>= λ (s3, client).
          let (s4, cipher') = ops.mix_dh s3 private client in
          ops.open_ s4 cipher' (slice msg 85 16) >>= λ (s5, _).
          answer s5 ephemeral key client >>= λ (response, s6).
          let (rx, tx) = ops.split s6 in
          ok (record {
            response = response;
            client = client;
            session = record {
              tx = tx;
              rx = rx;
              tx_nonce = 0;
              rx_nonce = 0;
              handshake_hash = s6.h;
            };
          })
