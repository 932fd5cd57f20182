-- ===== src/Noise/Handshake/Seals.antt =====
-- What one side of a handshake seals, the other side opens, and both go on in the same state.
use lando.Prelude.{
  ℕ, ◌+◌, ◌-◌, ◌^◌, ◌≤◌, ◌≡◌, refl, true, false, ◌++◌, length, ltb, ok, ◌==◌, arith,
}
use lando.Prelude.Bytes.{Bytes}
use lando.Crypto.{Suite, SuiteLaws}
use lando.Crypto.Sealing.{Sealing, sealing}
use lando.Noise.Handshake.{SymmetricState, zero_nonce, mix_hash, encrypt_and_hash, decrypt_and_hash}

-- A sealed text: the state after it and its bytes.
pub record Sealed (suite : Suite) (s : SymmetricState) (key text : Bytes) : Type 0 where
  pub after : SymmetricState
  pub bytes : Bytes
  pub size : length bytes ≡ length text + 16
  pub seals :
      (room : ℕ)
      → room ≡ length text + 16
      → encrypt_and_hash suite s key room text ≡ ok (after, bytes)
  pub opens : (n : ℕ) → n ≡ length text → decrypt_and_hash suite s key n bytes ≡ ok (after, text)

from_sealing :
    (suite : Suite) (s : SymmetricState) (key text : Bytes)
    → Sealing suite.aead key zero_nonce s.h text
    → Sealed suite s key text
unfolding encrypt_and_hash decrypt_and_hash
from_sealing suite s key text t =
    let bytes = t.body ++ t.tag in
    record {
      after = mix_hash suite s bytes;
      bytes = bytes;
      size = t.whole;
      seals = λ room h.
          let fits : (room == length text + 16) ≡ true = ground arith in
          rw fits (rw t.encrypted refl);
      opens = λ n h.
          let enough : ltb (length bytes) 16 ≡ false = ground (arith, t.whole) in
          let fits : (n == length bytes - 16) ≡ true = ground (arith, t.whole) in
          rw enough (rw fits (rw (t.opened (length bytes - 16) (omega (arith, t.whole))) refl));
    }

pub sealed :
    (suite : Suite) (laws : SuiteLaws suite) (s : SymmetricState) (key text : Bytes)
    → length key ≡ 32
    → length text ≤ 2 ^ 32
    → Sealed suite s key text
sealed suite laws s key text hk ht =
    from_sealing suite s key text (sealing suite laws key zero_nonce s.h text hk refl ht)
