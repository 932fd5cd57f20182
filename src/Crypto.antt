-- ===== src/Crypto.antt =====
-- The crates that the sources only call, as interfaces with the laws that their documentation states:
-- `chacha20poly1305`, with its detached authenticated encryption, `blake2` and `x25519_dalek`.
pub mod Blake
pub mod Sealing
pub mod Tests
use lando.Prelude.{ℕ, ◌^◌, ◌≤◌, ◌≡◌, Option, some, length}
use lando.Prelude.Bytes.{Bytes}

-- Arguments: key, nonce, associated data, then the text, and the tag to verify. `none` is an error
-- of the crate: for `encrypt` a text that is too long, for `decrypt` a tag that does not verify.
pub record Aead : Type 0 where
  pub encrypt : Bytes → Bytes → Bytes → Bytes → Option (Bytes × Bytes)
  pub decrypt : Bytes → Bytes → Bytes → Bytes → Bytes → Option Bytes

-- Encryption in place keeps the length, tags have 16 bytes, and what was sealed under a key, nonce
-- and associated data opens under the same ones.
pub record Laws (a : Aead) : Type 0 where
  pub length-encrypt :
      (key nonce aad text cipher tag : Bytes)
      → a.encrypt key nonce aad text ≡ some (cipher, tag)
      → length cipher ≡ length text
  pub length-tag :
      (key nonce aad text cipher tag : Bytes)
      → a.encrypt key nonce aad text ≡ some (cipher, tag)
      → length tag ≡ 16
  pub decrypt-encrypt :
      (key nonce aad text cipher tag : Bytes)
      → a.encrypt key nonce aad text ≡ some (cipher, tag)
      → a.decrypt key nonce aad cipher tag ≡ some text

-- `Blake2s256` of a message, the keyed `Blake2sMac` with 16 bytes of a key and a message, and the keys
-- of X25519: the public half of a private key, and the secret that a private and a public key share.
pub record Suite : Type 0 where
  pub aead : Aead
  pub blake2s : Bytes → Bytes
  pub blake2s_mac : Bytes → Bytes → Bytes
  pub public : Bytes → Bytes
  pub shared : Bytes → Bytes → Bytes

-- The laws: lengths of digests and keys, that a text of at most `2 ^ 32` bytes is not too long to
-- encrypt, and that two parties derive the same secret.
pub record SuiteLaws (s : Suite) : Type 0 where
  pub aead_laws : Laws s.aead
  pub length-blake2s : (message : Bytes) → length (s.blake2s message) ≡ 32
  pub length-blake2s_mac : (key message : Bytes) → length (s.blake2s_mac key message) ≡ 16
  pub length-public : (private : Bytes) → length (s.public private) ≡ 32
  pub encrypts :
      (key nonce aad text : Bytes)
      → length key ≡ 32
      → length nonce ≡ 12
      → length text ≤ 2 ^ 32
      → (p : Bytes × Bytes) × ((s.aead).encrypt key nonce aad text ≡ some p)
  pub shared-public : (a b : Bytes) → s.shared a (s.public b) ≡ s.shared b (s.public a)

-- `crypto_box`: the public half of a secret key, and the box of a secret and a peer's public key, with
-- its detached encryption under a nonce and no associated data.
pub record Box : Type 0 where
  pub public : Bytes → Bytes
  pub encrypt : Bytes → Bytes → Bytes → Bytes → Option (Bytes × Bytes)
  pub decrypt : Bytes → Bytes → Bytes → Bytes → Bytes → Option Bytes

-- The laws: lengths, and that what one party seals for the other, the other opens.
pub record BoxLaws (b : Box) : Type 0 where
  pub length-public : (secret : Bytes) → length (b.public secret) ≡ 32
  pub length-encrypt :
      (secret peer nonce text cipher tag : Bytes)
      → b.encrypt secret peer nonce text ≡ some (cipher, tag)
      → length cipher ≡ length text
  pub length-tag :
      (secret peer nonce text cipher tag : Bytes)
      → b.encrypt secret peer nonce text ≡ some (cipher, tag)
      → length tag ≡ 16
  pub decrypt-encrypt :
      (mine theirs nonce text cipher tag : Bytes)
      → b.encrypt mine (b.public theirs) nonce text ≡ some (cipher, tag)
      → b.decrypt theirs (b.public mine) nonce cipher tag ≡ some text
