-- ===== src/Crypto/Sealing.antt =====
-- A text under authenticated encryption, with its tag behind it, as both handshakes send it.
use lando.Prelude.{
  ℕ, ◌+◌, ◌^◌, ◌≤◌, ◌≡◌, sym, ap₂, ◌∙◌, some, ◌++◌, length, take, drop, length-append,
  take-append_self, drop-append_self, arith,
}
use lando.Prelude.Bytes.{Bytes}
use lando.Crypto.{Aead, Laws, Suite, SuiteLaws}

pub record Sealing (aead : Aead) (key nonce aad text : Bytes) : Type 0 where
  pub body : Bytes
  pub tag : Bytes
  pub encrypted : aead.encrypt key nonce aad text ≡ some (body, tag)
  pub whole : length (body ++ tag) ≡ length text + 16
  pub same_length : length body ≡ length text
  pub opened :
      (at : ℕ)
      → at ≡ length text
      → aead.decrypt key nonce aad (take at (body ++ tag)) (drop at (body ++ tag)) ≡ some text

pub encrypt-Sealing :
    (aead : Aead) (laws : Laws aead) (key nonce aad text body tag : Bytes)
    → aead.encrypt key nonce aad text ≡ some (body, tag)
    → Sealing aead key nonce aad text
encrypt-Sealing aead laws key nonce aad text body tag e =
    let size = laws.length-encrypt key nonce aad text body tag e in
    let tagged = laws.length-tag key nonce aad text body tag e in
    record {
      body = body;
      tag = tag;
      encrypted = e;
      whole = omega (arith, length-append body tag, size, tagged);
      same_length = size;
      opened = λ at h.
          ap₂ (aead.decrypt key nonce aad) (take-append_self body tag at (h ∙ sym size))
            (drop-append_self body tag at (h ∙ sym size))
          ∙ laws.decrypt-encrypt key nonce aad text body tag e;
    }

pub sealing :
    (suite : Suite) (laws : SuiteLaws suite) (key nonce aad text : Bytes)
    → length key ≡ 32
    → length nonce ≡ 12
    → length text ≤ 2 ^ 32
    → Sealing suite.aead key nonce aad text
sealing suite laws key nonce aad text hk hn ht =
    let (p, e) = laws.encrypts key nonce aad text hk hn ht in
    encrypt-Sealing suite.aead laws.aead_laws key nonce aad text p.0 p.1 e
