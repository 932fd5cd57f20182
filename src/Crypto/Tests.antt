-- ===== src/Crypto/Tests.antt =====
-- A toy suite that keeps the laws, for runs of the protocols, and HMAC over it.
use lando.Prelude.{
  ◌+◌, ◌≡◌, refl, ap, some, none, [], ◌∷◌, ◌++◌, length, take, replicate, length-append,
  length-take, if◌then◌else◌, arith,
}
use lando.Prelude.Bytes.{Bytes, codes, eq_bytes, to_le, from_le}
use lando.Crypto.{Aead, Laws, Suite, SuiteLaws, Box, BoxLaws}
use lando.Crypto.Blake.{hmac, kdf}
use lando.Crypto.Blake.Rfc.{reference_hmac, reference_expand, hmac_lem, kdf_lem}

-- The text is its own cipher text, and the tag of every text is sixteen sevens.
abbrev pub sevens : Bytes
sevens = replicate 16 7

abbrev pub plain : Aead
plain = record {
  encrypt = λ key nonce aad text. some (text, sevens);
  decrypt = λ key nonce aad cipher tag. if eq_bytes tag sevens then some cipher else none;
}

pub plain-Laws : Laws plain
unfolding eq_bytes
plain-Laws = record {
  length-encrypt = λ key nonce aad text cipher tag e. ground arith;
  length-tag = λ key nonce aad text cipher tag e. ground arith;
  decrypt-encrypt = λ key nonce aad text cipher tag e. ground arith;
}

-- The first `n` bytes of a text that is filled up with ones.
abbrev front : Bytes → Bytes
front m = take 32 (m ++ replicate 32 1)

length-front : (m : Bytes) → length (front m) ≡ 32
length-front m =
    omega (arith, length-take 32 (m ++ replicate 32 1), length-append m (replicate 32 1))

abbrev pub toy : Suite
toy = record {
  aead = plain;
  blake2s = front;
  blake2s_mac = λ key message. take 16 (front (key ++ message));
  public = front;
  shared = λ private public. to_le 32 (from_le (front private) + from_le public);
}

pub toy-SuiteLaws : SuiteLaws toy
toy-SuiteLaws = record {
  aead_laws = plain-Laws;
  length-blake2s = length-front;
  length-blake2s_mac = λ key message.
      omega (arith, length-take 16 (front (key ++ message)), length-front (key ++ message));
  length-public = length-front;
  encrypts = λ key nonce aad text h k l. ((text, sevens), refl);
  shared-public = λ a b. ap (to_le 32) (omega arith);
}

abbrev pub toy_box : Box
toy_box = record {
  public = front;
  encrypt = λ secret peer nonce text. some (text, sevens);
  decrypt = λ secret peer nonce cipher tag. if eq_bytes tag sevens then some cipher else none;
}

pub toy_box-BoxLaws : BoxLaws toy_box
unfolding eq_bytes
toy_box-BoxLaws = record {
  length-public = length-front;
  length-encrypt = λ secret peer nonce text cipher tag e. ground arith;
  length-tag = λ secret peer nonce text cipher tag e. ground arith;
  decrypt-encrypt = λ mine theirs nonce text cipher tag e. ground arith;
}

hmac_lem_run :
    hmac toy (replicate 100 5) (codes "a" ∷ codes "bc" ∷ [])
    ≡ reference_hmac toy (replicate 100 5) (codes "abc")
hmac_lem_run = hmac_lem toy toy-SuiteLaws (replicate 100 5) (codes "a" ∷ codes "bc" ∷ [])

kdf_lem_example :
    kdf toy 3 (codes "key") (codes "input")
    ≡ reference_expand toy 3 0 (reference_hmac toy (codes "key") (codes "input")) []
kdf_lem_example = kdf_lem toy toy-SuiteLaws 3 (codes "key") (codes "input") (omega arith)
