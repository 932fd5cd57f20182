-- ===== src/Crypto/Blake/Lengths.antt =====
-- The lengths of what the functions over BLAKE2s return.
use lando.Prelude.{
  ℕ, zero, suc, ◌+◌, ◌<◌, ◌≡◌, List, [], ◌∷◌, length, get_or, ◌==◌, arith, inl, inr, Bool-cases,
  ◌%◌,
}
use lando.Prelude.Bytes.{Bytes}
use lando.Prelude.Fields.{joined}
use lando.Crypto.{Suite, SuiteLaws}
use lando.Crypto.Blake.{hmac, kdf_loop, kdf, keyed_mac}

module _ (suite : Suite) (laws : SuiteLaws suite) where
  length-hmac : (key : Bytes) (parts : List Bytes) → length (hmac suite key parts) ≡ 32
  unfolding hmac
  length-hmac key parts = laws.length-blake2s _

  length-kdf_loop :
      (n i j : ℕ) (prk previous : Bytes)
      → j < n
      → length (get_or (kdf_loop suite n i prk previous) j []) ≡ 32
  unfolding kdf_loop
  length-kdf_loop zero i j prk previous h = absurd (omega arith)
  length-kdf_loop (suc n) i zero prk previous h = elim (Bool-cases (i == 0)) [
    | inl e ↦ rw e (length-hmac prk (((i + 1) % 256 ∷ []) ∷ []))
    | inr e ↦ rw e (length-hmac prk (previous ∷ ((i + 1) % 256 ∷ []) ∷ []))
  ]
  length-kdf_loop (suc n) i (suc j) prk previous h = length-kdf_loop n (suc i) j prk _ (omega arith)

  pub length-kdf :
      (n j : ℕ) (key input : Bytes) → j < n → length (get_or (kdf suite n key input) j []) ≡ 32
  unfolding kdf
  length-kdf n j key input h = length-kdf_loop n 0 j _ _ h

  pub length-keyed_mac :
      (key : Bytes) (parts : List Bytes) → length (keyed_mac suite key parts) ≡ 16
  unfolding keyed_mac
  length-keyed_mac key parts = laws.length-blake2s_mac key (joined parts)
