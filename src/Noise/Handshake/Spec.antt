-- ===== src/Noise/Handshake/Spec.antt =====
-- The symmetric state of the Noise specification, for Noise_IK_25519_ChaChaPoly_BLAKE2s as Tailscale's
-- control protocol uses it, in its own terms: the hash is BLAKE2s, the keys come from the HKDF of RFC
-- 5869, and every key seals one text, under the nonce of zeros.
use lando.Prelude.{
  ℕ, ◌-◌, none, some, [], ◌∷◌, ◌++◌, length, take, drop, replicate, ltb, if◌then◌else◌, Result, ok,
  err,
}
use lando.Prelude.Bytes.{Bytes, codes}
use lando.Prelude.Decimal.{decimal}
use lando.Crypto.{Suite}
use lando.Crypto.Blake.Rfc.{reference_hmac}
use lando.Noise.{NoiseError, bad_length}
use lando.Noise.Handshake.{SymmetricState}

-- What a side of the handshake does to its state: `seal` and `open_` take the key and the text.
pub record Ops : Type 0 where
  pub initialize : SymmetricState
  pub mix_hash : SymmetricState → Bytes → SymmetricState
  pub mix_dh : SymmetricState → Bytes → Bytes → SymmetricState × Bytes
  pub seal : SymmetricState → Bytes → Bytes → Result NoiseError (SymmetricState × Bytes)
  pub open_ : SymmetricState → Bytes → Bytes → Result NoiseError (SymmetricState × Bytes)
  pub split : SymmetricState → Bytes × Bytes

abbrev pub spec_prologue : ℕ → Bytes
spec_prologue version = codes "Tailscale Control Protocol v" ++ decimal 5 version

module _ (suite : Suite) where
  -- HKDF(chaining_key, input_key_material, 2).
  abbrev pub spec_hkdf : Bytes → Bytes → Bytes × Bytes
  spec_hkdf chaining_key material =
      let temp_key = reference_hmac suite chaining_key material in
      let output1 = reference_hmac suite temp_key (1 ∷ []) in
      (output1, reference_hmac suite temp_key (output1 ++ 2 ∷ []))

  abbrev pub spec_mix_hash : SymmetricState → Bytes → SymmetricState
  spec_mix_hash s text = record { h = suite.blake2s (s.h ++ text); ck = s.ck }

  abbrev pub spec_ops : Ops
  spec_ops = record {
    initialize = record {
      h = suite.blake2s (codes "Noise_IK_25519_ChaChaPoly_BLAKE2s");
      ck = suite.blake2s (codes "Noise_IK_25519_ChaChaPoly_BLAKE2s");
    };
    mix_hash = spec_mix_hash;
    mix_dh = λ s private public.
        let (ck, key) = spec_hkdf s.ck (suite.shared private public) in
        (record { h = s.h; ck = ck }, key);
    seal = λ s key text. elim ((suite.aead).encrypt key (replicate 12 0) s.h text) [
      | none ↦ err NoiseError.decrypt
      | some (body, tag) ↦ ok (spec_mix_hash s (body ++ tag), body ++ tag)
    ];
    open_ = λ s key sealed.
        let at = length sealed - 16 in
        if ltb (length sealed) 16
        then err bad_length
        else elim ((suite.aead).decrypt key (replicate 12 0) s.h (take at sealed)
            (drop at sealed)) [
              | none ↦ err NoiseError.decrypt
              | some text ↦ ok (spec_mix_hash s sealed, text)
            ];
    split = λ s. spec_hkdf s.ck [];
  }
