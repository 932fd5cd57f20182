-- ===== src/Noise/Handshake/Follows.antt =====
-- The client's state, of crates/ts2021/src/lib.rs, follows the Noise specification.
use lando.Prelude.{
  ℕ, ◌+◌, ◌-◌, ◌^◌, ◌<◌, ◌≡◌, refl, sym, ap, ◌∙◌, true, none, some, [], ◌∷◌, ◌++◌, length, get_or,
  take, drop, replicate, ltb, ◌==◌, ok, err, arith, append-nil, inl, inr, Bool-cases,
  take-append_self,
}
use lando.Prelude.Bytes.{Bytes}
use lando.Prelude.Decimal.{decimal, decimal_lem}
use lando.Prelude.Fields.{joined, length-joined, copy_at-field}
use lando.Crypto.{Suite, SuiteLaws}
use lando.Crypto.Blake.{hash, hash_parts, kdf}
use lando.Crypto.Blake.Rfc.{kdf_lem}
use lando.Noise.{NoiseError, prologue_prefix}
use lando.Noise.Handshake.{
  SymmetricState, prologue, initialize, mix_hash, mix_dh, encrypt_and_hash, decrypt_and_hash, split,
}
use lando.Noise.Handshake.Spec.{Ops, spec_prologue, spec_hkdf, spec_mix_hash, spec_ops}

-- The client's functions, with the room that they ask for.
abbrev pub client_ops : Suite → Ops
client_ops suite = record {
  initialize = initialize suite;
  mix_hash = mix_hash suite;
  mix_dh = mix_dh suite;
  seal = λ s key text. encrypt_and_hash suite s key (length text + 16) text;
  open_ = λ s key sealed. decrypt_and_hash suite s key (length sealed - 16) sealed;
  split = split suite;
}

pub prologue_lem : (version : ℕ) → version < 2 ^ 16 → spec_prologue version ≡ prologue version
unfolding prologue
prologue_lem version small =
    let digits = decimal 5 version in
    let (_, _, _, short) = decimal_lem 5 version (omega arith) (omega arith) in
    let blank : Bytes = replicate (length prologue_prefix + 5) 0 in
    let front : Bytes = joined (prologue_prefix ∷ digits ∷ []) in
    let whole : length front ≡ length prologue_prefix + length digits =
      omega (arith, length-joined (prologue_prefix ∷ digits ∷ [])) in
    let written = copy_at-field (prologue_prefix ∷ []) digits blank (length prologue_prefix) refl in
    ap (λ t. prologue_prefix ++ t) (sym (append-nil digits))
    ∙ sym (
        ap (take (length prologue_prefix + length digits)) written
        ∙ take-append_self front (drop (length front) blank)
            (length prologue_prefix + length digits) (sym whole))

module _ (suite : Suite) (laws : SuiteLaws suite) where
  initialize_lem : (spec_ops suite).initialize ≡ initialize suite
  unfolding initialize hash
  initialize_lem = refl

  mix_hash_lem :
      (s : SymmetricState) (text : Bytes) → spec_mix_hash suite s text ≡ mix_hash suite s text
  unfolding mix_hash hash_parts
  mix_hash_lem s text = ap (λ t. record s { h = suite.blake2s (s.h ++ t) }) (sym (append-nil text))

  mix_hash_fun : spec_mix_hash suite ≡ mix_hash suite
  mix_hash_fun = λ i s text. mix_hash_lem s text i

  hkdf_lem :
      (ck material : Bytes)
      → spec_hkdf suite ck material
        ≡ (get_or (kdf suite 2 ck material) 0 [], get_or (kdf suite 2 ck material) 1 [])
  hkdf_lem ck material = sym (
      ap (λ blocks. (get_or blocks 0 [], get_or blocks 1 []))
        (kdf_lem suite laws 2 ck material (omega arith)))

  mix_dh_lem :
      (s : SymmetricState) (private public : Bytes)
      → (spec_ops suite).mix_dh s private public ≡ mix_dh suite s private public
  unfolding mix_dh
  mix_dh_lem s private public =
      ap (λ (b : Bytes × Bytes). (record s { ck = b.0 }, b.1))
        (hkdf_lem s.ck (suite.shared private public))

  split_lem : (s : SymmetricState) → (spec_ops suite).split s ≡ split suite s
  unfolding split
  split_lem s = hkdf_lem s.ck []

  seal_lem :
      (s : SymmetricState) (key text : Bytes)
      → (spec_ops suite).seal s key text ≡ (client_ops suite).seal s key text
  unfolding encrypt_and_hash
  seal_lem s key text =
      let fits : (length text + 16 == length text + 16) ≡ true = ground arith in
      rw fits (
        ap
          (λ (mix : SymmetricState → Bytes → SymmetricState).
            elim ((suite.aead).encrypt key (replicate 12 0) s.h text) [
              | none ↦ err NoiseError.decrypt
              | some (body, tag) ↦ ok (mix s (body ++ tag), body ++ tag)
            ])
          mix_hash_fun)

  open_lem :
      (s : SymmetricState) (key sealed : Bytes)
      → (spec_ops suite).open_ s key sealed ≡ (client_ops suite).open_ s key sealed
  unfolding decrypt_and_hash
  open_lem s key sealed =
      let at = length sealed - 16 in
      let fits : (at == at) ≡ true = ground arith in
      elim (Bool-cases (ltb (length sealed) 16)) [
        | inl short ↦ rw short refl
        | inr enough ↦
            rw (enough, fits)
              (ap
                (λ (mix : SymmetricState → Bytes → SymmetricState).
                  elim ((suite.aead).decrypt key (replicate 12 0) s.h (take at sealed)
                    (drop at sealed)) [
                      | none ↦ err NoiseError.decrypt
                      | some text ↦ ok (mix s sealed, text)
                    ])
                mix_hash_fun)
      ]

  pub spec_ops-client_ops : spec_ops suite ≡ client_ops suite
  spec_ops-client_ops = λ i. record {
    initialize = initialize_lem i;
    mix_hash = λ s text. mix_hash_lem s text i;
    mix_dh = λ s private public. mix_dh_lem s private public i;
    seal = λ s key text. seal_lem s key text i;
    open_ = λ s key sealed. open_lem s key sealed i;
    split = λ s. split_lem s i;
  }
