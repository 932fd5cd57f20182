-- ===== src/Crypto/Blake/Rfc.antt =====
-- The HMAC of RFC 2104 and the HKDF of RFC 5869.
use lando.Prelude.{
  ℕ, zero, suc, ◌+◌, ◌-◌, ◌%◌, ◌≤◌, ◌≡◌, refl, sym, ap, ap₂, ◌∙◌, false, List, [], ◌∷◌, ◌++◌,
  length, get_or, set, drop, replicate, length-append, length-replicate, append_assoc, ltb, ◌==◌,
  bit_xor, if◌then◌else◌, arith, inl, inr, Bool-cases, append-nil,
}
use lando.Prelude.Bytes.{Bytes, copy_at}
use lando.Prelude.Fields.{joined, get_or-at, set-at}
use lando.Crypto.{Suite, SuiteLaws}
use lando.Crypto.Blake.{xor_loop, hash, padded_key, hmac, kdf_loop, kdf}

-- Two texts of one length, combined byte by byte.
abbrev pub xored : Bytes → Bytes → Bytes
xored [] ys = []
xored (x ∷ xs) [] = []
xored (x ∷ xs) (y ∷ ys) = bit_xor x y ∷ xored xs ys

-- With the front done, the loop does what is left.
xor_loop-append :
    (n : ℕ) (front ks done ps : Bytes)
    → n ≡ length ks
    → length ps ≡ length ks
    → length front ≡ length done
    → xor_loop n (length done) (front ++ ks) (done ++ ps) ≡ done ++ xored ps ks
unfolding xor_loop
xor_loop-append zero front [] done [] h k e = refl
xor_loop-append zero front (x ∷ ks) done ps h k e = absurd (omega arith)
xor_loop-append zero front [] done (p ∷ ps) h k e = absurd (omega arith)
xor_loop-append (suc n) front [] done ps h k e = absurd (omega arith)
xor_loop-append (suc n) front (x ∷ ks) done [] h k e = absurd (omega arith)
xor_loop-append (suc n) front (x ∷ ks) done (p ∷ ps) h k e =
    let v = bit_xor p x in
    let key = ap (λ i. get_or (front ++ x ∷ ks) i 0) (sym e) ∙ get_or-at front ks x in
    ap
      (λ b. xor_loop n (suc (length done)) (front ++ x ∷ ks) (set (done ++ p ∷ ps) (length done) b))
      (ap₂ bit_xor (get_or-at done ps p) key)
    ∙ ap (xor_loop n (suc (length done)) (front ++ x ∷ ks)) (set-at done ps p v)
    ∙ ap₂ (λ i t. xor_loop n i t ((done ++ v ∷ []) ++ ps)) {x = suc (length done)}
        (omega (arith, length-append done (v ∷ []))) (sym (append_assoc front (x ∷ []) ks))
    ∙ xor_loop-append n (front ++ x ∷ []) ks (done ++ v ∷ []) ps (omega arith) (omega arith)
        (omega (arith, length-append done (v ∷ []), length-append front (x ∷ [])))
    ∙ append_assoc done (v ∷ []) (xored ps ks)

drop-replicate : (k n : ℕ) → drop (0 + k) (replicate {A = ℕ} n 0) ≡ replicate {A = ℕ} (n - k) 0
drop-replicate k n = ap (λ t. drop t (replicate {A = ℕ} n 0)) (omega arith) ∙ zeros k n
  where
    zeros : (k n : ℕ) → drop k (replicate {A = ℕ} n 0) ≡ replicate {A = ℕ} (n - k) 0
    zeros zero n = ap (λ t. replicate {A = ℕ} t 0) (omega arith)
    zeros (suc k) zero = ap (λ t. replicate {A = ℕ} t 0) {x = 0} (omega arith)
    zeros (suc k) (suc n) = zeros k n ∙ ap (λ t. replicate {A = ℕ} t 0) (omega arith)

module _ (suite : Suite) where
  -- RFC 2104: the key, hashed where it is longer than a block, and filled up with zeros.
  abbrev pub block_key : Bytes → Bytes
  block_key key =
      let short = if ltb 64 (length key) then suite.blake2s key else key in
      short ++ replicate (64 - length short) 0

  abbrev pub reference_hmac : Bytes → Bytes → Bytes
  reference_hmac key message = suite.blake2s (
      xored (replicate 64 0x5c) (block_key key)
      ++ suite.blake2s (xored (replicate 64 0x36) (block_key key) ++ message))

  -- RFC 5869: each block is the HMAC of the block before it and its number, counted from 1.
  abbrev pub reference_expand : ℕ → ℕ → Bytes → Bytes → List Bytes
  reference_expand zero i prk previous = []
  reference_expand (suc n) i prk previous =
      let block = reference_hmac prk (previous ++ (i + 1) ∷ []) in
      block ∷ reference_expand n (suc i) prk block

  module _ (laws : SuiteLaws suite) where
    fill :
        (n : ℕ) (key : Bytes)
        → length key ≤ n
        → copy_at (replicate n 0) 0 key ≡ key ++ replicate (n - length key) 0
    fill n key h = ap (λ t. key ++ t) (drop-replicate (length key) n)

    padded_key_lem :
        (key : Bytes) → (padded_key suite key ≡ block_key key) × (length (block_key key) ≡ 64)
    unfolding padded_key hash
    padded_key_lem key = elim (Bool-cases (ltb 64 (length key))) [
      | inl e ↦ rw e (
        fill 64 (suite.blake2s key) (omega (arith, laws.length-blake2s key)),
        omega (
          arith,
          length-append (suite.blake2s key) (replicate (64 - length (suite.blake2s key)) 0),
          length-replicate {A = ℕ} (64 - length (suite.blake2s key)) 0,
          laws.length-blake2s key,
        ),
      )
      | inr e ↦ rw e (
        fill 64 key (ground arith),
        ground (
          arith,
          length-append key (replicate (64 - length key) 0),
          length-replicate {A = ℕ} (64 - length key) 0,
        ),
      )
    ]

    -- `hmac` over BLAKE2s is the HMAC of RFC 2104 of the parts one after the other, for a key of any
    -- length.
    pub hmac_lem :
        (key : Bytes) (parts : List Bytes)
        → hmac suite key parts ≡ reference_hmac key (joined parts)
    unfolding hmac
    hmac_lem key parts =
        let (same, size) = padded_key_lem key in
        let pads = λ (b : ℕ).
          ap (λ k. xor_loop 64 0 k (replicate 64 b)) same
          ∙ xor_loop-append 64 [] (block_key key) [] (replicate 64 b) (sym size) (sym size) refl in
        ap₂ (λ o i. suite.blake2s (o ++ (suite.blake2s (i ++ joined parts) ++ []))) (pads 0x5c)
          (pads 0x36)
        ∙ ap (λ t. suite.blake2s (xored (replicate 64 0x5c) (block_key key) ++ t))
            (append-nil (suite.blake2s (xored (replicate 64 0x36) (block_key key) ++ joined parts)))

    kdf_loop-later :
        (n i : ℕ) (prk previous : Bytes)
        → suc i + n ≤ 255
        → kdf_loop suite n (suc i) prk previous ≡ reference_expand n (suc i) prk previous
    unfolding kdf_loop
    kdf_loop-later zero i prk previous h = refl
    kdf_loop-later (suc n) i prk previous h =
        let later : (suc i == 0) ≡ false = ground arith in
        let byte : (suc i + 1) % 256 ≡ suc i + 1 = omega arith in
        let block =
          ap (λ b. hmac suite prk (previous ∷ (b ∷ []) ∷ [])) byte
          ∙ hmac_lem prk (previous ∷ ((suc i + 1) ∷ []) ∷ []) in
        rw later (
          ap (λ b. b ∷ kdf_loop suite n (suc (suc i)) prk b) block
          ∙ ap (λ t. reference_hmac prk (previous ++ (suc i + 1) ∷ []) ∷ t)
              (kdf_loop-later n (suc i) prk (reference_hmac prk (previous ++ (suc i + 1) ∷ []))
                (omega arith)))

    -- `kdf` is the HKDF of RFC 5869 with an empty `info`, for at most 255 blocks.
    pub kdf_lem :
        (n : ℕ) (key input : Bytes)
        → n ≤ 255
        → kdf suite n key input ≡ reference_expand n 0 (reference_hmac key input) []
    unfolding kdf kdf_loop
    kdf_lem zero key input h = refl
    kdf_lem (suc n) key input h =
        let extract = hmac_lem key (input ∷ []) ∙ ap (reference_hmac key) (append-nil input) in
        ap (λ prk. kdf_loop suite (suc n) 0 prk (replicate 32 0)) extract
        ∙ ap (λ b. b ∷ kdf_loop suite n 1 (reference_hmac key input) b)
            (hmac_lem (reference_hmac key input) ((1 ∷ []) ∷ []))
        ∙ ap (λ t. reference_hmac (reference_hmac key input) (1 ∷ []) ∷ t)
            (kdf_loop-later n 0 (reference_hmac key input)
              (reference_hmac (reference_hmac key input) (1 ∷ [])) (omega arith))
