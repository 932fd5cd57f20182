-- ===== src/Crypto/Blake.antt =====
-- crates/tailscale-core/src/crypto.rs: hashes, HMAC, HKDF and the keyed MAC over BLAKE2s.
pub mod Rfc
pub mod Lengths
use lando.Prelude.{
  ℕ, zero, suc, ◌+◌, ◌%◌, List, [], ◌∷◌, ◌++◌, length, get_or, set, replicate, ltb, ◌==◌, bit_xor,
  if◌then◌else◌,
}
use lando.Prelude.Bytes.{Bytes, copy_at}
use lando.Prelude.Fields.{joined}
use lando.Crypto.{Suite}

abbrev pub blake2s_block : ℕ
blake2s_block = 64

abbrev pub hash_len : ℕ
hash_len = 32

abbrev pub mac_len : ℕ
mac_len = 16

-- `for i in 0..BLAKE2S_BLOCK { pad[i] ^= padded[i] }`: the rounds left, and the index.
unfoldable pub xor_loop : ℕ → ℕ → Bytes → Bytes → Bytes
xor_loop zero i padded pad = pad
xor_loop (suc n) i padded pad =
    xor_loop n (suc i) padded (set pad i (bit_xor (get_or pad i 0) (get_or padded i 0)))

module _ (suite : Suite) where
  unfoldable pub hash : Bytes → Bytes
  hash data_bytes = suite.blake2s data_bytes

  unfoldable pub hash_parts : List Bytes → Bytes
  hash_parts parts = suite.blake2s (joined parts)

  -- The key in a block of zeros; what is longer is hashed first.
  unfoldable pub padded_key : Bytes → Bytes
  unfolding hash
  padded_key key =
      let padded = replicate blake2s_block 0 in
      if ltb blake2s_block (length key) then copy_at padded 0 (hash key) else copy_at padded 0 key

  unfoldable pub hmac : Bytes → List Bytes → Bytes
  hmac key parts =
      let padded = padded_key key in
      let ipad = xor_loop blake2s_block 0 padded (replicate blake2s_block 0x36) in
      let opad = xor_loop blake2s_block 0 padded (replicate blake2s_block 0x5c) in
      let inner = suite.blake2s (joined (ipad ∷ parts)) in
      suite.blake2s (joined (opad ∷ inner ∷ []))

  -- The loop of `kdf`: the rounds left, the index, and the block before.
  unfoldable pub kdf_loop : ℕ → ℕ → Bytes → Bytes → List Bytes
  kdf_loop zero i prk previous = []
  kdf_loop (suc n) i prk previous =
      let counter = (i + 1) % 256 ∷ [] in
      let block = if i == 0 then hmac prk (counter ∷ []) else hmac prk (previous ∷ counter ∷ []) in
      block ∷ kdf_loop n (suc i) prk block

  unfoldable pub kdf : ℕ → Bytes → Bytes → List Bytes
  unfolding kdf_loop
  kdf n key input = kdf_loop n 0 (hmac key (input ∷ [])) (replicate hash_len 0)

  unfoldable pub keyed_mac : Bytes → List Bytes → Bytes
  keyed_mac key parts = suite.blake2s_mac key (joined parts)
