-- ===== src/Wireguard/Transport/Nonces.antt =====
-- No two packets of a session are sealed under the same nonce.
use lando.Prelude.{
  ℕ, ◌+◌, ◌^◌, ◌≤◌, ◌<◌, ◌≡◌, ◌≢◌, refl, sym, ap, subst, ◌∙◌, ◌⊎◌, inl, inr, List, [], ◌∷◌, All, ok,
  err, is_ok, Result, Result-cases, some, take, arith, Option-cases, Bool-cases, length, drop,
  if◌then◌else◌, leb, ltb,
}
use lando.Prelude.Bytes.{Bytes, from_le, from_le-to_le}
use lando.Crypto.{Aead, Laws}
use lando.Wireguard.Message.{WgError}
use lando.Wireguard.Replay.{reject_after_messages}
use lando.Wireguard.Transport.{Session, nonce, pad, packet_len, encrypt}
use lando.Wireguard.Transport.Packet.{packet, encrypt_ok}

nonce-injective : (a b : ℕ) → a < 2 ^ 64 → b < 2 ^ 64 → nonce a ≡ nonce b → a ≡ b
nonce-injective a b ha hb e =
    sym (from_le-to_le 8 a ha) ∙ ap (λ n. from_le (drop 4 n)) e ∙ from_le-to_le 8 b hb

-- No element occurs twice.
abbrev pub Distinct : List Bytes → Type 0
Distinct [] = Unit
Distinct (x ∷ xs) = All (λ y. y ≢ x) xs × Distinct xs

-- A nonce made from a counter at or past `low`, and below the limit.
abbrev From : ℕ → Bytes → Type 0
From low n = (c : ℕ) × (n ≡ nonce c) × (low ≤ c) × (c < reject_after_messages)

From-ne : (c : ℕ) (n : Bytes) → c < reject_after_messages → From (c + 1) n → n ≢ nonce c
From-ne c n lim (d, is, above, below) e =
    absurd (omega (arith, nonce-injective d c (omega arith) (omega arith) (sym is ∙ e)))

All-From-ne :
    (c : ℕ) (ns : List Bytes)
    → c < reject_after_messages
    → All (From (c + 1)) ns
    → All (λ n. n ≢ nonce c) ns
All-From-ne c [] lim h = tt
All-From-ne c (n ∷ ns) lim h = (From-ne c n lim h.0, All-From-ne c ns lim h.1)

All-From_mono :
    (low high : ℕ) (ns : List Bytes) → low ≤ high → All (From high) ns → All (From low) ns
All-From_mono low high [] le h = tt
All-From_mono low high (n ∷ ns) le ((c, is, above, below), rest) =
    ((c, is, omega arith, below), All-From_mono low high ns le rest)

module _ (aead : Aead) where
  -- On success the counter was below the limit and grows by one; an error leaves the session.
  pub encrypt_counter :
      (s : Session) (payload out : Bytes)
      → ((n : ℕ) × ((encrypt aead s payload out).2 ≡ ok n)
          × ((encrypt aead s payload out).0 ≡ record s { send_counter = s.send_counter + 1 })
          × (s.send_counter < reject_after_messages))
        ⊎ ((e : WgError) × ((encrypt aead s payload out).2 ≡ err e)
            × ((encrypt aead s payload out).0 ≡ s))
  unfolding encrypt
  encrypt_counter s payload out = elim (Bool-cases (leb reject_after_messages s.send_counter)) [
    | inl over ↦ inr (WgError.nonce_exhausted, ground arith, ground arith)
    | inr under ↦ elim (Bool-cases (ltb (length out) (packet_len payload))) [
      | inl small ↦ inr (WgError.short_buffer, ground arith, ground arith)
      | inr room ↦
          elim (Option-cases (aead.encrypt s.send_cipher (nonce s.send_counter) [] (pad payload))) [
            | inl fails ↦ inr (WgError.decrypt, ground arith, ground arith)
            | inr (p, sealed) ↦ inl (packet_len payload, ground arith, ground arith, ground arith)
          ]
    ]
  ]

  -- The nonces of the packets that a sequence of payloads and buffers is sealed under.
  unfoldable pub nonces_used : Session → List (Bytes × Bytes) → List Bytes
  nonces_used s [] = []
  nonces_used s ((payload, out) ∷ jobs) =
      if is_ok (encrypt aead s payload out).2
      then nonce s.send_counter ∷ nonces_used (encrypt aead s payload out).0 jobs
      else nonces_used (encrypt aead s payload out).0 jobs

  nonces_used-From-Distinct :
      (s : Session) (jobs : List (Bytes × Bytes))
      → All (From s.send_counter) (nonces_used s jobs) × Distinct (nonces_used s jobs)
  unfolding nonces_used
  nonces_used-From-Distinct s [] = (tt, tt)
  nonces_used-From-Distinct s ((payload, out) ∷ jobs) =
      let s' = (encrypt aead s payload out).0 in
      let rest = nonces_used s' jobs in
      let ih = nonces_used-From-Distinct s' jobs in
      elim (encrypt_counter s payload out) [
        | inl (n, good, next, lim) ↦
            let ih' : All (From (s.send_counter + 1)) rest =
              subst (λ (q : Session). All (From q.send_counter) rest) next ih.0 in
            subst (λ ns. All (From s.send_counter) ns × Distinct ns)
              (sym (ap (λ r. if is_ok r then nonce s.send_counter ∷ rest else rest) good))
              (
                (
                  (s.send_counter, refl, omega arith, lim),
                  All-From_mono s.send_counter (s.send_counter + 1) rest (omega arith) ih',
                ),
                (All-From-ne s.send_counter rest lim ih', ih.1),
              )
        | inr (e, bad, next) ↦
            subst (λ ns. All (From s.send_counter) ns × Distinct ns)
              (sym (ap (λ r. if is_ok r then nonce s.send_counter ∷ rest else rest) bad))
              (subst (λ (q : Session). All (From q.send_counter) rest) next ih.0, ih.1)
      ]

-- What a sequence of calls of `encrypt` did: the packets that went out were sealed by the AEAD under
-- these nonces, one for each, and stand in the buffers with the header of their session.
pub data Sealed (aead : Aead) : Session → List (Bytes × Bytes) → List Bytes → Type 0 where
  nothing : (s : Session) → Sealed aead s [] []
  refused :
      (s : Session) (payload out : Bytes) (s' : Session) (out' : Bytes) (e : WgError)
      (jobs : List (Bytes × Bytes)) (ns : List Bytes)
      → encrypt aead s payload out ≡ (s', out', err e)
      → Sealed aead s' jobs ns
      → Sealed aead s ((payload, out) ∷ jobs) ns
  went :
      (s : Session) (payload out : Bytes) (s' : Session) (out' : Bytes) (n : ℕ)
      (nonce_used body tag : Bytes) (jobs : List (Bytes × Bytes)) (ns : List Bytes)
      → encrypt aead s payload out ≡ (s', out', ok n)
      → aead.encrypt s.send_cipher nonce_used [] (pad payload) ≡ some (body, tag)
      → take n out' ≡ packet s body tag
      → Sealed aead s' jobs ns
      → Sealed aead s ((payload, out) ∷ jobs) (nonce_used ∷ ns)

module _ (aead : Aead) (laws : Laws aead) where
  nonces_used-Sealed :
      (s : Session) (jobs : List (Bytes × Bytes)) → Sealed aead s jobs (nonces_used aead s jobs)
  unfolding nonces_used
  nonces_used-Sealed s [] = nothing s
  nonces_used-Sealed s ((payload, out) ∷ jobs) =
      let (s', out', r) = encrypt aead s payload out in
      let rest = nonces_used-Sealed s' jobs in
      let list = λ (q : Result WgError ℕ).
        if is_ok q
        then nonce s.send_counter ∷ nonces_used aead s' jobs
        else nonces_used aead s' jobs in
      elim (Result-cases r) [
        | inl (n, good) ↦
            let e = ap (λ q. (s', out', q)) good in
            let (p, sealed, _, wire, _) = encrypt_ok aead laws s payload out e in
            subst (λ ns. Sealed aead s ((payload, out) ∷ jobs) ns) (sym (ap list good))
              (went s payload out s' out' n (nonce s.send_counter) p.0 p.1 jobs
                (nonces_used aead s' jobs) e sealed wire rest)
        | inr (x, bad) ↦
            subst (λ ns. Sealed aead s ((payload, out) ∷ jobs) ns) (sym (ap list bad))
              (refused s payload out s' out' x jobs (nonces_used aead s' jobs)
                (ap (λ q. (s', out', q)) bad) rest)
      ]

  -- Over any sequence of calls of `encrypt`, whatever their payloads and buffers, the packets that go
  -- out were sealed by the cipher under pairwise distinct nonces.
  pub nonces_used-Distinct :
      (s : Session) (jobs : List (Bytes × Bytes))
      → (ns : List Bytes) × Sealed aead s jobs ns × Distinct ns
  nonces_used-Distinct s jobs = (
    nonces_used aead s jobs,
    nonces_used-Sealed s jobs,
    (nonces_used-From-Distinct aead s jobs).1,
  )
