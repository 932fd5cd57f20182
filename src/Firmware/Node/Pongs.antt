-- ===== src/Firmware/Node/Pongs.antt =====
-- The pongs that a node sends, of crates/lando-fw/src/wg.rs, and the nonces that the box seals them
-- under.
use lando.Prelude.{
  ℕ, Result, ◌^◌, ◌<◌, ◌≡◌, refl, sym, ap, subst, ◌⊎◌, inl, inr, Bool, true, false, Bool-cases,
  ◌&&◌, Option, none, some, Option-cases, List, [], ◌∷◌, length, All, if◌then◌else◌, arith,
  Result-cases, ok, err, ltb,
}
use lando.Prelude.Bytes.{Bytes, IsByte, slice, copy_at}
use lando.Crypto.{Suite, Box}
use lando.Disco
use lando.Disco.{place_pong, place_header, write_pong}
use lando.Wireguard.Transport.Nonces.{Distinct}
use lando.Firmware.Node.{
  Node, Source, Action, reply, bump, handle, handle_disco, answer_ping, replied, seen_at,
}
use lando.Firmware.Node.Nonces.{is_some, pinged, pong_nonces, pong_nonces-Ahead-Distinct}

-- What `write_pong` leaves in the buffer before it seals, and the text that it seals.
abbrev laid_out : Bytes → Bytes → Bytes → Source → Bytes → Bytes
laid_out public nonce tx_id from out =
    place_pong tx_id (seen_at from).0 (seen_at from).1 (place_header public nonce out)

-- A packet is the ping of a peer, and the result is an answer to it: a pong that the box sealed for this peer
-- under the node's next nonce, which is also the nonce of the pong's cleartext header.
pub record Pong (box : Box) (node : Node) (packet : Bytes) (from : Source) (out nonce : Bytes)
    (result : Node × Bytes × Option Action) : Type 0 where
  header : Disco.Header
  sealed : Bytes
  ping : Disco.Ping
  cipher : Bytes
  tag : Bytes
  text : Bytes
  parsed : Disco.parse_header packet ≡ ok (header, sealed)
  opened : Disco.open_ box node.disco_key header sealed 256 ≡ ok text
  asks : Disco.parse_ping text ≡ ok ping
  encrypted :
      box.encrypt node.disco_key header.sender nonce
        (slice (laid_out node.disco_public nonce ping.tx_id from out) 78 32)
      ≡ some (cipher, tag)
  advanced : (nonce ≡ bump node.nonce) × (result.0.nonce ≡ nonce)
  sent : result.2 ≡ some (reply 110)
  written :
      result.1
      ≡ copy_at (copy_at (laid_out node.disco_public nonce ping.tx_id from out) 78 cipher) 62 tag

module _ (suite : Suite) (box : Box) where
  -- What `handle` did over a run of packets: the pongs that went out were sealed by the box under these
  -- nonces, one for each.
  pub data Answers : Node → List (Bytes × Source × Bytes) → List Bytes → Type 0 where
    nothing : (node : Node) → Answers node [] []
    other :
        (node : Node) (packet : Bytes) (from : Source) (out : Bytes)
        (calls : List (Bytes × Source × Bytes)) (ns : List Bytes)
        → (pinged suite box node packet ≡ none) ⊎ ((handle suite box node packet from out).2 ≡ none)
        → Answers (handle suite box node packet from out).0 calls ns
        → Answers node ((packet, from, out) ∷ calls) ns
    ponged :
        (node : Node) (packet : Bytes) (from : Source) (out nonce : Bytes)
        (calls : List (Bytes × Source × Bytes)) (ns : List Bytes)
        → Pong box node packet from out nonce (handle suite box node packet from out)
        → Answers (handle suite box node packet from out).0 calls ns
        → Answers node ((packet, from, out) ∷ calls) (nonce ∷ ns)

module _ (suite : Suite) (box : Box) where
  abbrev Outcome : Node → Bytes → Source → Bytes → Node × Bytes × Option Action → Type 0
  Outcome node packet from out r =
      ((pinged suite box node packet ≡ none) ⊎ (r.2 ≡ none))
      ⊎ Pong box node packet from out r.0.nonce r

  answer_ping-Outcome :
      (node : Node) (packet : Bytes) (header : Disco.Header) (sealed : Bytes) (from : Source)
      (out text : Bytes) (ping : Disco.Ping)
      → Disco.parse_header packet ≡ ok (header, sealed)
      → Disco.open_ box node.disco_key header sealed 256 ≡ ok text
      → Disco.parse_ping text ≡ ok ping
      → Outcome node packet from out (answer_ping suite box node header from out ping)
  unfolding answer_ping replied write_pong
  answer_ping-Outcome node packet header sealed from out text ping parsed opened asks =
      let nonce = bump node.nonce in
      let key = node.disco_public in
      let node' = record node { nonce = nonce } in
      let laid = laid_out key nonce ping.tx_id from out in
      let write =
        write_pong box node.disco_key key header.sender nonce ping.tx_id (seen_at from).0
          (seen_at from).1 out in
      let go =
        λ (w : Bytes × Result Disco.DiscoError ℕ) (is : write ≡ w)
            (h : Outcome node packet from out (replied suite box node' w)).
          subst (λ v. Outcome node packet from out (replied suite box node' v)) (sym is) h in
      elim (Bool-cases (ltb (length out) 110)) [
        | inl short ↦
            go (out, err Disco.short_buffer) (rw (write_pong, short) refl) (inl (inr refl))
        | inr fits ↦
            elim (Option-cases
              (box.encrypt node.disco_key header.sender nonce (slice laid 78 32))) [
                | inl fails ↦
                    go (laid, err Disco.crypto) (rw (write_pong, fits, fails) refl) (inl (inr refl))
                | inr ((cipher, tag), e) ↦
                    go (copy_at (copy_at laid 78 cipher) 62 tag, ok 110)
                      (rw (write_pong, fits, e) refl)
                      (inr (record {
                        header = header;
                        sealed = sealed;
                        ping = ping;
                        cipher = cipher;
                        tag = tag;
                        text = text;
                        parsed = parsed;
                        opened = opened;
                        asks = asks;
                        encrypted = e;
                        sent = refl;
                        advanced = (refl, refl);
                        written = refl;
                      }))
              ]
      ]

  handle-Outcome :
      (node : Node) (packet : Bytes) (from : Source) (out : Bytes)
      → Outcome node packet from out (handle suite box node packet from out)
  unfolding handle handle_disco pinged
  handle-Outcome node packet from out = elim (Result-cases (Disco.parse_header packet)) [
    | inr (_, e) ↦ inl (inl (ground arith))
    | inl ((header, sealed), e) ↦
        rw (handle, e)
          (elim (Result-cases (Disco.open_ box node.disco_key header sealed 256)) [
            | inr (_, f) ↦ rw (handle_disco, f) (inl (inr refl))
            | inl (text, f) ↦
                rw (handle_disco, f)
                  (elim (Result-cases (Disco.parse_ping text)) [
                    | inr (_, g) ↦ rw g (inl (inr refl))
                    | inl (ping, g) ↦
                        rw g
                          (answer_ping-Outcome node packet header sealed from out text ping e f g)
                  ])
          ])
  ]

  Pong-pinged :
      (node : Node) (packet : Bytes) (from : Source) (out nonce : Bytes)
      {result : Node × Bytes × Option Action} (pong : Pong box node packet from out nonce result)
      → pinged suite box node packet ≡ some pong.ping
  unfolding pinged
  Pong-pinged node packet from out nonce pong =
      rw (pinged, pong.parsed) (rw (pinged, pong.opened) (rw (pinged, pong.asks) refl))

  pong_nonces-Answers :
      (node : Node) (calls : List (Bytes × Source × Bytes))
      → Answers suite box node calls (pong_nonces suite box node calls)
  unfolding pong_nonces
  pong_nonces-Answers node [] = nothing node
  pong_nonces-Answers node ((packet, from, out) ∷ calls) =
      let (node', out', r) = handle suite box node packet from out in
      let rest = pong_nonces-Answers node' calls in
      let ns = pong_nonces suite box node' calls in
      let test = is_some suite box (pinged suite box node packet) && is_some suite box r in
      let list = λ (b : Bool). if b then node'.nonce ∷ ns else ns in
      let skip = λ (h : (pinged suite box node packet ≡ none) ⊎ (r ≡ none)) (is : test ≡ false).
        subst (Answers suite box node ((packet, from, out) ∷ calls)) (sym (ap list is))
          (other node packet from out calls ns h rest) in
      elim (handle-Outcome node packet from out) [
        | inl (inl h) ↦ skip (inl h) (ground (arith, h))
        | inl (inr h) ↦ skip (inr h) (ground (arith, h))
        | inr pong ↦
            let is : test ≡ true =
              rw (Pong-pinged node packet from out node'.nonce pong, pong.sent) refl in
            subst (Answers suite box node ((packet, from, out) ∷ calls)) (sym (ap list is))
              (ponged node packet from out node'.nonce calls ns pong rest)
      ]

  -- Over fewer than `256 ^ 24` packets of any kind, from any sources and in any order, the pongs that a
  -- node answers with were sealed by the box under pairwise distinct nonces, which stand in their headers.
  pub pong_nonces-Distinct :
      (node : Node) (calls : List (Bytes × Source × Bytes))
      → All IsByte node.nonce
      → length node.nonce ≡ 24
      → length calls < 256 ^ 24
      → (ns : List Bytes) × Answers suite box node calls ns × Distinct ns
  pong_nonces-Distinct node calls bytes size few = (
    pong_nonces suite box node calls,
    pong_nonces-Answers node calls,
    (pong_nonces-Ahead-Distinct suite box (256 ^ 24) node calls (bytes, ap (λ k. 256 ^ k) size)
        few).1,
  )
