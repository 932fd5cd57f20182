-- ===== src/Firmware/Node/Nonces.antt =====
-- The nonces of the pongs of a node, over the packets that it handles.
use lando.Prelude.{
  ℕ, suc, ◌+◌, ◌<◌, ◌≡◌, refl, sym, ap, subst, ◌∙◌, ◌⊎◌, inl, inr, Bool, Bool-cases, Option, none,
  some, Option-cases, List, [], ◌∷◌, length, All, if◌then◌else◌, true, false, arith, Result-cases,
  ok, err, ltb, ◌&&◌,
}
use lando.Prelude.Bytes.{Bytes, from_le}
use lando.Crypto.{Suite, Box}
use lando.Disco
use lando.Tsmp
use lando.Wireguard.Transport
use lando.Wireguard.Transport.Nonces.{Distinct}
use lando.Wireguard.Handshake.{consume_initiation, respond}
use lando.Firmware.Node.Counting.{
  Ahead, Counts, bump-Counts, All-Ahead_next, All-Ahead-ne, All-Ahead_more, from_le-lt,
}
use lando.Firmware.Node.{
  Node, PeerSlot, Source, bump, handle, handle_wireguard, handle_initiation, handle_transport,
  handle_plain, handle_disco, answer_ping, answer_tsmp, replied, ephemeral_of, seen_at,
}

module _ (suite : Suite) (box : Box) where
  handle_plain-nonce :
      (node : Node) (slot : PeerSlot) (session : Transport.Session) (text out : Bytes)
      → (handle_plain suite box node slot session text out).0.nonce ≡ node.nonce
  unfolding handle_plain answer_tsmp
  handle_plain-nonce node slot session text out = elim (Option-cases (Tsmp.parse_ping text)) [
    | inl e ↦ rw (handle_plain, e) (ground arith)
    | inr (ping, e) ↦ rw (handle_plain, e) (ground arith)
  ]

  handle_transport-nonce :
      (node : Node) (packet : Bytes) (from : Source) (out : Bytes)
      → (handle_transport suite box node packet from out).0.nonce ≡ node.nonce
  unfolding handle_transport
  handle_transport-nonce node packet from out = elim (Option-cases node.peer) [
    | inl e ↦ rw e refl
    | inr (slot, e) ↦ rw e (elim (Bool-cases (ltb 1600 (length packet))) [
      | inl long ↦ rw long refl
      | inr fits ↦
          rw fits (elim (Result-cases (Transport.decrypt suite.aead slot.session packet).1) [
            | inr (_, bad) ↦ rw bad refl
            | inl (text, good) ↦ rw good (
                handle_plain-nonce (record node { peer = some slot })
                  (record slot { source = from })
                  (Transport.decrypt suite.aead slot.session packet).0 text out)
          ])
    ])
  ]

  handle_initiation-nonce :
      (node : Node) (packet : Bytes) (from : Source) (out : Bytes)
      → (handle_initiation suite box node packet from out).0.nonce ≡ node.nonce
  unfolding handle_initiation
  handle_initiation-nonce node packet from out =
      elim (Result-cases (consume_initiation suite node.node_key packet)) [
        | inr (_, bad) ↦ rw (handle_initiation, bad) refl
        | inl ((responder, learned), good) ↦
            rw (handle_initiation, good)
              (elim (Result-cases
                (respond suite responder (ephemeral_of node.next_index packet) node.next_index)) [
                  | inr (_, bad) ↦ rw bad refl
                  | inl ((response, keys), sent) ↦ rw sent (ground arith)
                ])
      ]

  handle_wireguard-nonce :
      (node : Node) (packet : Bytes) (from : Source) (out : Bytes)
      → (handle_wireguard suite box node packet from out).0.nonce ≡ node.nonce
  unfolding handle_wireguard
  handle_wireguard-nonce node [] from out = refl
  handle_wireguard-nonce node (kind ∷ rest) from out = ground (
    arith,
    handle_initiation-nonce node (kind ∷ rest) from out,
    handle_transport-nonce node (kind ∷ rest) from out,
  )

  abbrev pub is_some : {A : Type 0} → Option A → Bool
  is_some none = false
  is_some (some _) = true

  -- The ping that a packet holds for the node.
  unfoldable pub pinged : Node → Bytes → Option Disco.Ping
  pinged node packet = elim (Disco.parse_header packet) [
    | err _ ↦ none
    | ok (header, sealed) ↦ elim (Disco.open_ box node.disco_key header sealed 256) [
      | err _ ↦ none
      | ok text ↦ elim (Disco.parse_ping text) [ err _ ↦ none | ok ping ↦ some ping ]
    ]
  ]

  answer_ping-nonce :
      (node : Node) (header : Disco.Header) (from : Source) (out : Bytes) (ping : Disco.Ping)
      → (answer_ping suite box node header from out ping).0.nonce ≡ bump node.nonce
  unfolding answer_ping replied
  answer_ping-nonce node header from out ping =
      elim (Result-cases
        (Disco.write_pong box node.disco_key node.disco_public header.sender (bump node.nonce)
          ping.tx_id (seen_at from).0 (seen_at from).1 out).1) [
            | inl (n, e) ↦ rw (answer_ping, replied, e) refl
            | inr (_, e) ↦ rw (answer_ping, replied, e) refl
          ]

  handle-nonce :
      (node : Node) (packet : Bytes) (from : Source) (out : Bytes)
      → (handle suite box node packet from out).0.nonce
        ≡ (if is_some (pinged node packet) then bump node.nonce else node.nonce)
  unfolding handle handle_disco pinged
  handle-nonce node packet from out = elim (Result-cases (Disco.parse_header packet)) [
    | inr (_, e) ↦ rw (handle, pinged, e) (handle_wireguard-nonce node packet from out)
    | inl ((header, sealed), e) ↦
        rw (handle, pinged, e)
          (elim (Result-cases (Disco.open_ box node.disco_key header sealed 256)) [
            | inr (_, f) ↦ rw (handle_disco, f) refl
            | inl (text, f) ↦
                rw (handle_disco, f)
                  (elim (Result-cases (Disco.parse_ping text)) [
                    | inr (_, g) ↦ rw g refl
                    | inl (ping, g) ↦ rw g (answer_ping-nonce node header from out ping)
                  ])
          ])
  ]

  -- The nonces of the pongs that a node answers with over a run of packets, each with its source and the
  -- buffer for the answer.
  unfoldable pub pong_nonces : Node → List (Bytes × Source × Bytes) → List Bytes
  pong_nonces node [] = []
  pong_nonces node ((packet, from, out) ∷ calls) =
      let node' = (handle suite box node packet from out).0 in
      let rest = pong_nonces node' calls in
      let answered = is_some (handle suite box node packet from out).2 in
      if is_some (pinged node packet) && answered then node'.nonce ∷ rest else rest

  pub pong_nonces-Ahead-Distinct :
      (p : ℕ) (node : Node) (calls : List (Bytes × Source × Bytes))
      → Counts p node.nonce
      → length calls < p
      → All (Ahead p (from_le node.nonce) (length calls)) (pong_nonces node calls)
        × Distinct (pong_nonces node calls)
  unfolding pong_nonces
  pong_nonces-Ahead-Distinct p node [] counts few = (tt, tt)
  pong_nonces-Ahead-Distinct p node ((packet, from, out) ∷ calls) counts few =
      let node' = (handle suite box node packet from out).0 in
      let next = handle-nonce node packet from out in
      let k = length calls in
      let v = from_le node.nonce in
      let below : v < p = omega (arith, from_le-lt node.nonce counts.0, counts.1) in
      elim (Bool-cases (is_some (pinged node packet))) [
        | inl e ↦
            let is : node'.nonce ≡ bump node.nonce =
              next ∙ ap (λ b. if b then bump node.nonce else node.nonce) e in
            let (counts', moved) =
              subst (λ n. Counts p n × ((from_le n ≡ v + 1) ⊎ (from_le n + p ≡ v + 1))) (sym is)
                (bump-Counts p node.nonce counts) in
            let (ahead, distinct) =
              pong_nonces-Ahead-Distinct p node' calls counts' (omega arith) in
            let later : All (Ahead p v (suc k)) (pong_nonces node' calls) =
              All-Ahead_next p v (from_le node'.nonce) k (pong_nonces node' calls) below few moved
                ahead in
            rw e (elim (Bool-cases (is_some (handle suite box node packet from out).2)) [
              | inl a ↦ rw a (
                ((1, omega arith, omega arith, moved), later),
                (
                  All-Ahead-ne p k node'.nonce (pong_nonces node' calls) (omega arith) ahead,
                  distinct,
                ),
              )
              | inr a ↦ rw a (later, distinct)
            ])
        | inr e ↦
            let is : node'.nonce ≡ node.nonce =
              next ∙ ap (λ b. if b then bump node.nonce else node.nonce) e in
            let (ahead, distinct) =
              pong_nonces-Ahead-Distinct p node' calls (subst (Counts p) (sym is) counts)
                (omega arith) in
            rw e (
              All-Ahead_more p v k (pong_nonces node' calls)
                  (subst (λ n. All (Ahead p (from_le n) k) (pong_nonces node' calls)) is ahead),
              distinct,
            )
      ]
