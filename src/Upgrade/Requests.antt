-- ===== src/Upgrade/Requests.antt =====
-- The text of the upgrade request.
use lando.Prelude.{
  ◌+◌, ◌≤◌, ◌≡◌, refl, sym, ap, ap₂, ◌∙◌, inl, inr, Bool-cases, List, [], ◌∷◌, ◌++◌, length, take,
  drop, replicate, ltb, leb, if◌then◌else◌, Result, ok, err, ◌>>=◌, arith, append_assoc, append-nil,
  length-append, take-append_self, over, true, false,
}
use lando.Prelude.Bytes.{codes, Bytes, copy_at-over}
use lando.Prelude.Fields.{joined}
use lando.Prelude.Copies.{length-over}
use lando.Upgrade.Base64.{encoded, length-encoded, base64_encode_lem}
use lando.Upgrade.{
  Writer, UpgradeError, short_buffer, write_bytes, write_each, base64_encode, request_parts,
  build_request,
}

-- The writer that has written a text into a buffer.
abbrev pub written : Bytes → Bytes → Writer
written text out = record { buf = over text out; pos = length text }

-- Writing a text, or the refusal for want of room.
abbrev pub writes : Bytes → Bytes → Result UpgradeError Writer
writes text out = if leb (length text) (length out) then ok (written text out) else err short_buffer

write_bytes_lem :
    (p front out : Bytes)
    → length front ≤ length out
    → write_bytes p (written front out) ≡ writes (front ++ p) out
unfolding write_bytes
write_bytes_lem p front out h = elim (Bool-cases (leb (length (front ++ p)) (length out))) [
  | inl e ↦
      let room : ltb (length (over front out)) (length front + length p) ≡ false =
        ground (arith, length-over front out h, length-append front p) in
      rw (room, e)
        (ap₂ (λ b n. ok (record { buf = b; pos = n }))
          (copy_at-over front p out (length front) refl) (sym (length-append front p)))
  | inr e ↦
      let full : ltb (length (over front out)) (length front + length p) ≡ true =
        ground (arith, length-over front out h, length-append front p) in
      rw (full, e) refl
]

-- Writing parts one after the other writes them joined, or is refused for room.
write_each_lem :
    (parts : List Bytes) (front out : Bytes)
    → length front ≤ length out
    → write_each parts (written front out) ≡ writes (front ++ joined parts) out
unfolding write_each
write_each_lem [] front out h =
    let room : leb (length front) (length out) ≡ true = ground arith in
    rw (append-nil front, room) refl
write_each_lem (p ∷ parts) front out h =
    elim (Bool-cases (leb (length (front ++ p)) (length out))) [
      | inl e ↦
          let first : writes (front ++ p) out ≡ ok (written (front ++ p) out) = rw e refl in
          ap (λ r. r >>= write_each parts) (write_bytes_lem p front out h ∙ first)
          ∙ write_each_lem parts (front ++ p) out (ground arith)
          ∙ ap (λ t. writes t out) (append_assoc front p (joined parts))
      | inr e ↦
          let full : leb (length (front ++ (p ++ joined parts))) (length out) ≡ false = ground (
            arith,
            length-append front (p ++ joined parts),
            length-append p (joined parts),
            length-append front p,
          ) in
          let refuses : writes (front ++ p) out ≡ err short_buffer = rw e refl in
          ap (λ r. r >>= write_each parts) (write_bytes_lem p front out h ∙ refuses) ∙ rw full refl
    ]

-- The request as it stands on the wire.
abbrev pub request_text : Bytes → Bytes → Bytes
request_text host text =
    codes "POST /ts2021 HTTP/1.1\r\nHost: "
    ++ (host
        ++ (codes
              "\r\nUpgrade: tailscale-control-protocol\r\nConnection: upgrade\r\nX-Tailscale-Handshake: "
            ++ (text ++ codes "\r\nContent-Length: 0\r\n\r\n")))

request_parts_lem : (host text : Bytes) → joined (request_parts host text) ≡ request_text host text
request_parts_lem host text = refl

-- `build_request` for a message of at most 150 bytes writes at the front of the buffer the request line
-- for `/ts2021`, the `Host`, `Upgrade` and `Connection` headers, the message's Base64 text as
-- `X-Tailscale-Handshake`, a `Content-Length` of 0 and the blank line; or it is refused, if and only if
-- the buffer has no room for them.
pub build_request_lem :
    (host initiation out : Bytes)
    → length initiation ≤ 150
    → build_request host initiation out ≡ writes (request_text host (encoded initiation)) out
unfolding build_request
build_request_lem host initiation out h =
    let text = encoded initiation in
    let fits : leb (length text) 200 ≡ true = ground (arith, length-encoded initiation) in
    let done : base64_encode initiation (replicate 200 0)
        ≡ (over text (replicate 200 0), ok (length text)) =
      base64_encode_lem initiation (replicate 200 0) ∙ rw fits refl in
    ap
      (λ r.
        r.1 >>= λ n. write_each (request_parts host (take n r.0)) (record { buf = out; pos = 0 }))
      done
    ∙ ap (λ t. write_each (request_parts host t) (written [] out))
        (take-append_self text (drop (length text) (replicate 200 0)) (length text) refl)
    ∙ write_each_lem (request_parts host text) [] out (omega arith)
    ∙ ap (λ t. writes t out) (request_parts_lem host text)
