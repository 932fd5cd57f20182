-- ===== src/Disco/Pongs.antt =====
-- A pong that was written is opened by the peer.
use lando.Prelude.{
  ℕ, ◌+◌, ◌-◌, ◌≤◌, ◌≡◌, refl, sym, ap, ◌∙◌, false, some, List, [], ◌∷◌, ◌++◌, append_assoc,
  append-nil, length, take, drop, over, ltb, length-append, length-over, take-append_self,
  drop-append_self, ok, inl, inr, Option-cases, Bool-cases, arith,
}
use lando.Prelude.Bytes.{Bytes, slice, copy_at, to_be, eq_bytes_refl}
use lando.Prelude.Fields.{joined, length-joined, slice-joined, copy_at-field}
use lando.Prelude.Copies.{drop-copy_at, copy_at-again, copy_at-before, copy_at-next}
use lando.Crypto.{Box, BoxLaws}
use lando.Disco.{magic, Header, parse_header, open_, place_header, place_pong, write_pong}

-- The text of a pong: the transaction, and the address as it is mapped into IPv6, with its port.
abbrev pub pong_text : Bytes → Bytes → ℕ → Bytes
pong_text tx_id src_ip src_port =
    ((((2 ∷ 0 ∷ []) ++ tx_id) ++ (0 ∷ 0 ∷ 0 ∷ 0 ∷ 0 ∷ 0 ∷ 0 ∷ 0 ∷ 0 ∷ 0 ∷ 0xff ∷ 0xff ∷ []))
      ++ src_ip)
    ++ to_be 2 src_port

length-pong_text :
    (tx_id src_ip : Bytes) (src_port : ℕ)
    → length tx_id ≡ 12
    → length src_ip ≡ 4
    → length (pong_text tx_id src_ip src_port) ≡ 32
length-pong_text tx_id src_ip src_port h k =
    let mapped : Bytes = 0 ∷ 0 ∷ 0 ∷ 0 ∷ 0 ∷ 0 ∷ 0 ∷ 0 ∷ 0 ∷ 0 ∷ 0xff ∷ 0xff ∷ [] in
    let a : Bytes = (2 ∷ 0 ∷ []) ++ tx_id in
    omega (
      arith,
      length-append a mapped,
      length-append (a ++ mapped) src_ip,
      length-append ((a ++ mapped) ++ src_ip) (to_be 2 src_port),
    )

place_pong-pong_text :
    (tx_id src_ip : Bytes) (src_port : ℕ) (b : Bytes)
    → length tx_id ≡ 12
    → length src_ip ≡ 4
    → 78 ≤ length b
    → place_pong tx_id src_ip src_port b ≡ copy_at b 78 (pong_text tx_id src_ip src_port)
unfolding place_pong
place_pong-pong_text tx_id src_ip src_port b h k room =
    let mapped : Bytes = 0 ∷ 0 ∷ 0 ∷ 0 ∷ 0 ∷ 0 ∷ 0 ∷ 0 ∷ 0 ∷ 0 ∷ 0xff ∷ 0xff ∷ [] in
    let a : Bytes = (2 ∷ 0 ∷ []) ++ tx_id in
    let port = to_be 2 src_port in
    ap (λ t. copy_at (copy_at (copy_at (copy_at t 80 tx_id) 92 mapped) 104 src_ip) 108 port)
      (copy_at-next b (2 ∷ []) (0 ∷ []) 78 79 room refl)
    ∙ ap (λ t. copy_at (copy_at (copy_at t 92 mapped) 104 src_ip) 108 port)
        (copy_at-next b (2 ∷ 0 ∷ []) tx_id 78 80 room refl)
    ∙ ap (λ t. copy_at (copy_at t 104 src_ip) 108 port)
        (copy_at-next b a mapped 78 92 room (omega arith))
    ∙ ap (λ t. copy_at t 108 port)
        (copy_at-next b (a ++ mapped) src_ip 78 104 room (omega (arith, length-append a mapped)))
    ∙ copy_at-next b ((a ++ mapped) ++ src_ip) port 78 108 room
        (omega (arith, length-append a mapped, length-append (a ++ mapped) src_ip))

abbrev cleartext : Bytes → Bytes → Bytes
cleartext key nonce = joined (magic ∷ key ∷ nonce ∷ [])

place_header-over :
    (key nonce out : Bytes)
    → length key ≡ 32
    → place_header key nonce out ≡ over (cleartext key nonce) out
unfolding place_header
place_header-over key nonce out h =
    ap (λ b. copy_at (copy_at b 6 key) 38 nonce) (copy_at-field [] magic out 0 refl)
    ∙ ap (λ b. copy_at b 38 nonce) (copy_at-field (magic ∷ []) key out 6 refl)
    ∙ copy_at-field (magic ∷ key ∷ []) nonce out 38 (omega arith)

module _ (key nonce tx_id src_ip : Bytes) (src_port : ℕ) (out : Bytes) (k : length key ≡ 32)
    (n : length nonce ≡ 24) (t : length tx_id ≡ 12) (i : length src_ip ≡ 4)
    (room : 110 ≤ length out) where
  abbrev text : Bytes
  text = pong_text tx_id src_ip src_port

  abbrev placed : Bytes
  placed = place_pong tx_id src_ip src_port (place_header key nonce out)

  abbrev based : Bytes
  based = over (cleartext key nonce) out

  front_size : length (cleartext key nonce) ≡ 62
  front_size = omega (arith, length-joined (magic ∷ key ∷ nonce ∷ []))

  based_size : length based ≡ length out
  based_size = length-over (cleartext key nonce) out (omega (arith, front_size))

  placed_lem : placed ≡ copy_at based 78 text
  placed_lem =
      ap (place_pong tx_id src_ip src_port) (place_header-over key nonce out k)
      ∙ place_pong-pong_text tx_id src_ip src_port based t i (omega (arith, based_size))

  text_at : slice placed 78 32 ≡ text
  text_at =
      ap (λ b. slice b 78 32) placed_lem
      ∙ ap (take 32) (drop-copy_at based text 78 (omega (arith, based_size)))
      ∙ take-append_self text (drop (78 + length text) based) 32
          (sym (length-pong_text tx_id src_ip src_port t i))

  wire :
      (cipher tag : Bytes)
      → length cipher ≡ length text
      → length tag ≡ 16
      → take 110 (copy_at (copy_at placed 78 cipher) 62 tag)
        ≡ cleartext key nonce ++ (tag ++ cipher)
  wire cipher tag hc ht =
      let rest = drop (78 + length cipher) based in
      let body = length-pong_text tx_id src_ip src_port t i in
      let all =
        append_assoc (cleartext key nonce) (tag ++ cipher) rest
        ∙ ap (λ x. cleartext key nonce ++ x) (append_assoc tag cipher rest) in
      ap (λ b. take 110 (copy_at (copy_at b 78 cipher) 62 tag)) placed_lem
      ∙ ap (λ b. take 110 (copy_at b 62 tag))
          (copy_at-again based text 78 (omega (arith, based_size)) cipher hc)
      ∙ ap (take 110) (
          copy_at-before (cleartext key nonce) tag cipher out 62 78 (sym front_size)
            (omega (arith, front_size)) (omega (arith, based_size))
          ∙ sym all)
      ∙ take-append_self (cleartext key nonce ++ (tag ++ cipher)) rest 110 (
          omega (
            arith,
            front_size,
            body,
            length-append (cleartext key nonce) (tag ++ cipher),
            length-append tag cipher,
          ))

parses :
    (packet key nonce sealed : Bytes)
    → 62 ≤ length packet
    → take 6 packet ≡ magic
    → slice packet 6 32 ≡ key
    → slice packet 38 24 ≡ nonce
    → drop 62 packet ≡ sealed
    → parse_header packet ≡ ok (record { sender = key; nonce = nonce }, sealed)
unfolding parse_header
parses packet key nonce sealed h m k n s =
    let enough : ltb (length packet) 62 ≡ false = ground arith in
    rw enough (rw m (rw (eq_bytes_refl magic) (rw (k, n, s) refl)))

parse_header-cleartext :
    (key nonce sealed : Bytes)
    → length key ≡ 32
    → length nonce ≡ 24
    → parse_header (cleartext key nonce ++ sealed)
      ≡ ok (record { sender = key; nonce = nonce }, sealed)
parse_header-cleartext key nonce sealed k n =
    let fs : List Bytes = magic ∷ key ∷ nonce ∷ sealed ∷ [] in
    let same : joined fs ≡ cleartext key nonce ++ sealed =
      ap (λ s. magic ++ (key ++ (nonce ++ s))) (append-nil sealed)
      ∙ ap (λ s. magic ++ (key ++ s)) (ap (λ x. x ++ sealed) (sym (append-nil nonce)))
      ∙ ap (λ s. magic ++ s) (sym (append_assoc key (nonce ++ []) sealed)) in
    let whole : 62 ≤ length (cleartext key nonce ++ sealed) =
      omega (arith, ap length same, length-joined fs, k, n) in
    let at = λ (start len : ℕ) (f : Bytes) (h : slice (joined fs) start len ≡ f).
      ap (λ m. slice m start len) (sym same) ∙ h in
    parses (cleartext key nonce ++ sealed) key nonce sealed whole refl
      (at 6 32 key (slice-joined fs _ key 1 6 32 refl refl (sym k)))
      (at 38 24 nonce (slice-joined fs _ nonce 2 38 24 refl (omega (arith, k)) (sym n)))
      (drop-append_self (cleartext key nonce) sealed 62
        (omega (arith, length-joined (magic ∷ key ∷ nonce ∷ []), k, n)))

module _ (box : Box) (laws : BoxLaws box) where
  open_lem :
      (mine theirs nonce text cipher tag : Bytes) (room : ℕ)
      → length text ≤ room
      → box.encrypt mine (box.public theirs) nonce text ≡ some (cipher, tag)
      → open_ box theirs (record { sender = box.public mine; nonce = nonce }) (tag ++ cipher) room
        ≡ ok text
  unfolding open_
  open_lem mine theirs nonce text cipher tag room h e =
      let size = laws.length-encrypt mine (box.public theirs) nonce text cipher tag e in
      let tagged = laws.length-tag mine (box.public theirs) nonce text cipher tag e in
      let whole = length-append tag cipher in
      let enough : ltb (length (tag ++ cipher)) 16 ≡ false = ground arith in
      let fits : ltb room (length (tag ++ cipher) - 16) ≡ false = ground arith in
      rw (enough, fits)
        (rw
          (take-append_self tag cipher 16 (sym tagged), drop-append_self tag cipher 16 (sym tagged))
          (rw (laws.decrypt-encrypt mine theirs nonce text cipher tag e) refl))

  write_pong_ok :
      (mine theirs nonce tx_id src_ip out : Bytes) (src_port : ℕ) {out' : Bytes} {n : ℕ}
      → length nonce ≡ 24
      → length tx_id ≡ 12
      → length src_ip ≡ 4
      → write_pong box mine (box.public mine) (box.public theirs) nonce tx_id src_ip src_port out
        ≡ (out', ok n)
      → (p : Bytes × Bytes) × (box.encrypt mine
            (box.public theirs)
            nonce
            (pong_text tx_id src_ip src_port)
          ≡ some p)
        × (take n out' ≡ cleartext (box.public mine) nonce ++ (p.1 ++ p.0))
  unfolding write_pong
  write_pong_ok mine theirs nonce tx_id src_ip out src_port hn ht hi e =
      let key = laws.length-public mine in
      let placed = place_pong tx_id src_ip src_port (place_header (box.public mine) nonce out) in
      let run = λ (text : Bytes). box.encrypt mine (box.public theirs) nonce text in
      elim (Bool-cases (ltb (length out) 110)) [
        | inl short ↦ ground arith
        | inr fits ↦
            let room : 110 ≤ length out = ground arith in
            let is_text =
              text_at (box.public mine) nonce tx_id src_ip src_port out key hn ht hi room in
            elim (Option-cases (run (slice placed 78 32))) [
              | inl fails ↦ ground arith
              | inr ((cipher, tag), sealed) ↦
                  let sealed' = ap run (sym is_text) ∙ sealed in
                  let size =
                    laws.length-encrypt mine (box.public theirs) nonce _ cipher tag sealed' in
                  let tagged =
                    laws.length-tag mine (box.public theirs) nonce _ cipher tag sealed' in
                  (
                    (cipher, tag),
                    sealed',
                    ground (
                      arith,
                      wire (box.public mine) nonce tx_id src_ip src_port out key hn ht hi room
                          cipher tag size tagged,
                    ),
                  )
            ]
      ]

  -- A pong that `write_pong` wrote for a peer has the sender's public key and the nonce in its cleartext
  -- header, and the peer opens what is behind it to the pong's text: type and version, the transaction
  -- of the ping, and the address and port that the ping came from.
  pub write_pong-opens :
      (mine theirs nonce tx_id src_ip out : Bytes) (src_port room : ℕ) {out' : Bytes} {n : ℕ}
      → length nonce ≡ 24
      → length tx_id ≡ 12
      → length src_ip ≡ 4
      → 32 ≤ room
      → write_pong box mine (box.public mine) (box.public theirs) nonce tx_id src_ip src_port out
        ≡ (out', ok n)
      → (header : Header) × (sealed : Bytes) × (parse_header (take n out') ≡ ok (header, sealed))
        × (header ≡ record { sender = box.public mine; nonce = nonce })
        × (open_ box theirs header sealed room ≡ ok (pong_text tx_id src_ip src_port))
  write_pong-opens mine theirs nonce tx_id src_ip out src_port room hn ht hi hr e =
      let key = laws.length-public mine in
      let text = pong_text tx_id src_ip src_port in
      let (p, sealed, is_wire) =
        write_pong_ok mine theirs nonce tx_id src_ip out src_port hn ht hi e in
      (
        record { sender = box.public mine; nonce = nonce },
        p.1 ++ p.0,
        ap parse_header is_wire
            ∙ parse_header-cleartext (box.public mine) nonce (p.1 ++ p.0) key hn,
        refl,
        open_lem mine theirs nonce text p.0 p.1 room
            (omega (arith, length-pong_text tx_id src_ip src_port ht hi)) sealed,
      )
