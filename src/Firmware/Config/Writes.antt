-- ===== src/Firmware/Config/Writes.antt =====
-- The bytes that a configuration is saved as.
use lando.Prelude.{
  ℕ, ◌+◌, ◌%◌, ◌≤◌, ◌≡◌, refl, sym, ap, ap₂, ◌∙◌, inl, inr, true, false, Bool-cases, Option, none,
  some, List, [], ◌∷◌, ◌++◌, map, length, over, replicate, ltb, leb, if◌then◌else◌, All, arith,
  append_assoc, append-nil, length-append,
}
use lando.Prelude.Bytes.{Bytes, copy_at, copy_at-over}
use lando.Prelude.Fields.{joined}
use lando.Prelude.Copies.{length-over}
use lando.Firmware.Config.{
  Config, magic, version, write_field, write_key, write_fields, write_keys, encode_config, followed,
  buffer_of,
}

-- What stands for a text, and for a key.
abbrev pub field_text : Bytes → Bytes
field_text bytes = length bytes % 256 ∷ bytes

abbrev pub key_text : Option Bytes → Bytes
key_text none = 0 ∷ []
key_text (some k) = 1 ∷ k

-- A text at the front of a buffer and the position behind it, if there is room.
abbrev pub placed : Bytes → Bytes → Option (Bytes × ℕ)
placed text out = if leb (length text) (length out) then some (over text out, length text) else none

pub placed-followed :
    (text more out : Bytes) (k : Bytes × ℕ → Option (Bytes × ℕ))
    → (length text ≤ length out → k (over text out, length text) ≡ placed (text ++ more) out)
    → followed (placed text out) k ≡ placed (text ++ more) out
placed-followed text more out k h = elim (Bool-cases (leb (length text) (length out))) [
  | inl e ↦ rw e (h (ground arith))
  | inr e ↦
      let full : leb (length (text ++ more)) (length out) ≡ false =
        ground (arith, length-append text more) in
      rw (e, full) refl
]

pub write_field_lem :
    (front out bytes : Bytes)
    → length front ≤ length out
    → write_field (over front out, length front) bytes ≡ placed (front ++ field_text bytes) out
unfolding write_field
write_field_lem front out bytes h =
    let n = length bytes in
    let size = length-append front (field_text bytes) in
    let twice =
      ap (λ b. copy_at b (length front + 1) bytes)
        (copy_at-over front (n % 256 ∷ []) out (length front) refl)
      ∙ copy_at-over (front ++ (n % 256 ∷ [])) bytes out (length front + 1)
          (sym (length-append front (n % 256 ∷ [])))
      ∙ ap (λ f. over f out) (append_assoc front (n % 256 ∷ []) bytes) in
    elim (Bool-cases (leb (length (front ++ field_text bytes)) (length out))) [
      | inl e ↦
          let room : ltb (length (over front out)) (length front + 1 + n) ≡ false =
            ground (arith, length-over front out h, size) in
          rw (room, e) (ap₂ (λ b i. some (b, i)) twice (omega (arith, size)))
      | inr e ↦
          let full : ltb (length (over front out)) (length front + 1 + n) ≡ true =
            ground (arith, length-over front out h, size) in
          rw (full, e) refl
    ]

pub write_fields_lem :
    (fields : List Bytes) (front out : Bytes)
    → length front ≤ length out
    → write_fields fields (over front out, length front)
      ≡ placed (front ++ joined (map field_text fields)) out
unfolding write_fields
write_fields_lem [] front out h =
    let room : leb (length front) (length out) ≡ true = ground arith in
    rw (append-nil front, room) refl
write_fields_lem (field ∷ fields) front out h =
    ap (λ r. followed r (write_fields fields)) (write_field_lem front out field h)
    ∙ placed-followed (front ++ field_text field) (joined (map field_text fields)) out
        (write_fields fields) (write_fields_lem fields (front ++ field_text field) out)
    ∙ ap (λ t. placed t out)
        (append_assoc front (field_text field) (joined (map field_text fields)))

-- A key has 32 bytes.
abbrev pub IsKey : Option Bytes → Type 0
IsKey none = Unit
IsKey (some k) = length k ≡ 32

pub write_key_lem :
    (front out : Bytes) (key : Option Bytes)
    → IsKey key
    → length front ≤ length out
    → write_key (over front out, length front) key ≡ placed (front ++ key_text key) out
unfolding write_key
write_key_lem front out none s h =
    let size = length-append front (0 ∷ []) in
    elim (Bool-cases (leb (length (front ++ 0 ∷ [])) (length out))) [
      | inl e ↦
          let room : ltb (length (over front out)) (length front + 1) ≡ false =
            ground (arith, length-over front out h, size) in
          rw (room, e)
            (ap₂ (λ b i. some (b, i)) (copy_at-over front (0 ∷ []) out (length front) refl)
              (sym size))
      | inr e ↦
          let full : ltb (length (over front out)) (length front + 1) ≡ true =
            ground (arith, length-over front out h, size) in
          rw (full, e) refl
    ]
write_key_lem front out (some k) s h =
    let size = length-append front (1 ∷ k) in
    let twice =
      ap (λ b. copy_at b (length front + 1) k) (copy_at-over front (1 ∷ []) out (length front) refl)
      ∙ copy_at-over (front ++ (1 ∷ [])) k out (length front + 1)
          (sym (length-append front (1 ∷ [])))
      ∙ ap (λ f. over f out) (append_assoc front (1 ∷ []) k) in
    elim (Bool-cases (leb (length (front ++ 1 ∷ k)) (length out))) [
      | inl e ↦
          let room : ltb (length (over front out)) (length front + 33) ≡ false =
            ground (arith, length-over front out h, size) in
          rw (room, e) (ap₂ (λ b i. some (b, i)) twice (omega (arith, size)))
      | inr e ↦
          let full : ltb (length (over front out)) (length front + 33) ≡ true =
            ground (arith, length-over front out h, size) in
          rw (full, e) refl
    ]

pub write_keys_lem :
    (keys : List (Option Bytes)) (front out : Bytes)
    → All IsKey keys
    → length front ≤ length out
    → write_keys keys (over front out, length front)
      ≡ placed (front ++ joined (map key_text keys)) out
unfolding write_keys
write_keys_lem [] front out s h =
    let room : leb (length front) (length out) ≡ true = ground arith in
    rw (append-nil front, room) refl
write_keys_lem (key ∷ keys) front out s h =
    ap (λ r. followed r (write_keys keys)) (write_key_lem front out key s.0 h)
    ∙ placed-followed (front ++ key_text key) (joined (map key_text keys)) out (write_keys keys)
        (write_keys_lem keys (front ++ key_text key) out s.1)
    ∙ ap (λ t. placed t out) (append_assoc front (key_text key) (joined (map key_text keys)))

abbrev pub header : Bytes
header = magic ++ version ∷ []

-- What texts and keys are stored as.
abbrev pub stored : List Bytes → List (Option Bytes) → Bytes
stored fields keys = (header ++ joined (map field_text fields)) ++ joined (map key_text keys)

-- A text at the front of a buffer, if there is room.
abbrev pub filled : Bytes → Bytes → Option Bytes
filled text out = if leb (length text) (length out) then some (over text out) else none

pub buffer_of-placed : (text out : Bytes) → buffer_of (placed text out) ≡ filled text out
buffer_of-placed text out = elim (Bool-cases (leb (length text) (length out))) [
  | inl e ↦ rw e refl
  | inr e ↦ rw e refl
]

pub stored_lem :
    (fields : List Bytes) (keys : List (Option Bytes)) (out : Bytes)
    → All IsKey keys
    → length header ≤ length out
    → buffer_of (
        followed
          (write_fields fields (copy_at (copy_at out 0 magic) 8 (version ∷ []), 9))
          (write_keys keys))
      ≡ filled (stored fields keys) out
stored_lem fields keys out h room =
    let start =
      ap (λ b. copy_at b 8 (version ∷ [])) (copy_at-over [] magic out 0 refl)
      ∙ copy_at-over magic (version ∷ []) out 8 refl in
    let front = header ++ joined (map field_text fields) in
    ap (λ b. buffer_of (followed (write_fields fields (b, 9)) (write_keys keys))) start
    ∙ ap (λ r. buffer_of (followed r (write_keys keys))) (write_fields_lem fields header out room)
    ∙ ap buffer_of (
        placed-followed front (joined (map key_text keys)) out (write_keys keys)
          (write_keys_lem keys front out h))
    ∙ buffer_of-placed (stored fields keys) out

-- The bytes of a configuration.
abbrev pub config_text : Config → Bytes
config_text c =
    stored (c.ssid ∷ c.password ∷ c.auth_key ∷ c.control_host ∷ c.control_key ∷ [])
      (c.machine_key ∷ c.node_key ∷ [])

-- `save` fills its buffer of 512 bytes with the configuration's bytes and zeros behind them, if they
-- fit; if they do not, it panics. The two keys have 32 bytes each.
pub encode_config_lem :
    (c : Config)
    → IsKey c.machine_key
    → IsKey c.node_key
    → encode_config c ≡ filled (config_text c) (replicate 512 0)
unfolding encode_config
encode_config_lem c hm hn =
    stored_lem (c.ssid ∷ c.password ∷ c.auth_key ∷ c.control_host ∷ c.control_key ∷ [])
      (c.machine_key ∷ c.node_key ∷ []) (replicate 512 0) (hm, (hn, tt)) (omega arith)
