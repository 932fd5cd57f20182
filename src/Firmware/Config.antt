-- ===== src/Firmware/Config.antt =====
-- The configuration sector of crates/lando-fw/src/config.rs. A text is its bytes. The flash is a parameter,
-- whose state the methods of `Store` return; a panic, which an index past the buffer is, is a `none` around
-- the result.
pub mod Writes
pub mod Reads
pub mod Stored
mod Tests
use lando.Prelude.{
  ℕ, ◌+◌, ◌-◌, ◌*◌, ◌%◌, ◌^◌, Bool, true, false, not, ◌&&◌, ◌||◌, Option, none, some, List, [], ◌∷◌,
  ◌++◌, length, get_or, take, replicate, ltb, leb, ◌==◌, if◌then◌else◌, ◌≡◌, ◌≤◌,
}
use lando.Prelude.Bytes.{Bytes, codes, slice, copy_at, eq_bytes}
use lando.Json.Utf8.{is_utf8}

-- `embassy_rp`'s blocking flash: the contents after an erasure or a write and whether it went well, and
-- what is read of so many bytes.
pub record Flash : Type 1 where
  pub Contents : Type 0
  pub read : Contents → ℕ → ℕ → Option Bytes
  pub erase : Contents → ℕ → ℕ → Contents × Bool
  pub write : Contents → ℕ → Bytes → Contents × Bool
  pub erase_size : ℕ

-- What was written into a range that had been erased is read, and a sector has room for the buffer.
pub record FlashLaws (f : Flash) : Type 0 where
  pub read-write :
      (c c' c'' : f.Contents) (from to : ℕ) (bytes : Bytes)
      → from + length bytes ≤ to
      → f.erase c from to ≡ (c', true)
      → f.write c' from bytes ≡ (c'', true)
      → f.read c'' from (length bytes) ≡ some bytes
  pub sector : 512 ≤ f.erase_size

abbrev pub flash_size : ℕ
flash_size = 4 * 1024 * 1024

abbrev pub magic : Bytes
magic = codes "LANDOCFG"

abbrev pub version : ℕ
version = 3

abbrev pub max_field : ℕ
max_field = 96

pub record Config : Type 0 where
  pub ssid : Bytes
  pub password : Bytes
  pub auth_key : Bytes
  pub control_host : Bytes
  pub control_key : Bytes
  pub machine_key : Option Bytes
  pub node_key : Option Bytes

unfoldable pub is_complete : Config → Bool
is_complete config = not (length config.ssid == 0) && not (length config.password == 0)

-- The closure `read_field`: its result, and the position after it.
unfoldable pub read_field : Bytes → ℕ → Option Bytes × ℕ
read_field buf pos =
    let len = get_or buf pos 0 in
    let text = slice buf (pos + 1) len in
    if leb (length buf) pos
    then (none, pos)
    else if ltb max_field len || ltb (length buf) (pos + 1 + len)
    then (none, pos)
    else if is_utf8 text
    then (some text, pos + 1 + len)
    else (none, pos)

-- The closure `read_key`.
unfoldable pub read_key : Bytes → ℕ → Option Bytes × ℕ
read_key buf pos =
    if leb (length buf) pos
    then (none, pos)
    else if not (get_or buf pos 0 == 1)
    then (none, pos + 1)
    else if ltb (length buf) (pos + 1 + 32)
    then (none, pos + 1)
    else (some (slice buf (pos + 1) 32), pos + 1 + 32)

-- `unwrap_or_default`
abbrev pub or_empty : Option Bytes → Bytes
or_empty none = []
or_empty (some text) = text

-- What follows the first two fields.
unfoldable pub read_rest : Bytes → Bytes → Bytes → ℕ → Config
read_rest buf ssid password pos0 =
    let (auth_key, pos1) = read_field buf pos0 in
    let (control_host, pos2) = read_field buf pos1 in
    let (control_key, pos3) = read_field buf pos2 in
    let (machine_key, pos4) = read_key buf pos3 in
    let (node_key, _) = read_key buf pos4 in
    record {
      ssid = ssid;
      password = password;
      auth_key = or_empty auth_key;
      control_host = or_empty control_host;
      control_key = or_empty control_key;
      machine_key = machine_key;
      node_key = node_key;
    }

unfoldable pub after_password : Bytes → Bytes → Option Bytes × ℕ → Option Config
after_password buf ssid (none, _) = none
after_password buf ssid (some password, pos) = some (read_rest buf ssid password pos)

unfoldable pub after_ssid : Bytes → Option Bytes × ℕ → Option Config
after_ssid buf (none, _) = none
after_ssid buf (some ssid, pos) = after_password buf ssid (read_field buf pos)

-- The sector's bytes, as `load` reads them.
unfoldable pub parse_config : Bytes → Option Config
parse_config buf =
    if not (eq_bytes (take 8 buf) magic) || not (get_or buf 8 0 == version)
    then none
    else after_ssid buf (read_field buf 9)

-- A step of `save`'s loops: the buffer and the position after it, or a panic.
unfoldable pub write_field : Bytes × ℕ → Bytes → Option (Bytes × ℕ)
write_field (buf, pos) bytes =
    let n = length bytes in
    if ltb (length buf) (pos + 1 + n)
    then none
    else some (copy_at (copy_at buf pos (n % 256 ∷ [])) (pos + 1) bytes, pos + 1 + n)

unfoldable pub write_key : Bytes × ℕ → Option Bytes → Option (Bytes × ℕ)
write_key (buf, pos) (some k) =
    if ltb (length buf) (pos + 33)
    then none
    else some (copy_at (copy_at buf pos (1 ∷ [])) (pos + 1) k, pos + 33)
write_key (buf, pos) none =
    if ltb (length buf) (pos + 1) then none else some (copy_at buf pos (0 ∷ []), pos + 1)

-- The step that follows, unless there was a panic.
abbrev pub followed : Option (Bytes × ℕ) → (Bytes × ℕ → Option (Bytes × ℕ)) → Option (Bytes × ℕ)
followed none k = none
followed (some next) k = k next

unfoldable pub write_fields : List Bytes → Bytes × ℕ → Option (Bytes × ℕ)
write_fields [] at = some at
write_fields (field ∷ fields) at = followed (write_field at field) (write_fields fields)

unfoldable pub write_keys : List (Option Bytes) → Bytes × ℕ → Option (Bytes × ℕ)
write_keys [] at = some at
write_keys (key ∷ keys) at = followed (write_key at key) (write_keys keys)

abbrev pub buffer_of : Option (Bytes × ℕ) → Option Bytes
buffer_of none = none
buffer_of (some (buf, _)) = some buf

-- The buffer that `save` writes.
unfoldable pub encode_config : Config → Option Bytes
encode_config config =
    let buf = copy_at (copy_at (replicate 512 0) 0 magic) 8 (version ∷ []) in
    let fields =
      config.ssid ∷ config.password ∷ config.auth_key ∷ config.control_host ∷ config.control_key
      ∷ [] in
    buffer_of (
      followed (write_fields fields (buf, 9))
        (write_keys (config.machine_key ∷ config.node_key ∷ [])))

module _ (flash : Flash) where
  abbrev pub config_offset : ℕ
  config_offset = flash_size - flash.erase_size

  unfoldable pub load : flash.Contents → Option Config
  load c = elim (flash.read c config_offset 512) [ none ↦ none | some buf ↦ parse_config buf ]

  unfoldable pub save : flash.Contents → Config → Option (flash.Contents × Bool)
  save c config = elim (encode_config config) [
    | none ↦ none
    | some buf ↦
        let (c', erased) = flash.erase c config_offset (config_offset + flash.erase_size) in
        some (if erased then flash.write c' config_offset buf else (c', false))
  ]

  unfoldable pub clear : flash.Contents → flash.Contents × Bool
  clear c = flash.erase c config_offset (config_offset + flash.erase_size)
