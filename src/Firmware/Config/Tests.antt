-- ===== src/Firmware/Config/Tests.antt =====
-- A configuration in a flash of one sector.
use lando.Prelude.{
  ℕ, Bool, List, [], over, ◌≡◌, refl, sym, ap, ◌∙◌, true, some, none, length, take, take_all,
  replicate, arith,
}
use lando.Prelude.Bytes.{codes}
use lando.Json.Utf8.{is_utf8}
use lando.Firmware.Config.{Flash, FlashLaws, Config, load, save, encode_config}
use lando.Firmware.Config.Writes.{filled, config_text, encode_config_lem}
use lando.Firmware.Config.Reads.{IsValid}
use lando.Firmware.Config.Stored.{load-save}

-- A flash that remembers what was written last.
abbrev chip : Flash
chip = record {
  Contents = List ℕ;
  read = λ c from n. some (take n c);
  erase = λ c from to. ([], true);
  write = λ c from bytes. (bytes, true);
  erase_size = 4096;
}

chip-FlashLaws : FlashLaws chip
chip-FlashLaws = record {
  read-write = λ c c' c'' from to bytes room erased written.
      ap (λ (p : List ℕ × Bool). some (take (length bytes) p.0)) (sym written)
      ∙ ap some (take_all bytes (length bytes) (omega arith));
  sector = omega arith;
}

abbrev home : Config
home = record {
  ssid = codes "wifi";
  password = codes "secret";
  auth_key = [];
  control_host = codes "example.org";
  control_key = [];
  machine_key = some (replicate 32 7);
  node_key = none;
}

home-IsValid : IsValid home
unfolding is_utf8
home-IsValid = record {
  ssid = (omega arith, refl);
  password = (omega arith, refl);
  auth_key = (omega arith, refl);
  control_host = (omega arith, refl);
  control_key = (omega arith, refl);
  machine_key = refl;
  node_key = tt;
}

abbrev sector : List ℕ
sector = over (config_text home) (replicate 512 0)

saves : save chip [] home ≡ some (sector, true)
unfolding save
saves =
    let wrote : encode_config home ≡ some sector = encode_config_lem home refl tt in
    rw (save, wrote) refl

load-save_example : load chip sector ≡ some home
load-save_example = load-save chip chip-FlashLaws [] sector home home-IsValid saves

-- Five texts of the greatest length, and both keys.
abbrev full : Config
full = record {
  ssid = replicate 96 b'a';
  password = replicate 96 b'b';
  auth_key = replicate 96 b'c';
  control_host = replicate 96 b'd';
  control_key = replicate 96 b'e';
  machine_key = some (replicate 32 7);
  node_key = some (replicate 32 8);
}

encode_config_lem_example : encode_config full ≡ filled (config_text full) (replicate 512 0)
encode_config_lem_example = encode_config_lem full refl refl

full_panics : filled (config_text full) (replicate 512 0) ≡ none
full_panics = refl
