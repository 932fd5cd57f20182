-- ===== src/Json/Writer.antt =====
-- `json::Writer`. A method returns the writer after it; what a failed call leaves in the buffer is not
-- part of the model. A text is its bytes.
pub mod Emits
pub mod Texts
use lando.Prelude.{
  ℕ, zero, suc, ◌+◌, ◌/◌, ◌%◌, Bool, true, false, List, [], ◌∷◌, length, get_or, take, ltb, leb,
  ◌==◌, if◌then◌else◌, Result, ok, err,
}
use lando.Prelude.Bytes.{Bytes, codes, copy_at}
use lando.Prelude.Decimal.{decimal}
use lando.Json.{JsonError, short_buffer}

pub record Writer : Type 0 where
  pub buf : Bytes
  pub pos : ℕ
  pub needs_comma : Bool

abbrev pub new_writer : Bytes → Writer
new_writer buf = record { buf = buf; pos = 0; needs_comma = false }

abbrev pub as_bytes : Writer → Bytes
as_bytes w = take w.pos w.buf

abbrev pub len : Writer → ℕ
len w = w.pos

abbrev pub is_empty : Writer → Bool
is_empty w = w.pos == 0

abbrev pub Method : Type 0
Method = Writer → Result JsonError Writer

-- `?` between two calls.
infixl 5 ◌>>◌
abbrev pub ◌>>◌ : Method → Method → Method
◌>>◌ f g w = elim (f w) [ ok w' ↦ g w' | err e ↦ err e ]

-- No call, where a condition leaves one out.
abbrev pub skip : Method
skip w = ok w

unfoldable pub raw : Bytes → Method
raw bytes w =
    if ltb (length w.buf) (w.pos + length bytes)
    then err short_buffer
    else ok (record w { buf = copy_at w.buf w.pos bytes; pos = w.pos + length bytes })

unfoldable pub byte : ℕ → Method
unfolding raw
byte b = raw (b ∷ [])

unfoldable pub separate : Method
unfolding byte
separate w = if w.needs_comma then byte b',' w else ok w

-- `self.needs_comma = value`
unfoldable pub comma_next : Bool → Method
comma_next value w = ok (record w { needs_comma = value })

unfoldable pub begin_object : Method
unfolding separate comma_next byte
begin_object = do separate; comma_next false; byte b'{'

unfoldable pub end_object : Method
unfolding comma_next byte
end_object = do comma_next true; byte b'}'

unfoldable pub begin_array : Method
unfolding separate comma_next byte
begin_array = do separate; comma_next false; byte b'['

unfoldable pub end_array : Method
unfolding comma_next byte
end_array = do comma_next true; byte b']'

-- What stands for one byte of a string.
unfoldable pub escape : ℕ → Bytes
escape b =
    if b == b'"'
    then 0x5c ∷ b'"' ∷ []
    else if b == 0x5c
    then 0x5c ∷ 0x5c ∷ []
    else if b == 0x0a
    then 0x5c ∷ b'n' ∷ []
    else if b == 0x0d
    then 0x5c ∷ b'r' ∷ []
    else if b == 0x09
    then 0x5c ∷ b't' ∷ []
    else if leb b 0x1f
    then 0x5c
      ∷ b'u'
      ∷ b'0'
      ∷ b'0'
      ∷ get_or (codes "0123456789abcdef") (b / 16) 0
      ∷ get_or (codes "0123456789abcdef") (b % 16) 0
      ∷ []
    else b ∷ []

-- The loop of `write_string`.
unfoldable pub write_escaped : Bytes → Method
unfolding raw escape
write_escaped [] = skip
write_escaped (b ∷ s) = do raw (escape b); write_escaped s

unfoldable pub write_string : Bytes → Method
unfolding byte write_escaped
write_string s = do byte b'"'; write_escaped s; byte b'"'

unfoldable pub key : Bytes → Method
unfolding separate write_string comma_next byte
key k = do separate; write_string k; comma_next false; byte b':'

unfoldable pub str_value : Bytes → Method
unfolding separate write_string comma_next
str_value v = do separate; write_string v; comma_next true

unfoldable pub raw_value : Bytes → Method
unfolding separate raw comma_next
raw_value v = do separate; raw v; comma_next true

-- The digits of a `u64` have room in twenty bytes.
unfoldable pub u64_value : ℕ → Method
unfolding separate raw comma_next decimal
u64_value v = do separate; raw (decimal 20 v); comma_next true

unfoldable pub bool_value : Bool → Method
unfolding separate raw comma_next
bool_value v = do separate; raw (if v then codes "true" else codes "false"); comma_next true

unfoldable pub field_str : Bytes → Bytes → Method
unfolding key str_value
field_str k v = do key k; str_value v

unfoldable pub field_u64 : Bytes → ℕ → Method
unfolding key u64_value
field_u64 k v = do key k; u64_value v

unfoldable pub field_bool : Bytes → Bool → Method
unfolding key bool_value
field_bool k v = do key k; bool_value v
