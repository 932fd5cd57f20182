-- ===== src/Json/Doc.antt =====
-- JSON values, and the text that stands for them: what the writer's calls are measured against and
-- what the reader is given.
use lando.Prelude.{Bool, true, false, List, [], ◌∷◌, ◌++◌, if◌then◌else◌}
use lando.Prelude.Bytes.{Bytes, codes}
use lando.Json.Writer.{escape}

mutual
  pub data Doc : Type 0 where
    str : Bytes → Doc
    number : Bytes → Doc
    bool : Bool → Doc
    null : Doc
    object : Members → Doc
    array : Items → Doc

  pub data Members : Type 0 where
    no_members : Members
    member : Bytes → Doc → Members → Members

  pub data Items : Type 0 where
    no_items : Items
    item : Doc → Items → Items

abbrev pub escaped : Bytes → Bytes
escaped [] = []
escaped (b ∷ s) = escape b ++ escaped s

abbrev pub quoted : Bytes → Bytes
quoted s = b'"' ∷ (escaped s ++ b'"' ∷ [])

-- The comma that separates a value from the one before.
abbrev pub comma_text : Bool → Bytes
comma_text c = if c then b',' ∷ [] else []

unfoldable mutual
  pub print : Doc → Bytes
  print (str s) = quoted s
  print (number digits) = digits
  print (bool true) = codes "true"
  print (bool false) = codes "false"
  print null = codes "null"
  print (object ms) = b'{' ∷ (print_members false ms ++ b'}' ∷ [])
  print (array xs) = b'[' ∷ (print_items false xs ++ b']' ∷ [])

  pub print_members : Bool → Members → Bytes
  print_members c no_members = []
  print_members c (member k d ms) =
      comma_text c ++ (quoted k ++ (b':' ∷ (print d ++ print_members true ms)))

  pub print_items : Bool → Items → Bytes
  print_items c no_items = []
  print_items c (item d xs) = comma_text c ++ (print d ++ print_items true xs)

abbrev pub append_members : Members → Members → Members
append_members no_members ns = ns
append_members (member k d ms) ns = member k d (append_members ms ns)

-- Whether the next value is not the first.
abbrev pub any_members : Bool → Members → Bool
any_members c no_members = c
any_members c (member k d ms) = true

abbrev pub any_items : Bool → Items → Bool
any_items c no_items = c
any_items c (item d xs) = true

abbrev pub strings : List Bytes → Items
strings [] = no_items
strings (s ∷ ss) = item (str s) (strings ss)
