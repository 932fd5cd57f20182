-- ===== src/Json/Writer/Texts.antt =====
-- The methods of the writer print the values that they are called for.
use lando.Prelude.{
  ℕ, ◌≡◌, refl, sym, ap, subst, ◌∙◌, Bool, true, false, [], ◌∷◌, ◌++◌, append_assoc, append-nil,
}
use lando.Prelude.Bytes.{Bytes, codes}
use lando.Prelude.Decimal.{decimal}
use lando.Json.Writer.{
  Method, ◌>>◌, skip, raw, separate, comma_next, begin_object, end_object, begin_array, end_array,
  escape, write_escaped, write_string, key, str_value, raw_value, u64_value, bool_value, field_str,
  field_u64, field_bool,
}
use lando.Json.Doc.{
  Doc, Members, Items, str, number, bool, object, array, no_members, member, no_items, item,
  escaped, quoted, comma_text, print, print_members, print_items, append_members, any_members,
  any_items,
}
use lando.Json.Writer.Emits.{
  Emits, >>-Emits, Emits-text, raw-Emits, byte-Emits, skip-Emits, comma_next-Emits, separate-Emits,
}

write_escaped-Emits : (s : Bytes) (c : Bool) → Emits (write_escaped s) c (escaped s) c
unfolding write_escaped
write_escaped-Emits [] c = skip-Emits c
write_escaped-Emits (b ∷ s) c = >>-Emits (raw-Emits (escape b) c) (write_escaped-Emits s c)

write_string-Emits : (s : Bytes) (c : Bool) → Emits (write_string s) c (quoted s) c
unfolding write_string
write_string-Emits s c =
    >>-Emits (byte-Emits b'"' c) (>>-Emits (write_escaped-Emits s c) (byte-Emits b'"' c))

-- The method writes the value `d`, with a comma before it where one is due.
pub record Puts (f : Method) (d : Doc) : Type 0 where
  pub emits : (c : Bool) → Emits f c (comma_text c ++ print d) true

-- The method writes the members `ms` of an object.
pub record Adds (f : Method) (c : Bool) (ms : Members) : Type 0 where
  pub emits : Emits f c (print_members c ms) (any_members c ms)

-- The method writes the members `ms` and closes the object.
pub record Closes (f : Method) (c : Bool) (ms : Members) : Type 0 where
  pub emits : Emits f c (print_members c ms ++ b'}' ∷ []) true

key-Emits : (k : Bytes) (c : Bool) → Emits (key k) c (comma_text c ++ (quoted k ++ b':' ∷ [])) false
unfolding key
key-Emits k c = >>-Emits (separate-Emits c) (
    >>-Emits (write_string-Emits k c) (>>-Emits (comma_next-Emits c false) (byte-Emits b':' false)))

pub str_value-Puts : (v : Bytes) → Puts (str_value v) (str v)
unfolding str_value print
str_value-Puts v = record {
  emits = λ c.
      Emits-text
        (>>-Emits (separate-Emits c) (>>-Emits (write_string-Emits v c) (comma_next-Emits c true)))
        (ap (λ t. comma_text c ++ t) (append-nil (quoted v)));
}

value_text :
    (text : Bytes) (c : Bool)
    → Emits (do separate; raw text; comma_next true) c (comma_text c ++ text) true
value_text text c =
    Emits-text (>>-Emits (separate-Emits c) (>>-Emits (raw-Emits text c) (comma_next-Emits c true)))
      (ap (λ t. comma_text c ++ t) (append-nil text))

pub raw_value-Puts : (v : Bytes) → Puts (raw_value v) (number v)
unfolding raw_value print
raw_value-Puts v = record { emits = λ c. value_text v c }

pub u64_value-Puts : (v : ℕ) → Puts (u64_value v) (number (decimal 20 v))
unfolding u64_value print
u64_value-Puts v = record { emits = λ c. value_text (decimal 20 v) c }

pub bool_value-Puts : (v : Bool) → Puts (bool_value v) (bool v)
unfolding bool_value print
bool_value-Puts true = record { emits = λ c. value_text (codes "true") c }
bool_value-Puts false = record { emits = λ c. value_text (codes "false") c }

key_value-Emits :
    {f : Method} {d : Doc} (k : Bytes) (c : Bool)
    → Puts f d
    → Emits (key k >> f) c (comma_text c ++ (quoted k ++ (b':' ∷ print d))) true
key_value-Emits {f} {d} k c p = Emits-text (>>-Emits (key-Emits k c) (p.emits false)) (
    append_assoc (comma_text c) (quoted k ++ b':' ∷ []) (print d)
    ∙ ap (λ t. comma_text c ++ t) (append_assoc (quoted k) (b':' ∷ []) (print d)))

-- The text of a member with what follows it.
member_text :
    (c : Bool) (k : Bytes) (d : Doc) (tail : Bytes)
    → (comma_text c ++ (quoted k ++ b':' ∷ [])) ++ (print d ++ tail)
      ≡ comma_text c ++ (quoted k ++ (b':' ∷ (print d ++ tail)))
member_text c k d tail =
    append_assoc (comma_text c) (quoted k ++ b':' ∷ []) (print d ++ tail)
    ∙ ap (λ t. comma_text c ++ t) (append_assoc (quoted k) (b':' ∷ []) (print d ++ tail))

key_then-Emits :
    {f g : Method} {d : Doc} {t : Bytes} {b : Bool} (k : Bytes) (c : Bool)
    → Puts f d
    → Emits g true t b
    → Emits (key k >> (f >> g)) c (comma_text c ++ (quoted k ++ (b':' ∷ (print d ++ t)))) b
key_then-Emits {f} {g} {d} {t} k c p q =
    Emits-text (>>-Emits (key-Emits k c) (>>-Emits (p.emits false) q)) (member_text c k d t)

pub key_value-Adds :
    {f : Method} {d : Doc} (k : Bytes) (c : Bool)
    → Puts f d
    → Adds (key k >> f) c (member k d no_members)
unfolding print_members
key_value-Adds {f} {d} k c p = record {
  emits =
      Emits-text (key_value-Emits k c p)
        (ap (λ t. comma_text c ++ (quoted k ++ (b':' ∷ t))) (sym (append-nil (print d))));
}

pub key_then-Adds :
    {f g : Method} {d : Doc} {ms : Members} (k : Bytes) (c : Bool)
    → Puts f d
    → Adds g true ms
    → Adds (key k >> (f >> g)) c (member k d ms)
unfolding print_members
key_then-Adds {f} {g} {d} {ms} k c p q = record {
  emits = Emits-text (key_then-Emits k c p (flagged ms q)) refl;
}
  where
    flagged : (ms : Members) → Adds g true ms → Emits g true (print_members true ms) true
    flagged no_members q = q.emits
    flagged (member j e ms) q = q.emits

close_text :
    (c : Bool) (k : Bytes) (d : Doc) (ms : Members)
    → comma_text c ++ (quoted k ++ (b':' ∷ (print d ++ (print_members true ms ++ b'}' ∷ []))))
      ≡ print_members c (member k d ms) ++ b'}' ∷ []
unfolding print_members
close_text c k d ms = simp append_assoc

pub key_then-Closes :
    {f g : Method} {d : Doc} {ms : Members} (k : Bytes) (c : Bool)
    → Puts f d
    → Closes g true ms
    → Closes (key k >> (f >> g)) c (member k d ms)
key_then-Closes {f} {g} {d} {ms} k c p q = record {
  emits = Emits-text (key_then-Emits k c p q.emits) (close_text c k d ms);
}

pub field_str-Adds : (k v : Bytes) (c : Bool) → Adds (field_str k v) c (member k (str v) no_members)
unfolding field_str
field_str-Adds k v c = key_value-Adds k c (str_value-Puts v)

pub field_u64-Adds :
    (k : Bytes) (v : ℕ) (c : Bool)
    → Adds (field_u64 k v) c (member k (number (decimal 20 v)) no_members)
unfolding field_u64
field_u64-Adds k v c = key_value-Adds k c (u64_value-Puts v)

pub field_bool-Adds :
    (k : Bytes) (v c : Bool) → Adds (field_bool k v) c (member k (bool v) no_members)
unfolding field_bool
field_bool-Adds k v c = key_value-Adds k c (bool_value-Puts v)

pub skip-Adds : (c : Bool) → Adds skip c no_members
unfolding print_members
skip-Adds c = record { emits = skip-Emits c }

print_members-append :
    (c : Bool) (ms ns : Members)
    → print_members c ms ++ print_members (any_members c ms) ns
      ≡ print_members c (append_members ms ns)
unfolding print_members
print_members-append c no_members ns = refl
print_members-append c (member k d no_members) ns = simp append_assoc
print_members-append c (member k d (member j e ms)) ns =
    member_tail c k d (print_members true (member j e ms)) (print_members true ns)
    ∙ ap (λ t. comma_text c ++ (quoted k ++ (b':' ∷ (print d ++ t))))
        (print_members-append true (member j e ms) ns)
  where
    member_tail :
        (c : Bool) (k : Bytes) (d : Doc) (s t : Bytes)
        → (comma_text c ++ (quoted k ++ (b':' ∷ (print d ++ s)))) ++ t
          ≡ comma_text c ++ (quoted k ++ (b':' ∷ (print d ++ (s ++ t))))
    member_tail c k d s t = simp append_assoc

pub >>-Closes :
    {f g : Method} {c : Bool} {ms ns : Members}
    → Adds f c ms
    → Closes g (any_members c ms) ns
    → Closes (f >> g) c (append_members ms ns)
>>-Closes {f} {g} {c} {ms} {ns} p q = record {
  emits = Emits-text (>>-Emits p.emits q.emits) (
      sym (append_assoc (print_members c ms) (print_members (any_members c ms) ns) (b'}' ∷ []))
      ∙ ap (λ t. t ++ b'}' ∷ []) (print_members-append c ms ns));
}

pub end_object-Closes : (c : Bool) → Closes end_object c no_members
unfolding end_object print_members
end_object-Closes c = record { emits = >>-Emits (comma_next-Emits c true) (byte-Emits b'}' true) }

pub object-Puts :
    {f : Method} {ms : Members} → Closes f false ms → Puts (begin_object >> f) (object ms)
unfolding begin_object print
object-Puts {f} {ms} p = record {
  emits = λ c.
      Emits-text
        (>>-Emits
          (>>-Emits (separate-Emits c)
            (>>-Emits (comma_next-Emits c false) (byte-Emits b'{' false)))
          p.emits)
        (append_assoc (comma_text c) (b'{' ∷ []) (print_members false ms ++ b'}' ∷ []));
}

-- The method writes the items `xs` of an array.
pub record Lists (f : Method) (c : Bool) (xs : Items) : Type 0 where
  pub emits : Emits f c (print_items c xs) (any_items c xs)

pub skip-Lists : (c : Bool) → Lists skip c no_items
unfolding print_items
skip-Lists c = record { emits = skip-Emits c }

any_items-true : (xs : Items) → any_items true xs ≡ true
any_items-true no_items = refl
any_items-true (item d xs) = refl

pub >>-Lists :
    {f g : Method} {d : Doc} {xs : Items} (c : Bool)
    → Puts f d
    → Lists g true xs
    → Lists (f >> g) c (item d xs)
unfolding print_items
>>-Lists {f} {g} {d} {xs} c p q = record {
  emits =
      subst (λ b. Emits (f >> g) c (comma_text c ++ (print d ++ print_items true xs)) b)
        (any_items-true xs)
        (Emits-text (>>-Emits (p.emits c) q.emits)
          (append_assoc (comma_text c) (print d) (print_items true xs)));
}

pub array-Puts :
    {f : Method} {xs : Items} → Lists f false xs → Puts (begin_array >> (f >> end_array)) (array xs)
unfolding begin_array end_array print
array-Puts {f} {xs} p = record {
  emits = λ c.
      Emits-text
        (>>-Emits
          (>>-Emits (separate-Emits c)
            (>>-Emits (comma_next-Emits c false) (byte-Emits b'[' false)))
          (>>-Emits p.emits
            (>>-Emits (comma_next-Emits (any_items false xs) true) (byte-Emits b']' true))))
        (append_assoc (comma_text c) (b'[' ∷ []) (print_items false xs ++ b']' ∷ []));
}
