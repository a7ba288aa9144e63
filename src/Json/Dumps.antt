-- ===== src/Json/Dumps.antt =====
-- `json.dumps(value, sort_keys=True, separators=(",", ":"), ensure_ascii=False)`.
pub mod Order
use aidan_venture_os.Base.{
  ℕ, ◌+◌, ◌/◌, ◌%◌, ◌≡◌, refl, Bool, true, false, List, [], ◌∷◌, ◌++◌, ltb, ◌==◌, if◌then◌else◌,
}
use aidan_venture_os.Base.Int.{ℤ, pos, negsuc}
use aidan_venture_os.Json.Text.{Text, codes, text_le, show_ℕ}

mutual
  pub data Value : Type 0 where
    null : Value
    bool : Bool → Value
    int : ℤ → Value
    str : Text → Value
    arr : Items → Value
    obj : Fields → Value

  pub data Items : Type 0 where
    nil : Items
    cons : Value → Items → Items

  -- the items of a dict, in insertion order
  pub data Fields : Type 0 where
    end : Fields
    field : Text → Value → Fields → Fields

hex_digit : ℕ → ℕ
hex_digit d = if ltb d 10 then 48 + d else 87 + d

-- a quotation mark, a backslash and the control characters are escaped
escape : ℕ → Text
unfolding hex_digit
escape c =
    if c == 34
    then 92 ∷ 34 ∷ []
    else if c == 92
    then 92 ∷ 92 ∷ []
    else if c == 10
    then 92 ∷ 110 ∷ []
    else if c == 13
    then 92 ∷ 114 ∷ []
    else if c == 9
    then 92 ∷ 116 ∷ []
    else if c == 8
    then 92 ∷ 98 ∷ []
    else if c == 12
    then 92 ∷ 102 ∷ []
    else if ltb c 32
    then 92 ∷ 117 ∷ 48 ∷ 48 ∷ hex_digit (c / 16) ∷ hex_digit (c % 16) ∷ []
    else c ∷ []

escape_all : Text → Text
unfolding escape
escape_all [] = []
escape_all (c ∷ cs) = escape c ++ escape_all cs

quote : Text → Text
unfolding escape_all
quote s = 34 ∷ (escape_all s ++ 34 ∷ [])

show_int : ℤ → Text
unfolding show_ℕ
show_int (pos n) = show_ℕ n
show_int (negsuc n) = 45 ∷ show_ℕ (n + 1)

-- one `"key":value` of an object, with its value already printed
abbrev pub Entry : Type 0
Entry = Text × Text

pub insert_entry : Entry → List Entry → List Entry
insert_entry e [] = e ∷ []
insert_entry e (f ∷ fs) = if text_le e.0 f.0 then e ∷ f ∷ fs else f ∷ insert_entry e fs

-- `sort_keys=True`
pub sort_entries : List Entry → List Entry
unfolding insert_entry text_le
sort_entries [] = []
sort_entries (e ∷ es) = insert_entry e (sort_entries es)

print_entry : Entry → Text
unfolding quote
print_entry (k, v) = quote k ++ (58 ∷ v)

join_entries : List Entry → Text
unfolding print_entry
join_entries [] = []
join_entries (e ∷ []) = print_entry e
join_entries (e ∷ f ∷ fs) = print_entry e ++ (44 ∷ join_entries (f ∷ fs))

join_items : List Text → Text
join_items [] = []
join_items (t ∷ []) = t
join_items (t ∷ u ∷ us) = t ++ (44 ∷ join_items (u ∷ us))

unfoldable mutual
  unfolding quote show_int join_items join_entries sort_entries

  pub dumps : Value → Text
  dumps null = codes "null"
  dumps (bool true) = codes "true"
  dumps (bool false) = codes "false"
  dumps (int n) = show_int n
  dumps (str s) = quote s
  dumps (arr xs) = 91 ∷ (join_items (dump_items xs) ++ 93 ∷ [])
  dumps (obj fs) = 123 ∷ (join_entries (sort_entries (dump_fields fs)) ++ 125 ∷ [])

  pub dump_items : Items → List Text
  dump_items nil = []
  dump_items (cons x xs) = dumps x ∷ dump_items xs

  pub dump_fields : Fields → List Entry
  dump_fields end = []
  dump_fields (field k x fs) = (k, dumps x) ∷ dump_fields fs

dumps_nested :
    dumps (
      obj (
        field
          (codes "b")
          (arr (cons (int (pos 10)) (cons null nil)))
          (field (codes "a") (str (codes "x\"y")) end)))
    ≡ codes "{\"a\":\"x\\\"y\",\"b\":[10,null]}"
unfolding dumps
dumps_nested = refl
