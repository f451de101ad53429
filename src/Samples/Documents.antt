-- ===== src/Samples/Documents.antt =====
-- A document library: values, objects of values and arrays of objects, printed with their lengths
-- in front.
use kb_pm.Prelude.{
  ℕ, zero, suc, ◌-◌, ◌++◌, Option, none, some, List, [], ◌∷◌, ◌==◌, if◌then◌else◌, length,
  get_elem?, ℤ, pos, negsuc,
}
use kb_pm.CString.{Str, eq_str}
use kb_pm.Process.Document.{CJson}

pub data Value : Type 0 where
  str : Str → Value
  num : ℤ → Value

abbrev pub Fields : Type 0
Fields = List (Str × Value)

pub data Doc : Type 0 where
  leaf : Value → Doc
  obj : Fields → Doc
  arr : List Fields → Doc

unfoldable pub lookup : Str → Fields → Option Doc
lookup key [] = none
lookup key ((k, v) ∷ fields) =
    let rest = lookup key fields in if eq_str k key then some (leaf v) else rest

unfoldable pub get_field : Doc → Str → Option Doc
get_field (obj fields) key = lookup key fields
get_field (leaf v) key = none
get_field (arr items) key = none

unfoldable pub add_field : Doc → Str → Value → Doc
add_field (obj fields) key v = obj (fields ++ (key, v) ∷ [])
add_field (leaf w) key v = leaf w
add_field (arr items) key v = arr items

unfoldable pub add_item : Doc → Doc → Doc
add_item (arr items) (obj fields) = arr (items ++ fields ∷ [])
add_item d e = d

unfoldable pub item_at : Doc → ℕ → Option Doc
item_at (arr items) i = elim (get_elem? items i) [ none ↦ none | some fields ↦ some (obj fields) ]
item_at (leaf v) i = none
item_at (obj fields) i = none

unfoldable pub size_of : Doc → ℕ
size_of (arr items) = length items
size_of (leaf v) = 0
size_of (obj fields) = length fields

unfoldable pub string_of : Doc → Option Str
string_of (leaf (str s)) = some s
string_of (leaf (num n)) = none
string_of (obj fields) = none
string_of (arr items) = none

unfoldable pub int_of : Doc → ℤ
int_of (leaf (num n)) = n
int_of (leaf (str s)) = pos 0
int_of (obj fields) = pos 0
int_of (arr items) = pos 0

-- A string is its length, raised by one since no byte of a text is zero, and its bytes.
unfoldable pub show_str : Str → Str → Str
show_str s rest = suc (length s) ∷ (s ++ rest)

unfoldable pub show_value : Value → Str → Str
show_value (str s) rest = 1 ∷ show_str s rest
show_value (num (pos n)) rest = 2 ∷ suc n ∷ rest
show_value (num (negsuc n)) rest = 3 ∷ suc n ∷ rest

unfoldable pub show_fields : Fields → Str → Str
show_fields [] rest = 1 ∷ rest
show_fields ((k, v) ∷ fields) rest = 2 ∷ show_str k (show_value v (show_fields fields rest))

unfoldable pub show_items : List Fields → Str → Str
show_items [] rest = 1 ∷ rest
show_items (fields ∷ items) rest = 2 ∷ show_fields fields (show_items items rest)

unfoldable pub show_doc : Doc → Str → Str
show_doc (leaf v) rest = 1 ∷ show_value v rest
show_doc (obj fields) rest = 2 ∷ show_fields fields rest
show_doc (arr items) rest = 3 ∷ show_items items rest

abbrev pub Parser : Type 0 → Type 0
Parser A = Str → Option (A × Str)

-- The next `n` bytes.
unfoldable pub read_bytes : ℕ → Parser Str
read_bytes zero s = some ([], s)
read_bytes (suc n) [] = none
read_bytes (suc n) (c ∷ s) = elim (read_bytes n s) [
  | none ↦ none
  | some (t, rest) ↦ some (c ∷ t, rest)
]

unfoldable pub read_str : Parser Str
read_str [] = none
read_str (zero ∷ s) = none
read_str (suc n ∷ s) = read_bytes n s

unfoldable pub read_value : Parser Value
read_value [] = none
read_value (tag ∷ s) =
    if tag == 1
    then elim (read_str s) [ none ↦ none | some (t, rest) ↦ some (str t, rest) ]
    else elim s [
      | [] ↦ none
      | n ∷ rest ↦
          (if tag == 2
            then some (num (pos (n - 1)), rest)
            else if tag == 3
            then some (num (negsuc (n - 1)), rest)
            else none)
    ]

-- The number of fields is bounded by the length of the text.
unfoldable pub read_fields : ℕ → Parser Fields
read_fields zero s = none
read_fields (suc fuel) [] = none
read_fields (suc fuel) (tag ∷ s) =
    let more : Option (Fields × Str) = elim (read_str s) [
      | none ↦ none
      | some (k, s1) ↦ elim (read_value s1) [
        | none ↦ none
        | some (v, s2) ↦ elim (read_fields fuel s2) [
          | none ↦ none
          | some (fields, rest) ↦ some ((k, v) ∷ fields, rest)
        ]
      ]
    ] in
    if tag == 1 then some ([], s) else if tag == 2 then more else none

unfoldable pub read_items : ℕ → Parser (List Fields)
read_items zero s = none
read_items (suc fuel) [] = none
read_items (suc fuel) (tag ∷ s) =
    let more : Option (List Fields × Str) = elim (read_fields (length s) s) [
      | none ↦ none
      | some (fields, s1) ↦ elim (read_items fuel s1) [
        | none ↦ none
        | some (items, rest) ↦ some (fields ∷ items, rest)
      ]
    ] in
    if tag == 1 then some ([], s) else if tag == 2 then more else none

unfoldable pub read_doc : Str → Option Doc
read_doc [] = none
read_doc (tag ∷ s) =
    if tag == 1
    then elim (read_value s) [ none ↦ none | some (v, rest) ↦ some (leaf v) ]
    else if tag == 2
    then elim (read_fields (length s) s) [ none ↦ none | some (fields, rest) ↦ some (obj fields) ]
    else if tag == 3
    then elim (read_items (length s) s) [ none ↦ none | some (items, rest) ↦ some (arr items) ]
    else none

abbrev pub documents : CJson
documents = record {
  Json = Doc;
  parse = read_doc;
  print = λ d. some (show_doc d []);
  create_array = some (arr []);
  create_object = some (obj []);
  add_item_to_array = add_item;
  add_string_to_object = λ d key s. add_field d key (str s);
  add_number_to_object = λ d key n. add_field d key (num n);
  get_array_size = size_of;
  get_array_item = item_at;
  get_object_item = get_field;
  valuestring = string_of;
  valueint = int_of;
}
