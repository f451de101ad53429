-- ===== src/Process/Document.antt =====
-- The interface of lib/cJSON.h, as far as the program calls it: a parameter of the development.
use kb_pm.Prelude.{
  ℕ, ◌+◌, ◌^◌, ◌<◌, Bool, ◌&&◌, leb, if◌then◌else◌, map, pos, negsuc, ◌≡◌, ◌≢◌, Option, some, none,
  ℤ, List, [], ◌∷◌, ◌++◌, false, length, get_elem?,
}
use kb_pm.CString.{Str, eq_str}

pub record CJson : Type 1 where
  -- `cJSON *`, not null
  pub Json : Type 0
  -- `cJSON_Parse` and `cJSON_Print` answer a null pointer when they fail.
  pub parse : Str → Option Json
  pub print : Json → Option Str
  pub create_array : Option Json
  pub create_object : Option Json
  -- The last three return nothing in C: they change the first argument.
  pub add_item_to_array : Json → Json → Json
  pub add_string_to_object : Json → Str → Str → Json
  pub add_number_to_object : Json → Str → ℤ → Json
  pub get_array_size : Json → ℕ
  pub get_array_item : Json → ℕ → Option Json
  pub get_object_item : Json → Str → Option Json
  -- The fields of an item: the string is a null pointer unless the item is one.
  pub valuestring : Json → Option Str
  pub valueint : Json → ℤ

-- `tolower`
abbrev pub lower : ℕ → ℕ
lower c = if leb b'A' c && leb c b'Z' then c + 32 else c

-- `cJSON_GetObjectItem` does not tell upper case from lower case.
unfoldable pub same_key : Str → Str → Bool
same_key key k = eq_str (map lower key) (map lower k)

-- The values of an `int` of 32 bits.
abbrev pub IsCInt : ℤ → Type 0
IsCInt (pos n) = n < 2 ^ 31
IsCInt (negsuc n) = n < 2 ^ 31

-- An object holds an item of this name.
abbrev pub HasString : (c : CJson) → c.Json → Str → Str → Type 0
HasString c object key s =
    (item : c.Json) × (c.get_object_item object key ≡ some item) × (c.valuestring item ≡ some s)

abbrev pub HasNumber : (c : CJson) → c.Json → Str → ℤ → Type 0
HasNumber c object key n =
    (item : c.Json) × (c.get_object_item object key ≡ some item) × (c.valueint item ≡ n)

module _ (c : CJson) where
  open c use {
    Json, print, create_array, create_object, add_item_to_array, add_string_to_object,
    add_number_to_object, get_array_size, get_array_item, get_object_item, valuestring, valueint,
  }

  -- What the program relies on while there is memory: an object gives back, under its key, the text
  -- or the `int` that was added first, and keeps what it has under keys that differ in more than the
  -- case of their letters; an array its objects in the order in which they were added, and no document prints as nothing.
  pub record IsDocumentLibrary : Type 1 where
    pub IsObject : Json → Type 0
    pub Holds : Json → List Json → Type 0
    pub new_object :
        (o : Json)
        → create_object ≡ some o
        → IsObject o × ((key : Str) → get_object_item o key ≡ none)
    pub string_added :
        (o : Json) (key s : Str)
        → IsObject o
        → get_object_item o key ≡ none
        → IsObject (add_string_to_object o key s)
          × HasString c (add_string_to_object o key s) key s
          × ((k : Str)
              → same_key key k ≡ false
              → get_object_item (add_string_to_object o key s) k ≡ get_object_item o k)
    pub number_added :
        (o : Json) (key : Str) (n : ℤ)
        → IsObject o
        → IsCInt n
        → get_object_item o key ≡ none
        → IsObject (add_number_to_object o key n)
          × HasNumber c (add_number_to_object o key n) key n
          × ((k : Str)
              → same_key key k ≡ false
              → get_object_item (add_number_to_object o key n) k ≡ get_object_item o k)
    pub new_array : (a : Json) → create_array ≡ some a → Holds a []
    pub item_added :
        (a : Json) (items : List Json) (o : Json)
        → Holds a items
        → IsObject o
        → Holds (add_item_to_array a o) (items ++ o ∷ [])
    pub size : (a : Json) (items : List Json) → Holds a items → get_array_size a ≡ length items
    pub item :
        (a : Json) (items : List Json) (i : ℕ)
        → Holds a items
        → get_array_item a i ≡ get_elem? items i
    pub printed : (j : Json) → print j ≢ some []
