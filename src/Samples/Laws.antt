-- ===== src/Samples/Laws.antt =====
-- The objects and arrays of the document library of the samples.
use kb_pm.Prelude.{
  ℕ, zero, suc, ◌≡◌, ◌≢◌, ◌∙◌, refl, ap, none, some, List, [], ◌∷◌, ◌++◌, map, map-append, arith,
  true, false, sym, Bool-cases, inl, inr, length, get_elem?,
}
use kb_pm.CString.{Str, eq_str, eq_str_refl, eq_of_eq_str}
use kb_pm.Process.Document.{lower, same_key, IsDocumentLibrary}
use kb_pm.Samples.Documents.{
  Value, str, num, Fields, Doc, leaf, obj, arr, lookup, get_field, add_field, add_item, item_at,
  size_of, string_of, int_of, show_doc, documents,
}

abbrev IsObj : Doc → Type 0
IsObj (obj fields) = Unit
IsObj (leaf v) = ⊥
IsObj (arr items) = ⊥

abbrev HoldsItems : Doc → List Doc → Type 0
HoldsItems (arr items) xs = map obj items ≡ xs
HoldsItems (leaf v) xs = ⊥
HoldsItems (obj fields) xs = ⊥

lookup-same :
    (key : Str) (v : Value) (fields : Fields)
    → lookup key fields ≡ none
    → lookup key (fields ++ (key, v) ∷ []) ≡ some (leaf v)
unfolding lookup
lookup-same key v [] h = rw (eq_str_refl key)
lookup-same key v ((k, w) ∷ fields) h = ground (arith, lookup-same key v fields)

lookup-other :
    (key k : Str) (v : Value) (fields : Fields)
    → eq_str key k ≡ false
    → lookup k (fields ++ (key, v) ∷ []) ≡ lookup k fields
unfolding lookup
lookup-other key k v [] h = rw h
lookup-other key k v ((k', w) ∷ fields) h = ground (arith, lookup-other key k v fields)

get_elem?-map : (items : List Fields) (i : ℕ) → item_at (arr items) i ≡ get_elem? (map obj items) i
unfolding item_at
get_elem?-map [] i = refl
get_elem?-map (f ∷ items) zero = refl
get_elem?-map (f ∷ items) (suc i) = get_elem?-map items i

length-map : (items : List Fields) → length items ≡ length (map obj items)
length-map [] = refl
length-map (f ∷ items) = ap suc (length-map items)

-- Keys that differ in more than the case of their letters differ.
eq_str-other : (key k : Str) → same_key key k ≡ false → eq_str key k ≡ false
unfolding same_key
eq_str-other key k other = elim (Bool-cases (eq_str key k)) [
  | inl same ↦
      let alike : eq_str (map lower key) (map lower k) ≡ true =
        ap (λ s. eq_str (map lower key) (map lower s)) (sym (eq_of_eq_str key k same))
        ∙ eq_str_refl (map lower key) in
      absurd (ground arith)
  | inr other' ↦ other'
]

abbrev IsGrown : Doc → Doc → Str → Type 0
IsGrown o o' key = (k : Str) → same_key key k ≡ false → get_field o' k ≡ get_field o k

field-IsGrown :
    (o : Doc) (key : Str) (v : Value)
    → IsObj o
    → get_field o key ≡ none
    → IsObj (add_field o key v)
      × (get_field (add_field o key v) key ≡ some (leaf v))
      × IsGrown o (add_field o key v) key
unfolding get_field add_field
field-IsGrown (obj fields) key v is absent = (
  tt,
  lookup-same key v fields absent,
  λ k other. lookup-other key k v fields (eq_str-other key k other),
)
field-IsGrown (leaf w) key v is absent = absurd is
field-IsGrown (arr items) key v is absent = absurd is

new_obj : (o : Doc) → some (obj []) ≡ some o → IsObj o × ((key : Str) → get_field o key ≡ none)
unfolding get_field lookup
new_obj (obj []) e = (tt, λ key. refl)
new_obj (obj (f ∷ fields)) e = absurd (ground arith)
new_obj (leaf v) e = absurd (ground arith)
new_obj (arr items) e = absurd (ground arith)

new_arr : (a : Doc) → some (arr []) ≡ some a → HoldsItems a []
new_arr (arr []) e = refl
new_arr (arr (f ∷ items)) e = absurd (ground arith)
new_arr (leaf v) e = absurd (ground arith)
new_arr (obj fields) e = absurd (ground arith)

items_grow :
    (a : Doc) (xs : List Doc) (o : Doc)
    → HoldsItems a xs
    → IsObj o
    → HoldsItems (add_item a o) (xs ++ o ∷ [])
unfolding add_item
items_grow (arr items) xs (obj fields) holds is =
    map-append obj items (fields ∷ []) ∙ ap (λ l. l ++ obj fields ∷ []) holds
items_grow (arr items) xs (leaf v) holds is = absurd is
items_grow (arr items) xs (arr items') holds is = absurd is
items_grow (leaf v) xs o holds is = absurd holds
items_grow (obj fields) xs o holds is = absurd holds

holds_size : (a : Doc) (xs : List Doc) → HoldsItems a xs → size_of a ≡ length xs
unfolding size_of
holds_size (arr items) xs holds = length-map items ∙ ap length holds
holds_size (leaf v) xs holds = absurd holds
holds_size (obj fields) xs holds = absurd holds

holds_item : (a : Doc) (xs : List Doc) (i : ℕ) → HoldsItems a xs → item_at a i ≡ get_elem? xs i
holds_item (arr items) xs i holds = get_elem?-map items i ∙ ap (λ l. get_elem? l i) holds
holds_item (leaf v) xs i holds = absurd holds
holds_item (obj fields) xs i holds = absurd holds

show_doc-ne_nil : (d : Doc) → show_doc d [] ≢ []
unfolding show_doc
show_doc-ne_nil (leaf v) e = cc
show_doc-ne_nil (obj f) e = cc
show_doc-ne_nil (arr items) e = cc

pub documents-IsDocumentLibrary : IsDocumentLibrary documents
unfolding string_of int_of
documents-IsDocumentLibrary = record {
  IsObject = IsObj;
  Holds = HoldsItems;
  new_object = new_obj;
  string_added = λ o key s is absent.
      (let (is', got, others) = field-IsGrown o key (str s) is absent in
        (is', (leaf (str s), got, refl), others));
  number_added = λ o key n is int absent.
      (let (is', got, others) = field-IsGrown o key (num n) is absent in
        (is', (leaf (num n), got, refl), others));
  new_array = new_arr;
  item_added = items_grow;
  size = holds_size;
  item = holds_item;
  printed = λ j e. show_doc-ne_nil j (ground arith);
}
