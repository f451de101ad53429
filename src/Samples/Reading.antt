-- ===== src/Samples/Reading.antt =====
-- The document library of the samples keeps to what the program relies on.
use kb_pm.Prelude.{
  ℕ, zero, suc, ◌+◌, ◌≡◌, ◌<◌, ◌≤◌, ◌∙◌, refl, ap, sym, subst, some, List, [], ◌∷◌, ◌++◌,
  append_assoc, arith, length, length-append, pos, negsuc,
}
use kb_pm.CString.{Str}
use kb_pm.Process.Saved.{ReadsBack}
use kb_pm.Samples.Documents.{
  Value, str, num, Fields, Doc, leaf, obj, arr, show_str, show_value, show_fields, show_items,
  show_doc, read_bytes, read_str, read_value, read_fields, read_items, read_doc, documents,
}

-- What stands behind is not looked at.
show_value-append : (v : Value) (r rest : Str) → show_value v (r ++ rest) ≡ show_value v r ++ rest
unfolding show_value show_str
show_value-append (str s) r rest = ap (λ l. 1 ∷ suc (length s) ∷ l) (sym (append_assoc s r rest))
show_value-append (num (pos n)) r rest = refl
show_value-append (num (negsuc n)) r rest = refl

show_fields-append :
    (f : Fields) (r rest : Str) → show_fields f (r ++ rest) ≡ show_fields f r ++ rest
unfolding show_fields show_str
show_fields-append [] r rest = refl
show_fields-append ((k, v) ∷ f) r rest =
    ap (λ l. 2 ∷ suc (length k) ∷ (k ++ l))
      (ap (show_value v) (show_fields-append f r rest) ∙ show_value-append v (show_fields f r) rest)
    ∙ ap (λ l. 2 ∷ suc (length k) ∷ l) (sym (append_assoc k (show_value v (show_fields f r)) rest))

show_items-append :
    (items : List Fields) (r rest : Str) → show_items items (r ++ rest) ≡ show_items items r ++ rest
unfolding show_items
show_items-append [] r rest = refl
show_items-append (f ∷ items) r rest =
    ap (λ l. 2 ∷ show_fields f l) (show_items-append items r rest)
    ∙ ap (λ l. 2 ∷ l) (show_fields-append f (show_items items r) rest)

show_doc-append : (d : Doc) (r rest : Str) → show_doc d (r ++ rest) ≡ show_doc d r ++ rest
unfolding show_doc
show_doc-append (leaf v) r rest = ap (λ l. 1 ∷ l) (show_value-append v r rest)
show_doc-append (obj f) r rest = ap (λ l. 2 ∷ l) (show_fields-append f r rest)
show_doc-append (arr items) r rest = ap (λ l. 3 ∷ l) (show_items-append items r rest)

read_bytes-append : (s rest : Str) → read_bytes (length s) (s ++ rest) ≡ some (s, rest)
unfolding read_bytes
read_bytes-append [] rest = refl
read_bytes-append (c ∷ s) rest = rw (read_bytes-append s rest)

read_str-show : (s rest : Str) → read_str (show_str s rest) ≡ some (s, rest)
unfolding read_str show_str
read_str-show s rest = read_bytes-append s rest

read_value-show : (v : Value) (rest : Str) → read_value (show_value v rest) ≡ some (v, rest)
unfolding read_value show_value
read_value-show (str s) rest = rw (read_str-show s rest)
read_value-show (num (pos n)) rest = ap (λ k. some (num (pos k), rest)) (omega arith)
read_value-show (num (negsuc n)) rest = ap (λ k. some (num (negsuc k), rest)) (omega arith)

length-show_value : (v : Value) (rest : Str) → length rest ≤ length (show_value v rest)
unfolding show_value show_str
length-show_value (str s) rest = omega (arith, length-append s rest)
length-show_value (num (pos n)) rest = omega arith
length-show_value (num (negsuc n)) rest = omega arith

length-show_fields :
    (f : Fields) (rest : Str) → length f + length rest < length (show_fields f rest)
unfolding show_fields show_str
length-show_fields [] rest = omega arith
length-show_fields ((k, v) ∷ f) rest = omega (
  arith,
  length-append k (show_value v (show_fields f rest)),
  length-show_value v (show_fields f rest),
  length-show_fields f rest,
)

read_fields-show :
    (fuel : ℕ) (f : Fields) (rest : Str)
    → length f < fuel
    → read_fields fuel (show_fields f rest) ≡ some (f, rest)
unfolding read_fields show_fields
read_fields-show zero f rest h = absurd (omega arith)
read_fields-show (suc fuel) [] rest h = refl
read_fields-show (suc fuel) ((k, v) ∷ f) rest h =
    rw (read_str-show k (show_value v (show_fields f rest))) (
      rw (read_value-show v (show_fields f rest))
        (rw (read_fields-show fuel f rest (omega (arith, h)))))

length-show_items :
    (items : List Fields) (rest : Str) → length items < length (show_items items rest)
unfolding show_items
length-show_items [] rest = omega arith
length-show_items (f ∷ items) rest =
    omega (arith, length-show_fields f (show_items items rest), length-show_items items rest)

read_items-show :
    (fuel : ℕ) (items : List Fields) (rest : Str)
    → length items < fuel
    → read_items fuel (show_items items rest) ≡ some (items, rest)
unfolding read_items show_items
read_items-show zero items rest h = absurd (omega arith)
read_items-show (suc fuel) [] rest h = refl
read_items-show (suc fuel) (f ∷ items) rest h =
    rw
      (read_fields-show (length (show_fields f (show_items items rest))) f (show_items items rest)
        (omega (arith, length-show_fields f (show_items items rest))))
      (rw (read_items-show fuel items rest (omega (arith, h))))

read_doc-show : (d : Doc) (rest : Str) → read_doc (show_doc d rest) ≡ some d
unfolding read_doc show_doc
read_doc-show (leaf v) rest = rw (read_value-show v rest)
read_doc-show (obj f) rest = rw (
    read_fields-show (length (show_fields f rest)) f rest
      (omega (arith, length-show_fields f rest)))
read_doc-show (arr items) rest =
    rw (read_items-show (length (show_items items rest)) items rest (length-show_items items rest))

pub documents-ReadsBack : (doc : Str) → ReadsBack documents doc
documents-ReadsBack doc j prints rest =
    let shown : show_doc j [] ≡ doc = ground arith in
    subst (λ s. read_doc (s ++ rest) ≡ some j) shown
      (subst (λ s. read_doc s ≡ some j) (show_doc-append j [] rest) (read_doc-show j rest))
