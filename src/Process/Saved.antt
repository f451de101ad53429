-- ===== src/Process/Saved.antt =====
-- A list of programs is written as a document, and read back.
use kb_pm.Prelude.{
  ℕ, zero, suc, ◌+◌, ◌≡◌, ◌<◌, ◌≤◌, ◌∙◌, refl, ap, sym, subst, Option, Option-cases, none, some,
  ltb, true, List, [], ◌∷◌, ◌++◌, append_assoc, append-nil, arith, false, length, get_elem?, ℤ, pos,
  negsuc, eq_ℤ, inl, inr, done, Outcome, >>=-eq-done,
}
use kb_pm.CString.{Str, strcpy}
use kb_pm.System.{Log}
use kb_pm.Process.{Process, buffer_size}
use kb_pm.Process.Document.{CJson, IsDocumentLibrary}
use kb_pm.Process.Json.{
  Reply, parse_process_cjson, parse_items, parse_list_by, parse_process_list,
  parse_process_list_from_path, create_process_cjson, create_items, print_into, print_if_made,
  create_process_list_json_str,
}
use kb_pm.Process.Stored.{
  Describes, IsShort, stored_in, create_process_cjson-Describes, parse_process_cjson-stored,
}

-- The objects tell of the first `n` slots, in their order.
abbrev pub AllDescribe : (c : CJson) → ℕ → List Process → List c.Json → Type 0
AllDescribe c zero slots items = items ≡ []
AllDescribe c (suc n) [] items = ⊥
AllDescribe c (suc n) (p ∷ slots) [] = ⊥
AllDescribe c (suc n) (p ∷ slots) (o ∷ items) = Describes c o p × AllDescribe c n slots items

abbrev pub AllShort : ℕ → List Process → Type 0
AllShort zero slots = Unit
AllShort (suc n) [] = Unit
AllShort (suc n) (p ∷ slots) = IsShort p × AllShort n slots

-- What was saved of the first `n` slots is put into an array.
abbrev pub all_stored : ℕ → List Process → List Process → List Process
all_stored zero from into = into
all_stored (suc n) [] into = into
all_stored (suc n) (p ∷ from) [] = []
all_stored (suc n) (p ∷ from) (q ∷ into) = stored_in q p ∷ all_stored n from into

-- A document that was printed is read back, whatever stands behind it.
abbrev pub ReadsBack : CJson → Str → Type 0
ReadsBack c doc =
    (j : c.Json) → c.print j ≡ some doc → (rest : Str) → c.parse (doc ++ rest) ≡ some j

pub strcpy-done :
    (n : ℕ) (s b : Str) → ◌≡◌ {A = Outcome Log Str} (strcpy n s) (done b) → (length s < n) × (s ≡ b)
unfolding strcpy
strcpy-done n s b h = ground arith

i_add_zero : (i : ℕ) → i ≡ i + 0
i_add_zero i = omega arith

zero_add : (k : ℕ) → 0 + k ≡ k
zero_add k = omega arith

next_index : (i k : ℕ) → i + 1 + k ≡ i + suc k
next_index i k = omega arith

module _ (c : CJson) (lib : IsDocumentLibrary c) where
  create_items-Holds :
      (n : ℕ) (slots : List Process) (a : c.Json) (items : List c.Json) (a' : c.Json)
      → lib.Holds a items
      → AllShort n slots
      → create_items c n slots a ≡ done (some a')
      → (more : List c.Json) × lib.Holds a' (items ++ more) × AllDescribe c n slots more
  unfolding create_items
  create_items-Holds zero slots a items a' holds short h =
      let same : a ≡ a' = ground arith in
      (
        [],
        subst (λ l. lib.Holds a' l) (sym (append-nil items))
            (subst (λ x. lib.Holds x items) same holds),
        refl,
      )
  create_items-Holds (suc n) [] a items a' holds short h = absurd (cc)
  create_items-Holds (suc n) (p ∷ slots) a items a' holds short h =
      elim (Option-cases c.create_object) [
        | inl failed ↦ absurd (ground arith)
        | inr (o, made) ↦
            let (object, tells) =
              create_process_cjson-Describes c lib p o made short.0.is_running in
            let x = create_process_cjson c p o in
            let (more, holds', all) =
              create_items-Holds n slots (c.add_item_to_array a x) (items ++ x ∷ []) a'
                (lib.item_added a items x holds object) short.1 (rw (made, create_items) at h) in
            (
              x ∷ more,
              subst (λ l. lib.Holds a' l) (append_assoc items (x ∷ []) more) holds',
              (tells, all),
            )
      ]

  length-AllDescribe :
      (n : ℕ) (slots : List Process) (items : List c.Json)
      → AllDescribe c n slots items
      → length items ≡ n
  length-AllDescribe zero slots items h = ap length h
  length-AllDescribe (suc n) [] items h = absurd h
  length-AllDescribe (suc n) (p ∷ slots) [] h = absurd h
  length-AllDescribe (suc n) (p ∷ slots) (o ∷ items) h =
      ap suc (length-AllDescribe n slots items h.1)

  pub print_into-done :
      (old doc : Str) (j : c.Json)
      → print_into c old j ≡ done (pos 0, doc)
      → (c.print j ≡ some doc) × (length doc < buffer_size)
  unfolding print_into
  print_into-done old doc j h = elim (Option-cases (c.print j)) [
    | inl failed ↦ absurd (ground arith)
    | inr (s, prints) ↦
        let (b, e, h') = >>=-eq-done (strcpy buffer_size s) _ (rw (prints, print_into) at h) in
        let (fits, same) = strcpy-done buffer_size s b e in ground arith
  ]

  -- What a document that was made tells of.
  abbrev Made : ℕ → List Process → Str → Type 0
  Made n from doc =
      (a : c.Json) × (items : List c.Json) × lib.Holds a items
      × AllDescribe c n from items
      × (c.print a ≡ some doc)
      × (length doc < buffer_size)

  print_if_made-Made :
      (n : ℕ) (from : List Process) (old doc : Str) (a : c.Json) (made : Option c.Json)
      → lib.Holds a []
      → AllShort n from
      → create_items c n from a ≡ done made
      → print_if_made c old made ≡ done (pos 0, doc)
      → Made n from doc
  print_if_made-Made n from old doc a none holds short e h = absurd (ground arith)
  print_if_made-Made n from old doc a (some a') holds short e h =
      let (items, holds', all) = create_items-Holds n from a [] a' holds short e in
      let (prints, fits) = print_into-done old doc a' h in (a', items, holds', all, prints, fits)

  create_process_list_json_str-Made :
      (n : ℕ) (from : List Process) (old doc : Str)
      → AllShort n from
      → create_process_list_json_str c from n old ≡ done (pos 0, doc)
      → Made n from doc
  unfolding create_process_list_json_str
  create_process_list_json_str-Made n from old doc short h = elim (Option-cases c.create_array) [
    | inl failed ↦ absurd (ground arith)
    | inr (a, new) ↦
        let (made, e, h') =
          >>=-eq-done (create_items c n from a) _ (rw (new, create_process_list_json_str) at h) in
        print_if_made-Made n from old doc a made (lib.new_array a new) short e h'
  ]

  module _ (fallthrough : Process → ℤ)
      (falls : (p : Process) → eq_ℤ (fallthrough p) (negsuc 0) ≡ false) where
    -- One round that goes well.
    parse_items-next :
        (read : Process → c.Json → Reply Process) (a o : c.Json) (i n : ℕ) (q q' : Process)
        (into into' : List Process) (res : ℤ)
        → c.get_array_item a i ≡ some o
        → read q o ≡ done (res, q')
        → eq_ℤ res (negsuc 0) ≡ false
        → parse_items c fallthrough read a (i + 1) n into ≡ done (pos 0, into')
        → parse_items c fallthrough read a i (suc n) (q ∷ into) ≡ done (pos 0, q' ∷ into')
    unfolding parse_items
    parse_items-next read a o i n q q' into into' res here reads fine rest =
        rw (here, parse_items) (rw reads (rw fine (rw rest)))

    -- The items from `i` on are read into the slots.
    parse_items-stored :
        (n i : ℕ) (from into : List Process) (a : c.Json) (items : List c.Json)
        → ((k : ℕ) → c.get_array_item a (i + k) ≡ get_elem? items k)
        → AllDescribe c n from items
        → AllShort n from
        → n ≤ length into
        → parse_items c fallthrough (parse_process_cjson c fallthrough) a i n into
          ≡ done (pos 0, all_stored n from into)
    unfolding parse_items
    parse_items-stored zero i from into a items at all short room = refl
    parse_items-stored (suc n) i [] into a items at all short room = absurd all
    parse_items-stored (suc n) i (p ∷ from) [] a items at all short room =
        absurd (omega (arith, room))
    parse_items-stored (suc n) i (p ∷ from) (q ∷ into) a [] at all short room = absurd all
    parse_items-stored (suc n) i (p ∷ from) (q ∷ into) a (o ∷ items) at all short room =
        let here : c.get_array_item a i ≡ some o = ap (c.get_array_item a) (i_add_zero i) ∙ at 0 in
        let rest =
          parse_items-stored n (i + 1) from into a items
            (λ k. ap (c.get_array_item a) (next_index i k) ∙ at (suc k)) all.1 short.1
            (omega (arith, room)) in
        parse_items-next (parse_process_cjson c fallthrough) a o i n q (stored_in q p) into
          (all_stored n from into) (fallthrough (stored_in q p)) here
          (parse_process_cjson-stored c fallthrough q o p all.0 short.0) (falls (stored_in q p))
          rest

    parse_list-stored :
        (n : ℕ) (from into : List Process) (a : c.Json) (items : List c.Json) (s : Str)
        → c.parse s ≡ some a
        → lib.Holds a items
        → AllDescribe c n from items
        → AllShort n from
        → n ≤ length into
        → parse_process_list c fallthrough into s ≡ done (pos n, all_stored n from into)
    unfolding parse_process_list parse_list_by
    parse_list-stored n from into a items s parses holds all short room =
        let sized : c.get_array_size a ≡ n =
          lib.size a items holds ∙ length-AllDescribe n from items all in
        let read =
          parse_items-stored n 0 from into a items
            (λ k. ap (c.get_array_item a) (zero_add k) ∙ lib.item a items k holds) all short room in
        rw (parse_list_by, parses) (rw sized (rw read))

    from_path :
        (n : ℕ) (from into : List Process) (doc stale : Str) (a : c.Json) (items : List c.Json)
        → lib.Holds a items
        → AllDescribe c n from items
        → c.print a ≡ some doc
        → length doc < buffer_size
        → ReadsBack c doc
        → AllShort n from
        → n ≤ length into
        → parse_process_list_from_path c fallthrough (some doc) stale into
          ≡ done (pos n, all_stored n from into)
    unfolding parse_process_list_from_path
    from_path n from into [] stale a items holds all prints fits back short room =
        absurd (lib.printed a prints)
    from_path n from into (b ∷ file) stale a items holds all prints fits back short room =
        let fits' : ltb (length (b ∷ file)) buffer_size ≡ true = ground (arith, fits) in
        rw fits' (
          parse_list-stored n from into a items ((b ∷ file) ++ stale) (back a prints stale) holds
            all short room)

    -- A document that was made of a list that fits, and can be read back, is loaded as that list:
    -- the count of the programs, and what is saved of each in its slot.
    pub parse_process_list_from_path-stored :
        (n : ℕ) (from into : List Process) (old doc stale : Str)
        → create_process_list_json_str c from n old ≡ done (pos 0, doc)
        → ReadsBack c doc
        → AllShort n from
        → n ≤ length into
        → parse_process_list_from_path c fallthrough (some doc) stale into
          ≡ done (pos n, all_stored n from into)
    parse_process_list_from_path-stored n from into old doc stale h back short room =
        let (a, items, holds, all, prints, fits) =
          create_process_list_json_str-Made n from old doc short h in
        from_path n from into doc stale a items holds all prints fits back short room
