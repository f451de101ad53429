-- ===== src/Client/NewProgram.antt =====
-- The document of a new program, from the command line to the service.
use kb_pm.Prelude.{
  ◌-◌, ◌≡◌, ◌≢◌, ◌<◌, ◌∙◌, refl, ap, sym, subst, Option-cases, inl, inr, some, List, [], ◌∷◌, ◌++◌,
  append-nil, arith, true, ltb, Bool, Outcome, if◌then◌else◌, length, length-append, get_elem?, ℤ,
  pos, done, ◌>>=◌, >>=-eq-done,
}
use kb_pm.CString.{Str, text, strcpy}
use kb_pm.System.{Log}
use kb_pm.Proc.{str_buffer_size}
use kb_pm.Process.{Process, list_size}
use kb_pm.Process.Document.{IsDocumentLibrary, IsCInt}
use kb_pm.Process.Json.{create_process_json_str, create_process_cjson, parse_process}
use kb_pm.Process.Stored.{
  IsShort, stored_in, create_process_cjson-Describes, parse_process_cjson-stored,
}
use kb_pm.Process.Saved.{ReadsBack, print_into-done, strcpy-done}
use kb_pm.Utils.{is_delimiter, str_split}
use kb_pm.Utils.Split.{IsPlain, str_split-last}
use kb_pm.Client.{Terminal, last_part, new_process}

last_at :
    (first : List Str) (x : Str)
    → get_elem? (first ++ x ∷ []) (length (first ++ x ∷ []) - 1) ≡ some x
last_at first x = ap (get_elem? (first ++ x ∷ [])) index ∙ found first
  where
    index : length (first ++ x ∷ []) - 1 ≡ length first
    index = omega (arith, length-append first (x ∷ []))

    found : (first : List Str) → get_elem? (first ++ x ∷ []) (length first) ≡ some x
    found [] = refl
    found (y ∷ first) = found first

module _ (t : Terminal) where
  last_part-append : (first : List Str) (x : Str) → last_part t (first ++ x ∷ []) ≡ done x
  unfolding last_part
  last_part-append first x = rw (last_part, last_at first x)

  -- What is known of the record of a new program.
  pub record IsNew (path name : Str) (p : Process) : Type 0 where
    pub app_name : p.app_name ≡ name
    pub cmd : p.cmd ≡ path
    pub dir : p.dir ≡ t.cwd
    pub running : p.is_running ≡ pos 1
    pub short_name : length name < str_buffer_size
    pub short_cmd : length path < str_buffer_size

  slash : is_delimiter (text "/") b'/' ≡ true
  unfolding is_delimiter
  slash = refl

  new_process-IsNew :
      (front name : Str) (p : Process)
      → IsPlain (text "/") name
      → name ≢ []
      → length t.cwd < str_buffer_size
      → new_process t (front ++ b'/' ∷ name) ≡ done p
      → IsNew (front ++ b'/' ∷ name) name p
  unfolding new_process
  new_process-IsNew front name p plain named room h =
      let short_dir : ltb (length t.cwd) str_buffer_size ≡ true = ground (arith, room) in
      let cmd = front ++ b'/' ∷ name in
      let (copy, e1, h1) = >>=-eq-done (strcpy str_buffer_size cmd) _ h in
      let (fits, same) = strcpy-done str_buffer_size cmd copy e1 in
      let (dst, e2, h2) = >>=-eq-done (str_split str_buffer_size list_size copy (text "/")) _ h1 in
      let parts =
        subst (λ l. str_split str_buffer_size list_size l (text "/") ≡ done dst) (sym same) e2 in
      let (first, e) =
        str_split-last str_buffer_size list_size front b'/' name (text "/") dst slash plain named
          parts in
      let (app_name, e3, h3) = >>=-eq-done (last_part t dst >>= strcpy str_buffer_size) _ h2 in
      let last : (last_part t dst >>= strcpy str_buffer_size) ≡ strcpy str_buffer_size name =
        ap (λ l. last_part t l >>= strcpy str_buffer_size) e
        ∙ ap (λ o. o >>= strcpy str_buffer_size) (last_part-append first name) in
      let (fits', same') = strcpy-done str_buffer_size name app_name (sym last ∙ e3) in
      let (copy', e4, h4) = >>=-eq-done (strcpy str_buffer_size cmd) _ h3 in
      let (fits'', same'') = strcpy-done str_buffer_size cmd copy' e4 in
      let new_in : Bool → Process = λ b. record t.stack_process {
        app_name = app_name;
        dir = if b then t.cwd else t.stack_process.dir;
        cmd = copy';
        is_running = pos 1;
      } in
      let made : Path (Outcome Log Process) (done (new_in true)) (done p) =
        ap (λ b. done (new_in b)) (sym short_dir) ∙ h4 in
      let ended : new_in true ≡ p = ground (arith, made) in
      subst (IsNew cmd name) ended (record {
        app_name = sym same';
        cmd = sym same'';
        dir = refl;
        running = refl;
        short_name = fits';
        short_cmd = fits;
      })

  -- The document of `p`, read into the record `q`.
  document-read :
      (p q : Process) (old sig : Str)
      → IsDocumentLibrary t.json
      → IsShort p
      → create_process_json_str t.json p old ≡ done (pos 0, sig)
      → ReadsBack t.json sig
      → parse_process t.json t.fallthrough q sig
        ≡ done (t.fallthrough (stored_in q p), stored_in q p)
  unfolding create_process_json_str parse_process
  document-read p q old sig lib short h back = elim (Option-cases t.json.create_object) [
    | inl failed ↦ absurd (ground arith)
    | inr (o, made) ↦
        let j = create_process_cjson t.json p o in
        let (prints, fits) =
          print_into-done t.json lib old sig j (rw (made, create_process_json_str) at h) in
        let parses : t.json.parse sig ≡ some j =
          ap t.json.parse (sym (append-nil sig)) ∙ back j prints [] in
        rw (parses, parse_process)
          (parse_process_cjson-stored t.json t.fallthrough q j p
            (create_process_cjson-Describes t.json lib p o made short.is_running).1 short)
  ]

  -- The value of `parse_process` is the one that is left by the function that ends without a `return`.
  pub start_document-read :
      (front name : Str) (p q : Process) (old sig : Str)
      → IsDocumentLibrary t.json
      → IsPlain (text "/") name
      → name ≢ []
      → length t.cwd < str_buffer_size
      → new_process t (front ++ b'/' ∷ name) ≡ done p
      → create_process_json_str t.json p old ≡ done (pos 0, sig)
      → ReadsBack t.json sig
      → (last : Process) × (parse_process t.json t.fallthrough q sig
          ≡ done (
            t.fallthrough last,
            record q {
              app_name = name;
              cmd = front ++ b'/' ∷ name;
              dir = t.cwd;
              is_running = pos 1;
            },
          ))
  start_document-read front name p q old sig lib plain named room new h back =
      let is = new_process-IsNew front name p plain named room new in
      let short : IsShort p = record {
        app_name = subst (λ s. length s < str_buffer_size) (sym is.app_name) is.short_name;
        cmd = subst (λ s. length s < str_buffer_size) (sym is.cmd) is.short_cmd;
        dir = subst (λ s. length s < str_buffer_size) (sym is.dir) room;
        is_running = subst IsCInt (sym is.running) (omega arith);
      } in
      let read = document-read p q old sig lib short h back in (stored_in q p, read ∙ ground arith)

  -- If the document library gives back what was added, the working directory is shorter than 512
  -- bytes, the record of a new program in a file of some directory can be made, and its document
  -- can be made and read back, then the service reads from the document, into whatever record, a
  -- running program that is named like the file, with the path as its command and the working
  -- directory of the client as its own.
  pub start_document :
      (front name : Str) (p q : Process) (old sig : Str)
      → IsDocumentLibrary t.json
      → IsPlain (text "/") name
      → name ≢ []
      → length t.cwd < str_buffer_size
      → new_process t (front ++ b'/' ∷ name) ≡ done p
      → create_process_json_str t.json p old ≡ done (pos 0, sig)
      → ReadsBack t.json sig
      → (res : ℤ) × (parse_process t.json t.fallthrough q sig
          ≡ done (
            res,
            record q {
              app_name = name;
              cmd = front ++ b'/' ∷ name;
              dir = t.cwd;
              is_running = pos 1;
            },
          ))
  start_document front name p q old sig lib plain named room new h back =
      let (last, read) =
        start_document-read front name p q old sig lib plain named room new h back in
      (t.fallthrough last, read)
