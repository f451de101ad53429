-- ===== src/Process/Stored.antt =====
-- A program is written into an object, and read back.
use kb_pm.Prelude.{◌≡◌, ◌<◌, ◌∙◌, refl, ap, some, arith, ltb, true, false, length, ℤ, done, ◌>>=◌}
use kb_pm.CString.{Str, text, eq_str, strcpy}
use kb_pm.Proc.{str_buffer_size}
use kb_pm.Process.{Process}
use kb_pm.Process.Document.{CJson, IsDocumentLibrary, HasString, HasNumber, IsCInt, same_key}
use kb_pm.Process.Json.{Reply, copy_string, with_item, parse_process_cjson, create_process_cjson}

-- The object tells what is saved of a program.
pub record Describes (c : CJson) (o : c.Json) (p : Process) : Type 0 where
  pub app_name : HasString c o (text "app_name") p.app_name
  pub cmd : HasString c o (text "cmd") p.cmd
  pub dir : HasString c o (text "dir") p.dir
  pub is_running : HasNumber c o (text "is_running") p.is_running

-- The texts of the program fit the fields of the record, and whether it runs is an `int`.
pub record IsShort (p : Process) : Type 0 where
  pub app_name : length p.app_name < str_buffer_size
  pub cmd : length p.cmd < str_buffer_size
  pub dir : length p.dir < str_buffer_size
  pub is_running : IsCInt p.is_running

-- What was saved of `p` is put into the record `q`.
abbrev pub stored_in : Process → Process → Process
stored_in q p = record q {
  app_name = p.app_name;
  cmd = p.cmd;
  dir = p.dir;
  is_running = p.is_running;
}

module _ (c : CJson) (lib : IsDocumentLibrary c) where
  keeps_string :
      (o o' : c.Json) (key k s : Str)
      → ((k' : Str) → same_key key k' ≡ false → c.get_object_item o' k' ≡ c.get_object_item o k')
      → same_key key k ≡ false
      → HasString c o k s
      → HasString c o' k s
  keeps_string o o' key k s same other (item, at, is) = (item, same k other ∙ at, is)

  pub create_process_cjson-Describes :
      (p : Process) (o : c.Json)
      → c.create_object ≡ some o
      → IsCInt p.is_running
      → lib.IsObject (create_process_cjson c p o) × Describes c (create_process_cjson c p o) p
  unfolding create_process_cjson eq_str same_key
  create_process_cjson-Describes p o made int =
      let (object0, empty) = lib.new_object o made in
      let o1 = c.add_string_to_object o (text "app_name") p.app_name in
      let (object1, has1, same1) =
        lib.string_added o (text "app_name") p.app_name object0 (empty (text "app_name")) in
      let o2 = c.add_string_to_object o1 (text "cmd") p.cmd in
      let (object2, has2, same2) =
        lib.string_added o1 (text "cmd") p.cmd object1
          (same1 (text "cmd") refl ∙ empty (text "cmd")) in
      let o3 = c.add_string_to_object o2 (text "dir") p.dir in
      let (object3, has3, same3) =
        lib.string_added o2 (text "dir") p.dir object2
          (same2 (text "dir") refl ∙ same1 (text "dir") refl ∙ empty (text "dir")) in
      let o4 = c.add_number_to_object o3 (text "is_running") p.is_running in
      let (object4, has4, same4) =
        lib.number_added o3 (text "is_running") p.is_running object3 int (
          same3 (text "is_running") refl
          ∙ same2 (text "is_running") refl
          ∙ same1 (text "is_running") refl
          ∙ empty (text "is_running")) in
      (
        object4,
        record {
          app_name =
              keeps_string o3 o4 (text "is_running") (text "app_name") p.app_name same4 refl (
                keeps_string o2 o3 (text "dir") (text "app_name") p.app_name same3 refl
                  (keeps_string o1 o2 (text "cmd") (text "app_name") p.app_name same2 refl has1));
          cmd =
              keeps_string o3 o4 (text "is_running") (text "cmd") p.cmd same4 refl
                (keeps_string o2 o3 (text "dir") (text "cmd") p.cmd same3 refl has2);
          dir = keeps_string o3 o4 (text "is_running") (text "dir") p.dir same4 refl has3;
          is_running = has4;
        },
      )

module _ (c : CJson) (fallthrough : Process → ℤ) where
  copy_string-done :
      (item : c.Json) (s : Str)
      → c.valuestring item ≡ some s
      → length s < str_buffer_size
      → copy_string c fallthrough item ≡ done s
  unfolding copy_string strcpy
  copy_string-done item s is fits =
      let room : ltb (length s) str_buffer_size ≡ true = ground arith in
      rw (copy_string, is) (rw room)

  with_item-some :
      (p : Process) (o : c.Json) (key : Str) (next : c.Json → Reply Process) (item : c.Json)
      → c.get_object_item o key ≡ some item
      → with_item c fallthrough p o key next ≡ next item
  unfolding with_item
  with_item-some p o key next item at = rw (with_item, at)

  -- A text field is read.
  with_string :
      (p : Process) (o : c.Json) (key s : Str) (next : Str → Reply Process)
      → HasString c o key s
      → length s < str_buffer_size
      → with_item c fallthrough p o key (λ item. copy_string c fallthrough item >>= next) ≡ next s
  with_string p o key s next (item, at, is) fits =
      with_item-some p o key (λ it. copy_string c fallthrough it >>= next) item at
      ∙ ap (λ r. r >>= next) (copy_string-done item s is fits)

  pub parse_process_cjson-stored :
      (q : Process) (o : c.Json) (p : Process)
      → Describes c o p
      → IsShort p
      → parse_process_cjson c fallthrough q o ≡ done (fallthrough (stored_in q p), stored_in q p)
  unfolding parse_process_cjson
  parse_process_cjson-stored q o p tells short =
      let (item, at, is) = tells.is_running in
      with_string q o (text "app_name") p.app_name _ tells.app_name short.app_name
      ∙ with_string (record q { app_name = p.app_name }) o (text "cmd") p.cmd _ tells.cmd short.cmd
      ∙ with_string (record q { app_name = p.app_name; cmd = p.cmd }) o (text "dir") p.dir _
          tells.dir short.dir
      ∙ with_item-some (record q { app_name = p.app_name; cmd = p.cmd; dir = p.dir }) o
          (text "is_running") _ item at
      ∙ ap
          (λ n. done (
            fallthrough
                (record q { app_name = p.app_name; cmd = p.cmd; dir = p.dir; is_running = n }),
            record q { app_name = p.app_name; cmd = p.cmd; dir = p.dir; is_running = n },
          ))
          is
