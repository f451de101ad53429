-- ===== src/Server/Restored.antt =====
-- A service is started on the list that another one saved.
use kb_pm.Prelude.{
  ℕ, zero, suc, ◌≡◌, ◌≤◌, ◌∙◌, refl, ap, sym, subst, some, List, [], ◌∷◌, map, arith, length, drop,
  All, false, pos, negsuc, eq_ℤ, done, replicate, length-replicate,
}
use kb_pm.CString.{Str}
use kb_pm.System.{Log}
use kb_pm.Process.{Process, list_size}
use kb_pm.Process.Document.{IsDocumentLibrary}
use kb_pm.Process.Table.{get_process_list_count}
use kb_pm.Process.Json.{create_process_list_json_str}
use kb_pm.Process.Saved.{AllShort, all_stored, ReadsBack, parse_process_list_from_path-stored}
use kb_pm.Machine.{Machine}
use kb_pm.Server.{Server}
use kb_pm.Server.Service.{service_start, zero_process}
use kb_pm.Server.Spec.{App, app_of, entries, apps, IsAbsent, IsGood, IsVacant, IsValid}
use kb_pm.Server.Deletion.{get_process_list_count-eq}
use kb_pm.Server.Startup.{IsLoaded, IsNamed, AllResumed, service_start-refines}

-- What a saved list tells of a program.
abbrev pub as_saved : App → App
as_saved a = record a { pid = pos 0; restart_times = pos 0; start_time = pos 0 }

length-all_stored :
    (n : ℕ) (from into : List Process) → length (all_stored n from into) ≡ length into
length-all_stored zero from into = refl
length-all_stored (suc n) [] into = refl
length-all_stored (suc n) (p ∷ from) [] = refl
length-all_stored (suc n) (p ∷ from) (q ∷ into) = ap suc (length-all_stored n from into)

IsVacant-behind : (n k : ℕ) → All IsVacant (drop n (replicate k zero_process))
IsVacant-behind zero zero = tt
IsVacant-behind zero (suc k) = (refl, IsVacant-behind zero k)
IsVacant-behind (suc n) zero = tt
IsVacant-behind (suc n) (suc k) = IsVacant-behind n k

drop-all_stored :
    (n k : ℕ) (from : List Process)
    → All IsVacant (drop n (all_stored n from (replicate k zero_process)))
drop-all_stored zero k from = IsVacant-behind zero k
drop-all_stored (suc n) k [] = IsVacant-behind (suc n) k
drop-all_stored (suc n) zero (p ∷ from) = tt
drop-all_stored (suc n) (suc k) (p ∷ from) = drop-all_stored n k from

entries-all_stored :
    (n k : ℕ) (from : List Process)
    → n ≤ length from
    → n ≤ k
    → entries n (all_stored n from (replicate k zero_process)) ≡ map as_saved (entries n from)
entries-all_stored zero k from len room = refl
entries-all_stored (suc n) k [] len room = absurd (omega (arith, len))
entries-all_stored (suc n) zero (p ∷ from) len room = absurd (omega (arith, room))
entries-all_stored (suc n) (suc k) (p ∷ from) len room =
    ap (◌∷◌ (as_saved (app_of p)))
      (entries-all_stored n k from (omega (arith, len)) (omega (arith, room)))

IsAbsent-as_saved :
    (name : Str) (list : List App) → IsAbsent name list → IsAbsent name (map as_saved list)
IsAbsent-as_saved name [] h = tt
IsAbsent-as_saved name (a ∷ list) h = (h.0, IsAbsent-as_saved name list h.1)

IsNamed-as_saved : (list : List App) → IsGood list → IsNamed (map as_saved list)
IsNamed-as_saved [] h = tt
IsNamed-as_saved (a ∷ list) h =
    (h.0, (λ idle. refl), IsAbsent-as_saved a.name list h.2, IsNamed-as_saved list h.3)

module _ (s : Server) (valid : IsValid s) where
  abbrev saved_slots : List Process
  saved_slots = all_stored s.process_count s.slots (replicate list_size zero_process)

  saved_entries : entries s.process_count saved_slots ≡ map as_saved (apps s)
  saved_entries =
      entries-all_stored s.process_count list_size s.slots
        (omega (arith, valid.counted, valid.sized)) valid.counted

  saved_slots-IsLoaded : IsLoaded s.process_count saved_slots
  saved_slots-IsLoaded = record {
    sized =
        length-all_stored s.process_count s.slots (replicate list_size zero_process)
        ∙ length-replicate list_size zero_process;
    counted = valid.counted;
    vacant = drop-all_stored s.process_count list_size s.slots;
    named = subst IsNamed (sym saved_entries) (IsNamed-as_saved (apps s) valid.good);
  }

-- If the document library gives back what was added, the document that a valid service saves can be
-- made and read back, the texts of the programs fit the fields of a record and their marks are
-- values of an `int`, and a call that ends without a `return` does not look failed, then a service
-- that is started on that document, if its start returns, is valid and holds the same programs in
-- the same order: those that were running run in the processes forked for them, and the others are
-- stopped.
pub saved_restored :
    (m : Machine) (s s' : Server) (old doc : Str) (log : Log)
    → IsDocumentLibrary m.json
    → ((p : Process) → eq_ℤ (m.fallthrough p) (negsuc 0) ≡ false)
    → IsValid s
    → AllShort s.process_count s.slots
    → create_process_list_json_str m.json s.slots (get_process_list_count s.slots) old
      ≡ done (pos 0, doc)
    → ReadsBack m.json doc
    → service_start m (some doc) log ≡ done s'
    → IsValid s' × AllResumed m.env (map as_saved (apps s)) (apps s')
saved_restored m s s' old doc log lib falls valid short made back h =
    let counted =
      get_process_list_count-eq s.process_count s.slots valid.counted valid.numbered valid.good in
    let made' : create_process_list_json_str m.json s.slots s.process_count old
        ≡ done (pos 0, doc) =
      subst (λ n. create_process_list_json_str m.json s.slots n old ≡ done (pos 0, doc)) counted
        made in
    let room : s.process_count ≤ length (replicate list_size zero_process) =
      subst (λ n. s.process_count ≤ n) (sym (length-replicate list_size zero_process))
        valid.counted in
    let loads =
      parse_process_list_from_path-stored m.json lib m.fallthrough falls s.process_count s.slots
        (replicate list_size zero_process) old doc (m.stale log) made' back short room in
    let (valid', resumed) =
      service_start-refines m (some doc) log (pos s.process_count) (saved_slots s valid) s' loads
        (saved_slots-IsLoaded s valid) h in
    (valid', subst (λ l. AllResumed m.env l (apps s')) (saved_entries s valid) resumed)
