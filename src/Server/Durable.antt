-- ===== src/Server/Durable.antt =====
-- A client is served, and the service dies and is started again.
use kb_pm.Prelude.{
  ℕ, ◌≡◌, ◌<◌, ◌∙◌, sym, ap, subst, false, Bool-cases, inl, inr, some, List, map, arith, pos,
  negsuc, eq_ℤ, done, >>=-eq-done,
}
use kb_pm.CString.{Str}
use kb_pm.System.{Log, Event, record_event}
use kb_pm.Process.{Process, list_size}
use kb_pm.Process.Document.{IsDocumentLibrary}
use kb_pm.Process.Json.{create_process_list_json_str}
use kb_pm.Process.Table.{get_process_list_count}
use kb_pm.Process.Saved.{AllShort, ReadsBack}
use kb_pm.Machine.{Machine}
use kb_pm.Server.{Server}
use kb_pm.Server.Wire.{c_string, read_into, pong_and_receive_data}
use kb_pm.Server.Service.{save_process_list, answer, serve_client, service_start}
use kb_pm.Server.Spec.{IsValid, apps}
use kb_pm.Server.Startup.{AllResumed}
use kb_pm.Server.Restored.{as_saved, saved_restored}
use kb_pm.Server.Refine.Start.{NamesPrograms}
use kb_pm.Server.Reach.{serve_client-IsValid}

-- The document of the list is what is written.
save_process_list-writes :
    (m : Machine) (path doc : Str) (slots : List Process) (log log' : Log)
    → ((old : Str)
        → create_process_list_json_str m.json slots (get_process_list_count slots) old
          ≡ done (pos 0, doc))
    → save_process_list m path slots log ≡ done log'
    → log' ≡ record_event log (Event.wrote_file path doc)
unfolding save_process_list
save_process_list-writes m path doc slots log log' made h =
    let h1 = rw (made (m.stale log)) at h in
    elim (Bool-cases (m.env.writable log path)) [
      | inl opens ↦ ground arith
      | inr shut ↦ absurd (ground arith)
    ]

-- A valid service with a slot to spare has served a client, who sent no document of a program
-- without a name, and dies then. The last that it has done is to write the document of its list, if
-- that can be made. If besides the document library gives back what was added and this document can
-- be read back, the texts of the programs fit the fields of a record and their marks are values of
-- an `int`, a call that ends without a `return` does not look failed, and the start returns, then a
-- service that is started on the file holds the programs that the client left, in their order:
-- those that were running run in the processes forked for them, and the others are stopped.
pub served_survives :
    (m : Machine) (path first second : Str) (before after : List ℕ × Str) (s s' s2 : Server)
    (doc : Str) (log : Log)
    → IsDocumentLibrary m.json
    → ((p : Process) → eq_ℤ (m.fallthrough p) (negsuc 0) ≡ false)
    → IsValid s
    → s.process_count < list_size
    → NamesPrograms m s (c_string (pong_and_receive_data (read_into before.0 first) second))
    → serve_client m path first second before s ≡ done (after, s')
    → AllShort s'.process_count s'.slots
    → ((old : Str)
        → create_process_list_json_str m.json s'.slots (get_process_list_count s'.slots) old
          ≡ done (pos 0, doc))
    → ReadsBack m.json doc
    → service_start m (some doc) log ≡ done s2
    → ((earlier : Log) × (s'.log ≡ record_event earlier (Event.wrote_file path doc)))
      × IsValid s2
      × AllResumed m.env (map as_saved (apps s')) (apps s2)
unfolding serve_client
served_survives m path first second before after s s' s2 doc log lib falls valid room names h short
      made back h2 =
    let valid' = serve_client-IsValid m path first second before after s s' valid room names h in
    let (a, e, h1) = >>=-eq-done (answer m (read_into before.0 first) second before.1 s) _ h in
    let served = record_event a.1.log (Event.answered a.0) in
    let (log', e1, ended') = >>=-eq-done (save_process_list m path a.1.slots served) _ h1 in
    let ended : record a.1 { log = log' } ≡ s' = ground arith in
    let same : a.1.slots ≡ s'.slots = ap (λ (x : Server). x.slots) ended in
    let makes = λ (old : Str).
      subst
        (λ l.
          create_process_list_json_str m.json l (get_process_list_count l) old ≡ done (pos 0, doc))
        (sym same) (made old) in
    let written = save_process_list-writes m path doc a.1.slots served log' makes e1 in
    let (valid2, resumed) =
      saved_restored m s' s2 (m.stale served) doc log lib falls valid' short (made (m.stale served))
        back h2 in
    ((served, ap (λ (x : Server). x.log) (sym ended) ∙ written), valid2, resumed)
