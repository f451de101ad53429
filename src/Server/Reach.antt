-- ===== src/Server/Reach.antt =====
-- What the service comes to in steps that exclude each other: its start, during which no client is
-- served, the clients that it serves, and the children that it sees end.
use kb_pm.Prelude.{
  ℕ, ◌≡◌, ◌<◌, subst, Bool, Bool-cases, inl, inr, Option, List, arith, ℤ, done, Outcome, ◌>>=◌,
  >>=-eq-done, if◌then◌else◌, replicate,
}
use kb_pm.CString.{Str}
use kb_pm.System.{Log, Event, record_event}
use kb_pm.Process.{Process, list_size}
use kb_pm.Process.Json.{parse_process_list_from_path}
use kb_pm.Machine.{Machine}
use kb_pm.Server.{Server}
use kb_pm.Server.Requests.{Response, server_start_all_process, server_stop_all_process}
use kb_pm.Server.Wire.{c_string, read_into, pong_and_receive_data}
use kb_pm.Server.Service.{
  save_process_list, answer, serve_client, await_child, service_start, loaded_count, zero_process,
}
use kb_pm.Server.Spec.{IsValid}
use kb_pm.Server.Refine.Start.{NamesPrograms, start_refines}
use kb_pm.Server.Refine.Stop.{stop_refines}
use kb_pm.Server.Refine.Restart.{restart_refines}
use kb_pm.Server.Refine.Remove.{remove_refines}
use kb_pm.Server.Sweep.{server_stop_all_process-refines, server_start_all_process-refines}
use kb_pm.Server.Reap.{await_child-refines}
use kb_pm.Server.Status.{get_process_list_status-refines}
use kb_pm.Server.Startup.{IsLoaded, service_start-refines}

-- A property of both branches.
if-by : (P : Response → Type 0) (b : Bool) (o o' : Response) → P o → P o' → P (if b then o else o')
if-by P b o o' h h' = elim (Bool-cases b) [ inl e ↦ rw e h | inr e ↦ rw e h' ]

-- If the call returns, the service is valid.
abbrev Secures : Response → Type 0
Secures o = (r : Str) (s' : Server) → o ≡ done (r, s') → IsValid s'

sweep-Secures :
    (call : Outcome Log Server) (said : Str)
    → ((s' : Server) → call ≡ done s' → IsValid s')
    → Secures (call >>= λ s'. done (said, s'))
sweep-Secures call said valid r s' h =
    let (a, e, h1) = >>=-eq-done call _ h in
    let same : a ≡ s' = ground arith in subst IsValid same (valid a e)

done-Secures : (said : Str) (s : Server) → IsValid s → Secures (done (said, s))
done-Secures said s valid r s' h = let same : s ≡ s' = ground arith in subst IsValid same valid

-- Whatever a client asks of a valid service with a slot to spare, the service is valid when it
-- has answered, if a document of a new program names it.
pub answer-IsValid :
    (m : Machine) (buffer : List ℕ) (message response : Str) (s : Server) (r : Str) (s' : Server)
    → IsValid s
    → s.process_count < list_size
    → NamesPrograms m s (c_string (pong_and_receive_data buffer message))
    → answer m buffer message response s ≡ done (r, s')
    → IsValid s'
unfolding answer
answer-IsValid m buffer message response s r s' valid room names h =
    let argument = c_string (pong_and_receive_data buffer message) in
    if-by Secures _ _ _
      (sweep-Secures (server_start_all_process m s) _
        (λ s1 e. (server_start_all_process-refines m s s1 valid e).0))
      (if-by Secures _ _ _
        (sweep-Secures (server_stop_all_process m s) _
          (λ s1 e. (server_stop_all_process-refines m s s1 valid e).0))
        (if-by Secures _ _ _
          (λ r1 s1 e. (get_process_list_status-refines m response s r1 s1 valid e).0)
          (if-by Secures _ _ _ (λ r1 s1 e. (start_refines m argument s r1 s1 valid names e).0)
            (if-by Secures _ _ _ (λ r1 s1 e. (stop_refines m argument s r1 s1 valid e).0)
              (if-by Secures _ _ _
                (λ r1 s1 e. (let (log, k, k') = restart_refines m argument s r1 s1 valid e in k))
                (if-by Secures _ _ _ (λ r1 s1 e. (remove_refines m argument s r1 s1 valid room e).0)
                  (if-by Secures _ _ _ (done-Secures _ s valid) (done-Secures _ s valid))))))))
      r s' h

pub with_log-IsValid : (s : Server) (log' : Log) → IsValid s → IsValid (record s { log = log' })
with_log-IsValid s log' valid = record {
  sized = valid.sized;
  counted = valid.counted;
  numbered = valid.numbered;
  good = valid.good;
}

pub serve_client-IsValid :
    (m : Machine) (path first second : Str) (before after : List ℕ × Str) (s s' : Server)
    → IsValid s
    → s.process_count < list_size
    → NamesPrograms m s (c_string (pong_and_receive_data (read_into before.0 first) second))
    → serve_client m path first second before s ≡ done (after, s')
    → IsValid s'
unfolding serve_client
serve_client-IsValid m path first second before after s s' valid room names h =
    let (a, e, h1) = >>=-eq-done (answer m (read_into before.0 first) second before.1 s) _ h in
    let (log', e1, h2) =
      >>=-eq-done (save_process_list m path a.1.slots (record_event a.1.log (Event.answered a.0))) _
        h1 in
    let ended : record a.1 { log = log' } ≡ s' = ground arith in
    subst IsValid ended (
      with_log-IsValid a.1 log'
        (answer-IsValid m (read_into before.0 first) second before.1 s a.0 a.1 valid room names e))

-- The states of the service between two steps of its threads, with the buffers of the one that
-- serves clients. The saved list is a good one, and no step is taken that would need more slots
-- than there are or adds a program without a name.
pub data Reach (m : Machine) (config : Option Str) (path : Str)
    : List ℕ × Str → Server → Type 0 where
  starts :
      {buffers : List ℕ × Str} {s : Server} (log : Log) (res : ℤ) (slots : List Process)
      → parse_process_list_from_path m.json m.fallthrough config
          (m.stale log)
          (replicate list_size zero_process)
        ≡ done (res, slots)
      → IsLoaded (loaded_count res) slots
      → service_start m config log ≡ done s
      → Reach m config path buffers s
  serves :
      {before after : List ℕ × Str} {s s' : Server} (first second : Str)
      → Reach m config path before s
      → s.process_count < list_size
      → NamesPrograms m s (c_string (pong_and_receive_data (read_into before.0 first) second))
      → serve_client m path first second before s ≡ done (after, s')
      → Reach m config path after s'
  reaps :
      {buffers : List ℕ × Str} {s s' : Server}
      → Reach m config path buffers s
      → await_child m s ≡ done s'
      → Reach m config path buffers s'

-- From a good saved list, in whatever order clients are served and children end, as long as each
-- client finds a slot to spare and sends no document of a program without a name, the service stays
-- valid: its programs have distinct names that are not empty, each bears the number of its slot,
-- those that run have a process and the others have none, and the slots behind them are vacant.
pub Reach-IsValid :
    {m : Machine} {config : Option Str} {path : Str} {buffers : List ℕ × Str} {s : Server}
    → Reach m config path buffers s
    → IsValid s
Reach-IsValid (starts {s = s} log res slots loads loaded h) =
    (service_start-refines _ _ log res slots s loads loaded h).0
Reach-IsValid (serves {before} {after} {s} {s'} first second r room names h) =
    serve_client-IsValid _ _ first second before after s s' (Reach-IsValid r) room names h
Reach-IsValid (reaps {s = s} {s'} r h) = (await_child-refines _ s s' (Reach-IsValid r) h).0
