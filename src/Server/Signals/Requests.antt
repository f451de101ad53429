-- ===== src/Server/Signals/Requests.antt =====
-- The signals that the service sends for a request.
use kb_pm.Prelude.{
  ◌+◌, ◌≡◌, ◌<◌, inl, inr, Option-cases, ◌++◌, pos, is_nonzero, Outcome, done, Fault, arith, ltb,
  length, set,
}
use kb_pm.CString.{Str, text}
use kb_pm.System.{Log}
use kb_pm.Proc.Signals.{
  AllAimed, Returning, bind-Returning, done-Returning, undefined-Returning, if-Returning,
}
use kb_pm.Process.{Process}
use kb_pm.Process.Table.{del_process_by_app_name}
use kb_pm.Machine.{Machine}
use kb_pm.Server.{Server}
use kb_pm.Server.Lookup.{
  RequestType, type_app_name, type_id, type_cmd, type_err, find_app, parse_process_and_process_type,
  get_pos_in_process_list, get_error_response,
}
use kb_pm.Server.Control.{server_start_process, server_stop_process, server_restart_process}
use kb_pm.Server.Requests.{
  Response, on_slot, on_position, append_slot, server_start_process_with_cmd, server_remove_process,
  start_new, start_listed, server_start_process_and_get_response, on_listed, stop_listed,
  restart_listed, remove_listed, server_stop_process_and_get_response,
  server_restart_process_and_get_response, server_remove_process_and_get_response,
}
use kb_pm.Server.Spec.{IsValid}
use kb_pm.Server.Entries.{index_from-some}
use kb_pm.Server.Signals.{
  AimedProcess, AimedServer, IsAimedCall, server_start_process-AllAimed,
  server_stop_process-AllAimed, server_restart_process-AllAimed, on_slot-AllAimed,
}

module _ (m : Machine) (s : Server) (valid : IsValid s) (aimed : AllAimed s.log) where
  -- A response that leaves the service as it is.
  said-AllAimed : (words : Str) → Returning AimedServer (done (words, s))
  said-AllAimed words = done-Returning AimedServer (words, s) aimed

  get_pos-lt : (p : Process) → Returning (λ i. i < s.process_count) (get_pos_in_process_list s p)
  unfolding get_pos_in_process_list
  get_pos-lt p i e = elim (Option-cases (find_app s p.app_name)) [
    | inl unknown ↦ absurd (ground arith)
    | inr (k, found) ↦
        let (j, q, place, lt, at, named) =
          index_from-some 0 p.app_name s.process_count s.slots k found in
        let same : k ≡ i = ground arith in omega arith
  ]

  on_position-AllAimed :
      (f : Process → Log → Outcome Log (Process × Log)) (say : Process → Str) (p : Process)
      → IsAimedCall f
      → Returning AimedServer (on_position f say p s)
  on_position-AllAimed f say p call =
      bind-Returning (λ i. i < s.process_count) AimedServer (get_pos_in_process_list s p) _
        (get_pos-lt p)
        (λ i lt.
          bind-Returning AimedServer AimedServer (on_slot f i s) (λ a. done (say a.0, a.1))
            (on_slot-AllAimed f i s call valid lt aimed)
            (λ a ha. done-Returning AimedServer (say a.0, a.1) ha))

  append_slot-AllAimed :
      (p : Process) (s1 : Server)
      → AllAimed s1.log
      → Returning (λ (x : Server). AllAimed x.log) (append_slot p s1)
  unfolding append_slot
  append_slot-AllAimed p s1 h =
      if-Returning (λ (x : Server). AllAimed x.log) (ltb s1.process_count (length s1.slots))
        (done (record s1 {
          slots = set s1.slots s1.process_count p;
          process_count = s1.process_count + 1;
        }))
        _ (λ room. done-Returning (λ (x : Server). AllAimed x.log) _ h)
        (λ full. undefined-Returning (λ (x : Server). AllAimed x.log) Fault.out_of_bounds)

  start_new-AllAimed : (p : Process) → Returning AimedServer (start_new m p s)
  unfolding start_new server_start_process_with_cmd
  start_new-AllAimed p a e = elim (Option-cases (find_app s p.app_name)) [
    | inr (i, taken) ↦ said-AllAimed _ a (rw (start_new, taken) at e)
    | inl free ↦
        bind-Returning AimedProcess AimedServer (server_start_process m.env p s.log) _
          (server_start_process-AllAimed m.env p s.log aimed)
          (λ b hb.
            bind-Returning (λ (x : Server). AllAimed x.log) AimedServer
              (append_slot (record b.0 { id = pos s.process_count }) (record s { log = b.1 })) _
              (append_slot-AllAimed _ (record s { log = b.1 }) hb)
              (λ s' h'. done-Returning AimedServer _ h'))
          a (rw (start_new, server_start_process_with_cmd, free) at e)
  ]

  start_listed-AllAimed : (p : Process) → Returning AimedServer (start_listed m p s)
  unfolding start_listed
  start_listed-AllAimed p =
      if-Returning AimedServer (is_nonzero p.is_running) (done (_, s)) _
        (λ on. said-AllAimed (p.app_name ++ text " have already been running."))
        (λ off.
          on_position-AllAimed (server_start_process m.env) _ p
            (λ q log settled h. server_start_process-AllAimed m.env q log h))

  stop_listed-AllAimed : (p : Process) → Returning AimedServer (stop_listed m p s)
  unfolding stop_listed
  stop_listed-AllAimed p =
      if-Returning AimedServer (is_nonzero p.is_running) _ (done (_, s))
        (λ on.
          on_position-AllAimed (server_stop_process m.env) _ p (server_stop_process-AllAimed m.env))
        (λ off. said-AllAimed (p.app_name ++ text " is not running."))

  restart_listed-AllAimed : (p : Process) → Returning AimedServer (restart_listed m p s)
  unfolding restart_listed
  restart_listed-AllAimed p =
      if-Returning AimedServer (is_nonzero p.is_running) _ (done (_, s))
        (λ on.
          on_position-AllAimed (server_restart_process m.env) _ p
            (server_restart_process-AllAimed m.env))
        (λ off. said-AllAimed (p.app_name ++ text " is not running."))

  remove_listed-AllAimed : (p : Process) → Returning AimedServer (remove_listed m p s)
  unfolding remove_listed server_remove_process
  remove_listed-AllAimed p =
      bind-Returning (λ i. i < s.process_count) AimedServer (get_pos_in_process_list s p) _
        (get_pos-lt p)
        (λ i lt.
          bind-Returning AimedServer AimedServer (server_remove_process m i s) _
            (bind-Returning AimedServer AimedServer (on_slot (server_stop_process m.env) i s) _
              (on_slot-AllAimed (server_stop_process m.env) i s (server_stop_process-AllAimed m.env)
                valid lt aimed)
              (λ a ha.
                bind-Returning (λ d. Unit) AimedServer
                  (del_process_by_app_name a.1.slots a.0.app_name) _ (λ d e. tt)
                  (λ d u. done-Returning AimedServer _ ha)))
            (λ b hb. done-Returning AimedServer _ hb))

  on_listed-AllAimed :
      (f : Process → Server → Response) (buffer : Str)
      → ((p : Process) → Returning AimedServer (f p s))
      → Returning AimedServer (on_listed f m buffer s)
  unfolding on_listed
  on_listed-AllAimed f buffer h =
      bind-Returning (λ t. Unit) AimedServer (parse_process_and_process_type m s buffer) _
        (λ t e. tt) (λ t u. by_type t.0 t.1)
    where
      by_type :
          (type : RequestType) (p : Process)
          → Returning AimedServer (elim type [
            | type_cmd ↦ done (get_error_response buffer, s)
            | type_id ↦ f p s
            | type_app_name ↦ f p s
            | type_err ↦ done (get_error_response buffer, s)
          ])
      by_type type_cmd p = said-AllAimed _
      by_type type_id p = h p
      by_type type_app_name p = h p
      by_type type_err p = said-AllAimed _

  pub start-AllAimed :
      (buffer : Str) → Returning AimedServer (server_start_process_and_get_response m buffer s)
  unfolding server_start_process_and_get_response
  start-AllAimed buffer =
      bind-Returning (λ t. Unit) AimedServer (parse_process_and_process_type m s buffer) _
        (λ t e. tt) (λ t u. by_type t.0 t.1)
    where
      by_type :
          (type : RequestType) (p : Process)
          → Returning AimedServer (elim type [
            | type_cmd ↦ start_new m p s
            | type_id ↦ start_listed m p s
            | type_app_name ↦ start_listed m p s
            | type_err ↦ done (get_error_response buffer, s)
          ])
      by_type type_cmd p = start_new-AllAimed p
      by_type type_id p = start_listed-AllAimed p
      by_type type_app_name p = start_listed-AllAimed p
      by_type type_err p = said-AllAimed _

  pub stop-AllAimed :
      (buffer : Str) → Returning AimedServer (server_stop_process_and_get_response m buffer s)
  unfolding server_stop_process_and_get_response
  stop-AllAimed buffer = on_listed-AllAimed (stop_listed m) buffer stop_listed-AllAimed

  pub restart-AllAimed :
      (buffer : Str) → Returning AimedServer (server_restart_process_and_get_response m buffer s)
  unfolding server_restart_process_and_get_response
  restart-AllAimed buffer = on_listed-AllAimed (restart_listed m) buffer restart_listed-AllAimed

  pub remove-AllAimed :
      (buffer : Str) → Returning AimedServer (server_remove_process_and_get_response m buffer s)
  unfolding server_remove_process_and_get_response
  remove-AllAimed buffer = on_listed-AllAimed (remove_listed m) buffer remove_listed-AllAimed
