-- ===== src/Server/Signals/Rounds.antt =====
-- The signals of the loops over all programs.
use kb_pm.Prelude.{
  ℕ, zero, suc, inl, inr, Option-cases, none, some, List, [], ◌∷◌, ℤ, pos, eq_ℤ, is_nonzero,
  Outcome, done, Fault,
}
use kb_pm.CString.{Str}
use kb_pm.System.{Log, Event, record_event, Env}
use kb_pm.Proc.Signals.{
  AllAimed, AllAimed-record, Returning, bind-Returning, done-Returning, undefined-Returning,
  if-Returning,
}
use kb_pm.Process.{Process}
use kb_pm.Process.Document.{CJson}
use kb_pm.Process.Kill.{get_mem_by_pid}
use kb_pm.Process.Signals.{get_mem_by_pid-AllAimed}
use kb_pm.Process.Json.{
  create_process_cjson_with_status, create_items_with_status,
  create_process_list_json_str_with_status, print_if_made,
}
use kb_pm.Machine.{Machine}
use kb_pm.Server.{Server}
use kb_pm.Server.Control.{server_start_process, server_stop_process}
use kb_pm.Server.Requests.{
  for_each_slot, start_if_stopped, stop_if_running, server_start_all_process,
  server_stop_all_process, get_process_list_status,
}
use kb_pm.Server.Service.{revive, put_before, reap}
use kb_pm.Server.Spec.{IsValid, IsGood, entries}
use kb_pm.Server.Signals.{
  AimedProcess, AimedServer, IsAimedCall, server_start_process-AllAimed,
  server_stop_process-AllAimed,
}

-- The log that comes with all slots.
abbrev pub AimedSlots : List Process × Log → Type 0
AimedSlots a = AllAimed a.1

for_each_slot-AllAimed :
    (f : Process → Log → Outcome Log (Process × Log)) (n : ℕ) (slots : List Process) (log : Log)
    → IsAimedCall f
    → IsGood (entries n slots)
    → AllAimed log
    → Returning AimedSlots (for_each_slot f n slots log)
unfolding for_each_slot
for_each_slot-AllAimed f zero slots log call good h = done-Returning AimedSlots (slots, log) h
for_each_slot-AllAimed f (suc n) [] log call good h =
    undefined-Returning AimedSlots Fault.out_of_bounds
for_each_slot-AllAimed f (suc n) (p ∷ slots) log call good h =
    bind-Returning AimedProcess AimedSlots (f p log) _ (call p log good.1 h) (λ a ha.
      bind-Returning AimedSlots AimedSlots (for_each_slot f n slots a.1) _
        (for_each_slot-AllAimed f n slots a.1 call good.3 ha)
        (λ b hb. done-Returning AimedSlots (a.0 ∷ b.0, b.1) hb))

start_if_stopped-AllAimed : (env : Env) → IsAimedCall (start_if_stopped env)
start_if_stopped-AllAimed env p log settled h =
    if-Returning AimedProcess (is_nonzero p.is_running) (done (p, log))
      (server_start_process env p log) (λ on. done-Returning AimedProcess (p, log) h)
      (λ off. server_start_process-AllAimed env p log h)

stop_if_running-AllAimed : (env : Env) → IsAimedCall (stop_if_running env)
stop_if_running-AllAimed env p log settled h =
    if-Returning AimedProcess (is_nonzero p.is_running) (server_stop_process env p log)
      (done (p, log)) (λ on. server_stop_process-AllAimed env p log settled h)
      (λ off. done-Returning AimedProcess (p, log) h)

-- The log of a service.
abbrev pub AimedLog : Server → Type 0
AimedLog s = AllAimed s.log

pub start_all-AllAimed :
    (m : Machine) (s : Server)
    → IsValid s
    → AllAimed s.log
    → Returning AimedLog (server_start_all_process m s)
unfolding server_start_all_process
start_all-AllAimed m s valid h =
    bind-Returning AimedSlots AimedLog
      (for_each_slot (start_if_stopped m.env) s.process_count s.slots s.log) _
      (for_each_slot-AllAimed (start_if_stopped m.env) s.process_count s.slots s.log
        (start_if_stopped-AllAimed m.env) valid.good h)
      (λ a ha. done-Returning AimedLog _ ha)

pub stop_all-AllAimed :
    (m : Machine) (s : Server)
    → IsValid s
    → AllAimed s.log
    → Returning AimedLog (server_stop_all_process m s)
unfolding server_stop_all_process
stop_all-AllAimed m s valid h =
    bind-Returning AimedSlots AimedLog
      (for_each_slot (stop_if_running m.env) s.process_count s.slots s.log) _
      (for_each_slot-AllAimed (stop_if_running m.env) s.process_count s.slots s.log
        (stop_if_running-AllAimed m.env) valid.good h)
      (λ a ha. done-Returning AimedLog _ ha)

module _ (c : CJson) (env : Env) where
  cjson_with_status-AllAimed :
      (p : Process) (j : c.Json) (log : Log)
      → AllAimed log
      → Returning (λ a. AllAimed a.2) (create_process_cjson_with_status c env p j log)
  unfolding create_process_cjson_with_status
  cjson_with_status-AllAimed p j log h =
      if-Returning (λ a. AllAimed a.2) (is_nonzero p.is_running) _ _
        (λ on.
          bind-Returning (λ a. AllAimed a.1) (λ a. AllAimed a.2) (get_mem_by_pid env p.pid log) _
            (get_mem_by_pid-AllAimed env p.pid log h)
            (λ a ha. done-Returning (λ a. AllAimed a.2) _ ha))
        (λ off. done-Returning (λ a. AllAimed a.2) _ h)

  create_items_with_status-AllAimed :
      (n : ℕ) (slots : List Process) (j : c.Json) (log : Log)
      → AllAimed log
      → Returning (λ a. AllAimed a.2) (create_items_with_status c env n slots j log)
  unfolding create_items_with_status
  create_items_with_status-AllAimed zero slots j log h a e =
      done-Returning (λ a. AllAimed a.2) (some j, slots, log) h a e
  create_items_with_status-AllAimed (suc n) [] j log h a e =
      undefined-Returning (λ a. AllAimed a.2) Fault.out_of_bounds a e
  create_items_with_status-AllAimed (suc n) (p ∷ slots) j log h a e =
      elim (Option-cases c.create_object) [
        | inl full ↦
            done-Returning (λ a. AllAimed a.2) (none, p ∷ slots, log) h a
              (rw (create_items_with_status, full) at e)
        | inr (o, made) ↦
            bind-Returning (λ a. AllAimed a.2) (λ a. AllAimed a.2)
              (create_process_cjson_with_status c env p o log) _
              (cjson_with_status-AllAimed p o log h)
              (λ b hb.
                bind-Returning (λ a. AllAimed a.2) (λ a. AllAimed a.2)
                  (create_items_with_status c env n slots (c.add_item_to_array j b.0) b.2) _
                  (create_items_with_status-AllAimed n slots (c.add_item_to_array j b.0) b.2 hb)
                  (λ d hd. done-Returning (λ a. AllAimed a.2) (d.0, b.1 ∷ d.1, d.2) hd))
              a (rw (create_items_with_status, made) at e)
      ]

-- The status of the programs.
pub status-AllAimed :
    (m : Machine) (response : Str) (s : Server)
    → AllAimed s.log
    → Returning AimedServer (get_process_list_status m response s)
unfolding get_process_list_status create_process_list_json_str_with_status
status-AllAimed m response s h a e = elim (Option-cases m.json.create_array) [
  | inl full ↦
      done-Returning AimedServer (response, s) h a
        (rw (get_process_list_status, create_process_list_json_str_with_status, full) at e)
  | inr (array, made) ↦
      bind-Returning (λ r. AllAimed r.1.2) AimedServer _
        (λ r. done (r.1.0, record s { slots = r.1.1; log = r.1.2 }))
        (bind-Returning (λ b. AllAimed b.2) (λ r. AllAimed r.1.2)
          (create_items_with_status m.json m.env s.process_count s.slots array s.log) _
          (create_items_with_status-AllAimed m.json m.env s.process_count s.slots array s.log h)
          (λ b hb.
            bind-Returning (λ p. Unit) (λ r. AllAimed r.1.2) (print_if_made m.json response b.0)
              (λ p. done (p.0, (p.1, b.1, b.2))) (λ p e1. tt)
              (λ p u. done-Returning (λ r. AllAimed r.1.2) (p.0, (p.1, b.1, b.2)) hb)))
        (λ r hr. done-Returning AimedServer (r.1.0, record s { slots = r.1.1; log = r.1.2 }) hr) a
        (rw (get_process_list_status, create_process_list_json_str_with_status, made) at e)
]

-- A program that has ended is started again: no signal is sent.
revive-AllAimed :
    (env : Env) (p : Process) (log : Log) → AllAimed log → Returning AimedProcess (revive env p log)
unfolding revive
revive-AllAimed env p log h =
    bind-Returning AimedProcess AimedProcess (server_start_process env p log) _
      (server_start_process-AllAimed env p log h)
      (λ a ha. done-Returning AimedProcess _ (AllAimed-record a.1 (Event.slept 100000) ha tt))

put_before-AllAimed :
    (p : Process) (rest : Outcome Log (List Process × Log))
    → Returning AimedSlots rest
    → Returning AimedSlots (put_before p rest)
put_before-AllAimed p rest h =
    bind-Returning AimedSlots AimedSlots rest (λ a. done (p ∷ a.0, a.1)) h
      (λ a ha. done-Returning AimedSlots (p ∷ a.0, a.1) ha)

pub reap-AllAimed :
    (env : Env) (pid : ℤ) (n : ℕ) (slots : List Process) (log : Log)
    → AllAimed log
    → Returning AimedSlots (reap env pid n slots log)
unfolding reap
reap-AllAimed env pid zero slots log h = done-Returning AimedSlots (slots, log) h
reap-AllAimed env pid (suc n) [] log h = undefined-Returning AimedSlots Fault.out_of_bounds
reap-AllAimed env pid (suc n) (p ∷ slots) log h =
    let timed = record_event log (Event.read_clock (env.time log)) in
    let ht = AllAimed-record log (Event.read_clock (env.time log)) h tt in
    if-Returning AimedSlots (eq_ℤ p.pid pid) _ _
      (λ same.
        if-Returning AimedSlots (is_nonzero p.is_running) _ (done (p ∷ slots, log))
          (λ on.
            if-Returning AimedSlots (eq_ℤ p.start_time (env.time log))
              (done ((record p { is_running = pos 0; pid = pos 0 }) ∷ slots, timed)) _
              (λ quick. done-Returning AimedSlots _ ht)
              (λ later.
                bind-Returning AimedProcess AimedSlots (revive env p timed) _
                  (revive-AllAimed env p timed ht)
                  (λ a ha.
                    put_before-AllAimed a.0 (reap env pid n slots a.1)
                      (reap-AllAimed env pid n slots a.1 ha))))
          (λ off. done-Returning AimedSlots (p ∷ slots, log) h))
      (λ other.
        put_before-AllAimed p (reap env pid n slots log) (reap-AllAimed env pid n slots log h))
