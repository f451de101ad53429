-- ===== src/Server/Signals/Histories.antt =====
-- The signals of the service, from its start on.
use kb_pm.Prelude.{
  ℕ, ◌++◌, sym, subst, Bool-cases, inl, inr, Option, List, [], All-map, All-append, done, Fault,
  replicate, ◌||◌, ◌==◌,
}
use kb_pm.CString.{Str, text}
use kb_pm.System.{Log, Event, record_event, Env}
use kb_pm.Proc.Signals.{
  IsAimed, AllAimed, AllAimed-record, Returning, bind-Returning, done-Returning,
  undefined-Returning, if-Returning,
}
use kb_pm.Process.{Process, buffer_size}
use kb_pm.Process.Table.{get_process_list_count}
use kb_pm.Process.Json.{create_process_list_json_str}
use kb_pm.Machine.{Machine}
use kb_pm.Server.{Server}
use kb_pm.Server.Daemon.{config_path}
use kb_pm.Server.Requests.{
  server_start_all_process, server_stop_all_process, get_running_process_count,
}
use kb_pm.Server.Wire.{c_string, read_into, pong_and_receive_data}
use kb_pm.Server.Service.{
  save_process_list, is_command, answer, serve_client, reap, before_wait, await_child,
  service_start,
}
use kb_pm.Server.Spec.{IsValid}
use kb_pm.Server.Boot.{IsStartEvent, config_events, service_start-booted}
use kb_pm.Server.Reach.{Reach, starts, serves, reaps, Reach-IsValid}
use kb_pm.Server.Signals.{AimedServer}
use kb_pm.Server.Signals.Rounds.{
  AimedSlots, AimedLog, start_all-AllAimed, stop_all-AllAimed, status-AllAimed, reap-AllAimed,
}
use kb_pm.Server.Signals.Requests.{start-AllAimed, stop-AllAimed, restart-AllAimed, remove-AllAimed}

start_event-IsAimed : (e : Event) → IsStartEvent e → IsAimed e
start_event-IsAimed (Event.killed p) h = absurd h
start_event-IsAimed (Event.forked n) h = tt
start_event-IsAimed Event.listed_proc h = tt
start_event-IsAimed Event.ignored_signals h = tt
start_event-IsAimed (Event.wrote_file p t) h = tt
start_event-IsAimed (Event.read_clock n) h = tt
start_event-IsAimed (Event.changed_dir n) h = tt
start_event-IsAimed (Event.executed n) h = tt
start_event-IsAimed (Event.read_status n) h = tt
start_event-IsAimed (Event.unlinked n) h = tt
start_event-IsAimed (Event.slept n) h = tt
start_event-IsAimed (Event.waited n) h = tt
start_event-IsAimed (Event.answered n) h = tt
start_event-IsAimed (Event.made_dir n) h = tt
start_event-IsAimed (Event.created_file n) h = tt
start_event-IsAimed (Event.made_session n) h = tt
start_event-IsAimed (Event.made_mutex n) h = tt
start_event-IsAimed (Event.made_thread n) h = tt
start_event-IsAimed (Event.complained n) h = tt

config_events-AllAimed :
    (env : Env) (log : Log) (home : Str) → AllAimed (config_events env log home)
config_events-AllAimed env log home = elim (Bool-cases (env.exists log (home ++ config_path))) [
  | inl there ↦ rw there tt
  | inr missing ↦ rw missing (tt, (tt, tt))
]

service_start-AllAimed :
    (m : Machine) (config : Option Str) (log : Log)
    → AllAimed log
    → Returning AimedLog (service_start m config log)
service_start-AllAimed m config log h s e =
    let (home, session, rest, set, trace, all) = service_start-booted m config log s e in
    subst AllAimed (sym trace) (
      All-append IsAimed log _ h (
        All-append IsAimed (config_events m.env log home) _ (config_events-AllAimed m.env log home)
          (tt, (tt, (tt, (tt, (tt, (tt, (tt, All-map start_event-IsAimed rest all)))))))))

-- Saving writes a file.
save_process_list-AllAimed :
    (m : Machine) (path : Str) (slots : List Process) (log : Log)
    → AllAimed log
    → Returning AllAimed (save_process_list m path slots log)
unfolding save_process_list
save_process_list-AllAimed m path slots log h =
    bind-Returning (λ r. Unit) AllAimed
      (create_process_list_json_str m.json slots (get_process_list_count slots) (m.stale log)) _
      (λ r e. tt)
      (λ r u.
        if-Returning AllAimed (m.env.writable log path)
          (done (record_event log (Event.wrote_file path r.1))) _
          (λ opens.
            done-Returning AllAimed _ (AllAimed-record log (Event.wrote_file path r.1) h tt))
          (λ shut. undefined-Returning AllAimed Fault.null_pointer))

answer-AllAimed :
    (m : Machine) (buffer : List ℕ) (message response : Str) (s : Server)
    → IsValid s
    → AllAimed s.log
    → Returning AimedServer (answer m buffer message response s)
unfolding answer
answer-AllAimed m buffer message response s valid h =
    let argument = c_string (pong_and_receive_data buffer message) in
    let said = λ (words : Str). done-Returning AimedServer (words, s) h in
    if-Returning AimedServer (is_command buffer (text "startall")) _ _
      (λ _.
        bind-Returning AimedLog AimedServer (server_start_all_process m s) _
          (start_all-AllAimed m s valid h) (λ s' h'. done-Returning AimedServer _ h'))
      (λ _.
        if-Returning AimedServer (is_command buffer (text "stopall")) _ _
          (λ _.
            bind-Returning AimedLog AimedServer (server_stop_all_process m s) _
              (stop_all-AllAimed m s valid h) (λ s' h'. done-Returning AimedServer _ h'))
          (λ _.
            if-Returning AimedServer (is_command buffer (text "status")) _ _
              (λ _. status-AllAimed m response s h)
              (λ _.
                if-Returning AimedServer (is_command buffer (text "start")) _ _
                  (λ _. start-AllAimed m s valid h argument)
                  (λ _.
                    if-Returning AimedServer (is_command buffer (text "stop")) _ _
                      (λ _. stop-AllAimed m s valid h argument)
                      (λ _.
                        if-Returning AimedServer (is_command buffer (text "restart")) _ _
                          (λ _. restart-AllAimed m s valid h argument)
                          (λ _.
                            if-Returning AimedServer (is_command buffer (text "remove")) _ _
                              (λ _. remove-AllAimed m s valid h argument)
                              (λ _.
                                if-Returning AimedServer (is_command buffer (text "ping")) _ _
                                  (λ _. said (text "pong"))
                                  (λ _. said (text "error command")))))))))

serve_client-AllAimed :
    (m : Machine) (path first second : Str) (before : List ℕ × Str) (s : Server)
    → IsValid s
    → AllAimed s.log
    → Returning AimedServer (serve_client m path first second before s)
unfolding serve_client
serve_client-AllAimed m path first second before s valid h =
    bind-Returning AimedServer AimedServer (answer m (read_into before.0 first) second before.1 s) _
      (answer-AllAimed m (read_into before.0 first) second before.1 s valid h)
      (λ a ha.
        bind-Returning AllAimed AimedServer
          (save_process_list m path a.1.slots (record_event a.1.log (Event.answered a.0))) _
          (save_process_list-AllAimed m path a.1.slots _
            (AllAimed-record a.1.log (Event.answered a.0) ha tt))
          (λ log' h'.
            done-Returning AimedServer ((replicate buffer_size 0, []), record a.1 { log = log' })
              h'))

before_wait-AllAimed : (s : Server) → AllAimed s.log → AllAimed (before_wait s)
unfolding before_wait
before_wait-AllAimed s h =
    elim (Bool-cases (s.process_count == 0 || get_running_process_count s == 0)) [
      | inl idle ↦ rw idle (AllAimed-record s.log (Event.slept 100000) h tt)
      | inr busy ↦ rw busy h
    ]

await_child-AllAimed :
    (m : Machine) (s : Server) → AllAimed s.log → Returning AimedLog (await_child m s)
unfolding await_child
await_child-AllAimed m s h =
    let pid = m.env.wait (before_wait s) in
    let waited = record_event (before_wait s) (Event.waited pid) in
    bind-Returning AimedSlots AimedLog (reap m.env pid s.process_count s.slots waited) _
      (reap-AllAimed m.env pid s.process_count s.slots waited
        (AllAimed-record (before_wait s) (Event.waited pid) (before_wait-AllAimed s h) tt))
      (λ a ha. done-Returning AimedLog (record s { slots = a.0; log = a.1 }) ha)

-- What had happened before the service was started.
abbrev pub first_log :
    {m : Machine} {config : Option Str} {path : Str} {buffers : List ℕ × Str} {s : Server}
    → Reach m config path buffers s
    → Log
first_log (starts log res slots loads loaded h) = log
first_log (serves first second r room names h) = first_log r
first_log (reaps r h) = first_log r

-- From a good saved list, whatever clients ask and whichever children end, in rounds that return,
-- as long as each client finds a slot to spare and sends no document of a program without a name,
-- all signals of the service go to single processes: none goes to a group of processes or to all of
-- them, as one to the number 0 or to a negative number would. What was sent before the service was
-- started is left out.
pub Reach-AllAimed :
    {m : Machine} {config : Option Str} {path : Str} {buffers : List ℕ × Str} {s : Server}
    (r : Reach m config path buffers s)
    → AllAimed (first_log r)
    → AllAimed s.log
Reach-AllAimed (starts {s = s} log res slots loads loaded h) first =
    service_start-AllAimed _ _ log first s h
Reach-AllAimed (serves {before} {after} {s} {s'} one two r room names h) first =
    serve_client-AllAimed _ _ one two before s (Reach-IsValid r) (Reach-AllAimed r first)
      (after, s') h
Reach-AllAimed (reaps {s = s} {s'} r h) first =
    await_child-AllAimed _ s (Reach-AllAimed r first) s' h
