-- ===== src/Server/Boot.antt =====
-- What the system sees of a service that starts, from the first call of `service_start` to its loop.
use kb_pm.Prelude.{
  ℕ, zero, suc, ◌≡◌, ◌∙◌, sym, ap, inl, inr, Bool-cases, Option-cases, ap₂, Option, some, List, [],
  ◌∷◌, ◌++◌, append_assoc, append-nil, All, All-append, if◌then◌else◌, arith, ℤ, pos, negsuc,
  is_nonzero, done, >>=-eq-done, replicate,
}
use kb_pm.CString.{Str, strcpy}
use kb_pm.System.{Log, Event, record_event, Env}
use kb_pm.Proc.{str_buffer_size}
use kb_pm.Process.{Process, list_size}
use kb_pm.Process.Json.{parse_process_list_from_path}
use kb_pm.Process.Saved.{strcpy-done}
use kb_pm.Machine.{Machine}
use kb_pm.Server.{Server}
use kb_pm.Server.Control.{after_fork, server_start_process}
use kb_pm.Server.Daemon.{
  config_path, config_dir, in_home, get_config_path, get_config_dir, create_config_file,
  init_daemon, init_threads,
}
use kb_pm.Server.Daemon.SetUp.{daemon_events, init_daemon-done}
use kb_pm.Server.Service.{start_saved, service_start, loaded_count, zero_process}

-- What the calls of `service_start` came to, if it has returned.
pub record IsStart (m : Machine) (config : Option Str) (log : Log) (s : Server) : Type 0 where
  pub with_config : Log
  pub path : Str
  pub res : ℤ
  pub loaded : List Process
  pub in_background : Log
  pub ready : Log
  pub started : List Process
  pub log' : Log
  pub configures : create_config_file m.env log ≡ done with_config
  pub locates : get_config_path m.env ≡ done path
  pub loads :
      parse_process_list_from_path m.json m.fallthrough config
        (m.stale log)
        (replicate list_size zero_process)
      ≡ done (res, loaded)
  pub detaches : init_daemon m.env with_config ≡ done in_background
  pub prepares : init_threads m.env in_background ≡ done ready
  pub starts : start_saved m.env 0 (loaded_count res) loaded ready ≡ done (started, log')
  pub result : record { slots = started; process_count = loaded_count res; log = log' } ≡ s

pub service_start-IsStart :
    (m : Machine) (config : Option Str) (log : Log) (s : Server)
    → service_start m config log ≡ done s
    → IsStart m config log s
unfolding service_start
service_start-IsStart m config log s h =
    let (with_config, e, h1) = >>=-eq-done (create_config_file m.env log) _ h in
    let (path, e1, h2) = >>=-eq-done (get_config_path m.env) _ h1 in
    let (a, e2, h3) =
      >>=-eq-done
        (parse_process_list_from_path m.json m.fallthrough config (m.stale log)
          (replicate list_size zero_process))
        _ h2 in
    let (in_background, e3, h4) = >>=-eq-done (init_daemon m.env with_config) _ h3 in
    let (ready, e4, h5) = >>=-eq-done (init_threads m.env in_background) _ h4 in
    let (b, e5, h6) = >>=-eq-done (start_saved m.env 0 (loaded_count a.0) a.1 ready) _ h5 in
    record {
      with_config = with_config;
      path = path;
      res = a.0;
      loaded = a.1;
      in_background = in_background;
      ready = ready;
      started = b.0;
      log' = b.1;
      configures = e;
      locates = e1;
      loads = e2;
      detaches = e3;
      prepares = e4;
      starts = e5;
      result = ground arith;
    }

-- The file of the list is made, in a directory of its own, unless it is there.
abbrev pub config_events : Env → Log → Str → Log
config_events env log home =
    if env.exists log (home ++ config_path)
    then []
    else Event.made_dir (home ++ config_dir) ∷ Event.created_file (home ++ config_path) ∷ []

create_config_file-done :
    (env : Env) (log log' : Log)
    → create_config_file env log ≡ done log'
    → (home : Str) × (env.home ≡ some home) × (log' ≡ log ++ config_events env log home)
unfolding create_config_file get_config_path get_config_dir in_home
create_config_file-done env log log' h = elim (Option-cases env.home) [
  | inl none_home ↦ absurd (ground arith)
  | inr (home, e) ↦
      let h1 = rw e at h in
      let (path, e1, h2) = >>=-eq-done (strcpy str_buffer_size (home ++ config_path)) _ h1 in
      let (dir, e2, h3) = >>=-eq-done (strcpy str_buffer_size (home ++ config_dir)) _ h2 in
      let (fits1, same1) = strcpy-done str_buffer_size (home ++ config_path) path e1 in
      let (fits2, same2) = strcpy-done str_buffer_size (home ++ config_dir) dir e2 in
      (
        home,
        e,
        elim (Bool-cases (env.exists log (home ++ config_path))) [
          | inl there ↦
              let ended : log ≡ log' = ground arith in rw there (sym ended ∙ sym (append-nil log))
          | inr missing ↦
              let ended : record_event (record_event log (Event.made_dir dir))
                    (Event.created_file path)
                  ≡ log' =
                ground arith in
              rw missing (
                sym ended
                ∙ append_assoc log (Event.made_dir dir ∷ []) _
                ∙ ap₂ (λ a b. log ++ (Event.made_dir a ∷ Event.created_file b ∷ [])) (sym same2)
                    (sym same1))
        ],
      )
]

init_threads-done :
    (env : Env) (log log' : Log)
    → init_threads env log ≡ done log'
    → log' ≡ log ++ (Event.made_mutex (pos 0) ∷ Event.made_thread (pos 0) ∷ [])
unfolding init_threads
init_threads-done env log log' h = elim (Bool-cases (is_nonzero (env.pthread_mutex_init log))) [
  | inl fails ↦ absurd (ground arith)
  | inr made ↦
      let with_mutex = record_event log (Event.made_mutex (env.pthread_mutex_init log)) in
      elim (Bool-cases (is_nonzero (env.pthread_create with_mutex))) [
        | inl fails ↦ absurd (ground arith)
        | inr runs ↦
            let zero_mutex : env.pthread_mutex_init log ≡ pos 0 = ground arith in
            let zero_thread : env.pthread_create with_mutex ≡ pos 0 = ground arith in
            let ended : record_event with_mutex (Event.made_thread (env.pthread_create with_mutex))
                ≡ log' =
              ground arith in
            sym ended
            ∙ append_assoc log (Event.made_mutex (env.pthread_mutex_init log) ∷ []) _
            ∙ ap₂ (λ a b. log ++ (Event.made_mutex a ∷ Event.made_thread b ∷ [])) zero_mutex
                zero_thread
      ]
]

-- A program is forked and its time is taken.
abbrev pub IsStartEvent : Event → Type 0
IsStartEvent (Event.forked (pos (suc n))) = Unit
IsStartEvent (Event.read_clock n) = Unit
IsStartEvent _ = ⊥

after_fork-events :
    (env : Env) (p : Process) (log : Log) (answer : ℤ) (q : Process) (log' : Log)
    → after_fork env p (record_event log (Event.forked answer)) answer ≡ done (q, log')
    → (rest : Log) × (log' ≡ log ++ rest) × All IsStartEvent rest
unfolding after_fork
after_fork-events env p log (negsuc n) q log' h = absurd (cc)
after_fork-events env p log (pos zero) q log' h = absurd (ground arith)
after_fork-events env p log (pos (suc n)) q log' h =
    let forked = record_event log (Event.forked (pos (suc n))) in
    let ended : record_event forked (Event.read_clock (env.time forked)) ≡ log' = ground arith in
    (
      Event.forked (pos (suc n)) ∷ Event.read_clock (env.time forked) ∷ [],
      sym ended ∙ append_assoc log (Event.forked (pos (suc n)) ∷ []) _,
      (tt, (tt, tt)),
    )

start_saved-events :
    (env : Env) (i n : ℕ) (slots : List Process) (log : Log) (slots' : List Process) (log' : Log)
    → start_saved env i n slots log ≡ done (slots', log')
    → (rest : Log) × (log' ≡ log ++ rest) × All IsStartEvent rest
unfolding start_saved server_start_process
start_saved-events env i zero slots log slots' log' h = ([], ground (arith, append-nil log), tt)
start_saved-events env i (suc n) [] log slots' log' h = absurd (cc)
start_saved-events env i (suc n) (p ∷ slots) log slots' log' h =
    let numbered : Process = record p { id = pos i } in
    elim (Bool-cases (is_nonzero p.is_running)) [
      | inl on ↦
          let (a, e, h1) = >>=-eq-done (server_start_process env numbered log) _ (rw on at h) in
          let (b, e1, h2) = >>=-eq-done (start_saved env (suc i) n slots a.1) _ h1 in
          let (rest, e2, all) = after_fork-events env numbered log (env.fork log) a.0 a.1 e in
          let (rest', e3, all') = start_saved-events env (suc i) n slots a.1 b.0 b.1 e1 in
          let ended : b.1 ≡ log' = ground arith in
          (
            rest ++ rest',
            sym ended ∙ e3 ∙ ap (λ l. l ++ rest') e2 ∙ append_assoc log rest rest',
            All-append IsStartEvent rest rest' all all',
          )
      | inr off ↦
          let (b, e1, h2) = >>=-eq-done (start_saved env (suc i) n slots log) _ (rw off at h) in
          let (rest', e3, all') = start_saved-events env (suc i) n slots log b.0 b.1 e1 in
          let ended : b.1 ≡ log' = ground arith in (rest', sym ended ∙ e3, all')
    ]

-- Four stages, one after the other.
append_stages :
    (log a b c d : Log) {log1 log2 log3 log4 : Log}
    → log1 ≡ log ++ a
    → log2 ≡ log1 ++ b
    → log3 ≡ log2 ++ c
    → log4 ≡ log3 ++ d
    → log4 ≡ log ++ (a ++ (b ++ (c ++ d)))
append_stages log a b c d e1 e2 e3 e4 =
    e4
    ∙ ap (λ l. l ++ d) (e3 ∙ ap (λ l. l ++ c) (e2 ∙ ap (λ l. l ++ b) e1))
    ∙ append_assoc (log ++ a ++ b) c d
    ∙ append_assoc (log ++ a) b (c ++ d)
    ∙ append_assoc log a (b ++ (c ++ d))

-- A start of the service that returns has gone this way, whatever it was to load: the file of the
-- list was there, below $HOME, or first its directory and then the file were asked for; the
-- service became a daemon of two forks and a session of its own; the mutex and the thread for the
-- clients were made; and only then were programs started, each forked by the service itself.
pub service_start-booted :
    (m : Machine) (config : Option Str) (log : Log) (s : Server)
    → service_start m config log ≡ done s
    → (home : Str) × (session : ℕ) × (rest : Log) × (m.env.home ≡ some home)
      × (s.log
          ≡ log
            ++ (config_events m.env log home
                ++ (daemon_events session
                    ++ (Event.made_mutex (pos 0) ∷ Event.made_thread (pos 0) ∷ rest))))
      × All IsStartEvent rest
service_start-booted m config log s h =
    let calls = service_start-IsStart m config log s h in
    let (home, set, made_config) =
      create_config_file-done m.env log calls.with_config calls.configures in
    let (session, detached) =
      init_daemon-done m.env calls.with_config calls.in_background calls.detaches in
    let threads = init_threads-done m.env calls.in_background calls.ready calls.prepares in
    let (rest, starts, all) =
      start_saved-events m.env 0 (loaded_count calls.res) calls.loaded calls.ready calls.started
        calls.log' calls.starts in
    (
      home,
      session,
      rest,
      set,
      ap (λ (x : Server). x.log) (sym calls.result)
          ∙ append_stages log (config_events m.env log home) (daemon_events session)
              (Event.made_mutex (pos 0) ∷ Event.made_thread (pos 0) ∷ []) rest made_config detached
              threads starts,
      all,
    )
