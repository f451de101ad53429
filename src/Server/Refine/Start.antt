-- ===== src/Server/Refine/Start.antt =====
-- `kbpm start`
use kb_pm.Prelude.{
  ◌≡◌, ◌≢◌, ◌∙◌, ap, ◌∷◌, sym, subst, ◌++◌, ◌⊎◌, List, [], refl, inl, inr, Bool-cases, Option-cases,
  none, some, arith, done, >>=-eq-done, is_nonzero, pos,
}
use kb_pm.CString.{Str, text, show_int}
use kb_pm.System.{Log}
use kb_pm.Process.{Process}
use kb_pm.Machine.{Machine}
use kb_pm.Server.{Server}
use kb_pm.Server.Lookup.{
  RequestType, type_app_name, type_id, type_cmd, type_err, find_app, parse_request,
  parse_process_and_process_type, get_error_response,
}
use kb_pm.Server.Control.{server_start_process}
use kb_pm.Server.Requests.{
  Response, append_slot, start_new, start_listed, server_start_process_with_cmd,
  server_start_process_and_get_response,
}
use kb_pm.Server.Spec.{App, app_of, apps, IsValid}
use kb_pm.Server.Entries.{index_from-entries}
use kb_pm.Server.Contract.{target, begin, start_spec, add_spec, add_new}
use kb_pm.Server.Resolve.{IsFound, Resolved, parse_process_and_process_type-Resolved}
use kb_pm.Server.Effects.{
  IsStarted, time_after_fork, server_start_process-done, app_of-begin, IsSettled-of_started,
}
use kb_pm.Server.Invariant.{append_slot-IsValid}
use kb_pm.Server.Refine.{on_found-done}

-- The documents that clients send name their programs.
abbrev pub NamesPrograms : Machine → Server → Str → Type 0
NamesPrograms m s buffer =
    (p : Process) → parse_request m s buffer ≡ done (type_cmd, p) → p.app_name ≢ []

-- What a start may come to: it is about a program of the list, or about a document that describes
-- a new one, or about neither.
abbrev pub StartMeets : Machine → Server → Str → Str × List App → Type 0
StartMeets m s buffer out =
    ((a : App) × (target buffer (apps s) ≡ some a)
      × (out ≡ start_spec (m.env.fork s.log) (time_after_fork m.env s.log) a (apps s)))
    ⊎ (((p : Process) × (target buffer (apps s) ≡ none)
          × (parse_request m s buffer ≡ done (type_cmd, p))
          × (out ≡ add_spec (m.env.fork s.log) (time_after_fork m.env s.log) (app_of p) (apps s)))
        ⊎ ((p : Process) × (target buffer (apps s) ≡ none)
            × (parse_request m s buffer ≡ done (type_err, p))
            × (out ≡ (get_error_response buffer, apps s))))

answer_path :
    {r r' : Str} {list list' : List App}
    → r ≡ r'
    → list ≡ list'
    → ◌≡◌ {A = Str × List App} (r, list) (r', list')
answer_path said same = λ i. (said i, same i)

module _ (m : Machine) (buffer : Str) (s : Server) (r : Str) (s' : Server) (valid : IsValid s) where
  start_listed-lem :
      (p : Process)
      → IsFound s buffer p
      → start_listed m p s ≡ done (r, s')
      → IsValid s'
        × ((r, apps s')
            ≡ start_spec (m.env.fork s.log) (time_after_fork m.env s.log) (app_of p) (apps s))
  unfolding start_listed
  start_listed-lem p found h = elim (Bool-cases (is_nonzero p.is_running)) [
    | inr off ↦
        let (q, log', called, said, w) =
          on_found-done (server_start_process m.env)
            (λ q. text "Started " ++ p.app_name ++ text " with pid:" ++ show_int q.pid ++ text ".")
            s buffer p r s' valid found (rw off at h) in
        let started = server_start_process-done m.env p s.log q log' called in
        let settled = IsSettled-of_started m.env s.log p q (pos 0) started in
        (
          w.valid started.same settled,
          ground
              (arith, w.swapped started.same settled, app_of-begin m.env s.log p q (pos 0) started),
        )
    | inl on ↦ (ground arith, ground arith)
  ]

  added-lem :
      (p q : Process) (log' : Log) (s2 : Server)
      → p.app_name ≢ []
      → find_app s p.app_name ≡ none
      → IsStarted m.env s.log p q (pos 0)
      → append_slot (record q { id = pos s.process_count }) (record s { log = log' }) ≡ done s2
      → IsValid s2
        × (apps s2
            ≡ apps s
              ++ begin (m.env.fork s.log) (time_after_fork m.env s.log) (pos 0) (app_of p) ∷ [])
  added-lem p q log' s2 named new started h =
      let (valid2, grown) =
        append_slot-IsValid (record q { id = pos s.process_count }) (record s { log = log' }) s2
          (record {
            sized = valid.sized;
            counted = valid.counted;
            numbered = valid.numbered;
            good = valid.good;
          })
          (λ e. named (sym started.same.name ∙ e))
          (IsSettled-of_started m.env s.log p q (pos 0) started) refl
          (ap (find_app s) started.same.name ∙ new) h in
      (valid2, grown ∙ ap (λ b. apps s ++ b ∷ []) (app_of-begin m.env s.log p q (pos 0) started))

  said_of_started :
      (p q : Process) (s2 : Server)
      → IsStarted m.env s.log p q (pos 0)
      → ◌≡◌ {A = Response}
          (done
            (text "Starting " ++ q.app_name ++ text " with pid:" ++ show_int q.pid ++ text ".", s2))
          (done (r, s'))
      → (s2 ≡ s')
        × (r
            ≡ text "Starting "
              ++ p.app_name
              ++ text " with pid:"
              ++ show_int (m.env.fork s.log)
              ++ text ".")
  said_of_started p q s2 started h = (ground arith, ground arith)

  with_cmd-lem :
      (p : Process)
      → p.app_name ≢ []
      → find_app s p.app_name ≡ none
      → server_start_process_with_cmd m p s ≡ done (r, s')
      → IsValid s'
        × ((r, apps s')
            ≡ add_new (m.env.fork s.log) (time_after_fork m.env s.log) (app_of p) (apps s))
  unfolding server_start_process_with_cmd
  with_cmd-lem p named new h =
      let (a, e, h1) = >>=-eq-done (server_start_process m.env p s.log) _ h in
      let (s2, e2, h2) =
        >>=-eq-done (append_slot (record a.0 { id = pos s.process_count }) (record s { log = a.1 }))
          _ h1 in
      let started = server_start_process-done m.env p s.log a.0 a.1 e in
      let (valid2, grown) = added-lem p a.0 a.1 s2 named new started e2 in
      let (same, said) = said_of_started p a.0 s2 started h2 in
      (subst IsValid same valid2, answer_path said (ap apps (sym same) ∙ grown))

  start_new-lem :
      (p : Process)
      → p.app_name ≢ []
      → start_new m p s ≡ done (r, s')
      → IsValid s'
        × ((r, apps s')
            ≡ add_spec (m.env.fork s.log) (time_after_fork m.env s.log) (app_of p) (apps s))
  unfolding start_new
  start_new-lem p named h = elim (Option-cases (find_app s p.app_name)) [
    | inl new ↦
        ground
          (arith, with_cmd-lem p named new, index_from-entries 0 p.app_name s.process_count s.slots)
    | inr (i, taken) ↦ ground (arith, index_from-entries 0 p.app_name s.process_count s.slots)
  ]

  by_type :
      (t : RequestType) (p : Process)
      → NamesPrograms m s buffer
      → Resolved m s buffer (t, p)
      → elim t as (λ _. Response) [
        | type_cmd ↦ start_new m p s
        | type_id ↦ start_listed m p s
        | type_app_name ↦ start_listed m p s
        | type_err ↦ done (get_error_response buffer, s)
      ]
        ≡ done (r, s')
      → IsValid s' × StartMeets m s buffer (r, apps s')
  by_type type_cmd p names res h =
      let (valid', out) = start_new-lem p (names p res.1) h in
      (valid', inr (inl (p, res.0, res.1, out)))
  by_type type_id p names res h =
      let (valid', out) = start_listed-lem p res h in (valid', inl (app_of p, res.meant, out))
  by_type type_app_name p names res h =
      let (valid', out) = start_listed-lem p res h in (valid', inl (app_of p, res.meant, out))
  by_type type_err p names res h = (ground arith, inr (inr (p, res.0, res.1, ground arith)))

  -- On a valid service, a start that returns leaves a valid service, if the document of a new
  -- program gives it a name that is not empty. The response and the list are those of the contract
  -- for the process that was forked and the time then: a program of the list that runs is reported
  -- and one that does not is started; the program of a document is appended unless its name is
  -- taken; and anything else is reported as unknown.
  pub start_refines :
      NamesPrograms m s buffer
      → server_start_process_and_get_response m buffer s ≡ done (r, s')
      → IsValid s' × StartMeets m s buffer (r, apps s')
  unfolding server_start_process_and_get_response
  start_refines names h =
      let (a, e, h') = >>=-eq-done (parse_process_and_process_type m s buffer) _ h in
      by_type a.0 a.1 names (parse_process_and_process_type-Resolved m s buffer valid a.0 a.1 e) h'
