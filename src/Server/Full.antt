-- ===== src/Server/Full.antt =====
-- A service with all its slots in use: what needs one more slot goes past the array.
use kb_pm.Prelude.{
  ℕ, zero, suc, ◌≡◌, ◌≤◌, ◌<◌, ◌∙◌, refl, ap, none, some, List, [], ◌∷◌, arith, length, ℤ, pos,
  negsuc, pos_part, pred_ℤ, Outcome, done, undefined, Fault, ◌>>=◌,
}
use kb_pm.CString.{Str}
use kb_pm.System.{Log, Event, record_event, Env}
use kb_pm.Process.{Process, list_size}
use kb_pm.Process.Table.{
  get_process_list_count, last_index_from, shift_down, shift_from, del_process_by_app_name,
}
use kb_pm.Machine.{Machine}
use kb_pm.Server.{Server}
use kb_pm.Server.Lookup.{find_app}
use kb_pm.Server.Control.{after_fork, server_start_process}
use kb_pm.Server.Requests.{append_slot, server_start_process_with_cmd, start_new}
use kb_pm.Server.Spec.{IsValid}
use kb_pm.Server.Deletion.{get_process_list_count-eq, last_index_from-eq}
use kb_pm.Server.Entries.{index_from-some}

-- A gap cannot be closed when there is nothing behind the list.
shift_down-short :
    (rounds : ℕ) (p : Process) (slots : List Process)
    → length slots < rounds
    → shift_down rounds (p ∷ slots) ≡ undefined Fault.out_of_bounds
unfolding shift_down
shift_down-short zero p slots h = absurd (omega arith)
shift_down-short (suc rounds) p [] h = refl
shift_down-short (suc rounds) p (q ∷ slots) h =
    let q' : Process = record q { id = pred_ℤ q.id } in
    ap (λ o. o >>= λ slots'. done (q' ∷ slots'))
      (shift_down-short rounds q' slots (omega (arith, h)))

shift_from-short :
    (index count : ℕ) (slots : List Process)
    → index < length slots
    → length slots ≤ count
    → shift_from index count slots ≡ undefined Fault.out_of_bounds
unfolding shift_from
shift_from-short index count [] lt h = elim lt [ ]
shift_from-short zero count (p ∷ slots) lt h = shift_down-short count p slots (omega (arith, h))
shift_from-short (suc index) zero (p ∷ slots) lt h = absurd (omega (arith, h))
shift_from-short (suc index) (suc count) (p ∷ slots) lt h =
    ap (λ o. o >>= λ slots'. done (p ∷ slots'))
      (shift_from-short index count slots (omega (arith, lt)) (omega (arith, h)))

-- When all slots of a valid service are in use, deleting a program of the list reads the slot
-- behind the array.
pub del_process_by_app_name-full :
    (s : Server) (name : Str) (i : ℕ)
    → IsValid s
    → s.process_count ≡ list_size
    → find_app s name ≡ some i
    → del_process_by_app_name s.slots name ≡ undefined Fault.out_of_bounds
unfolding del_process_by_app_name
del_process_by_app_name-full s name i valid full found =
    let counted =
      get_process_list_count-eq s.process_count s.slots valid.counted valid.numbered valid.good in
    let c = get_process_list_count s.slots in
    let last : last_index_from 0 none name c s.slots ≡ some i =
      rw counted (last_index_from-eq 0 name s.process_count s.slots valid.good ∙ found) in
    let (j, p, e, lt, at, named) = index_from-some 0 name s.process_count s.slots i found in
    let short =
      shift_from-short i c s.slots (omega (arith, e, lt, full, valid.sized))
        (omega (arith, counted, full, valid.sized)) in
    rw (del_process_by_app_name, last)
      (ap (λ (o : Outcome Log (List Process)). o >>= λ slots'. done (pos 0, slots')) short)

append_slot-full :
    (p : Process) (s : Server)
    → length s.slots ≡ list_size
    → s.process_count ≡ list_size
    → append_slot p s ≡ undefined Fault.out_of_bounds
unfolding append_slot
append_slot-full p s sized full = ground arith

pub after_fork-parent :
    (env : Env) (p : Process) (log : Log) (answer : ℤ)
    → 0 < pos_part answer
    → (q : Process) × (log' : Log) × (after_fork env p log answer ≡ done (q, log'))
unfolding after_fork
after_fork-parent env p log (negsuc n) h = absurd (omega arith)
after_fork-parent env p log (pos zero) h = absurd (omega arith)
after_fork-parent env p log (pos (suc n)) h = (_, _, refl)

with_cmd-full :
    (m : Machine) (p q : Process) (s : Server) (log' : Log)
    → IsValid s
    → s.process_count ≡ list_size
    → server_start_process m.env p s.log ≡ done (q, log')
    → server_start_process_with_cmd m p s ≡ undefined Fault.out_of_bounds
unfolding server_start_process_with_cmd
with_cmd-full m p q s log' valid full e = rw e (
    rw (
      append_slot-full (record q { id = pos s.process_count }) (record s { log = log' }) valid.sized
        full))

-- When all slots of a valid service are in use, a program of a new name is started, and its record
-- is then written behind the array.
pub start_new-full :
    (m : Machine) (p : Process) (s : Server)
    → IsValid s
    → s.process_count ≡ list_size
    → find_app s p.app_name ≡ none
    → 0 < pos_part (m.env.fork s.log)
    → ((q : Process) × (log' : Log) × (server_start_process m.env p s.log ≡ done (q, log')))
      × (start_new m p s ≡ undefined Fault.out_of_bounds)
unfolding start_new server_start_process
start_new-full m p s valid full new live =
    let forked = record_event s.log (Event.forked (m.env.fork s.log)) in
    let (q, log', e) = after_fork-parent m.env p forked (m.env.fork s.log) live in
    ((q, log', e), rw (new, start_new) (with_cmd-full m p q s log' valid full e))
