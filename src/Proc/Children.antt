-- ===== src/Proc/Children.antt =====
-- What `get_child_pids` of src/proc_status.c finds, on a system whose processes are known.
use kb_pm.Prelude.{
  ℕ, suc, ◌+◌, ◌≡◌, ◌≤◌, ◌<◌, ◌∙◌, refl, ap, sym, subst, true, false, ◌&&◌, not, some, List, [],
  ◌∷◌, ◌++◌, append_assoc, append-nil, map, map-append, arith, length, length-append, ltb, All, ℤ,
  pos, done, ◌>>=◌, Bool-cases, inl, inr, if◌then◌else◌, ◌==◌,
}
use kb_pm.CString.{
  Str, text, eq_str, eq_str_refl, eq_of_eq_str, is_digit, starts_with, show_nat, show_int,
  value_from,
}
use kb_pm.CString.Decimal.{atoi-show_nat, value_from-show_nat}
use kb_pm.Utils.{is_number}
use kb_pm.Utils.Digits.{is_number-show_nat}
use kb_pm.System.{Log, Event, record_event, Entry, Env}
use kb_pm.Proc.Lines.{IsLine, ended, joined, parent_line, find_tag-parent}
use kb_pm.Proc.{
  err_result, parse_proc_status_val_by_tag, in_pid_range, push_pid, add_if_child, visit_entry,
  visit_entries, get_child_pids, child_process_len,
}

-- A process: its number, and that of its parent.
pub record Task : Type 0 where
  pub pid : ℕ
  pub ppid : ℕ

-- Its directory under /proc
abbrev pub entry_of : Task → Entry
entry_of t = record { d_name = show_nat t.pid; is_dir = true }

abbrev pub own_child : ℕ → Task → List ℕ
own_child parent t = if t.ppid == parent then t.pid ∷ [] else []

-- The processes of which this one is the parent.
abbrev pub children : List Task → ℕ → List ℕ
children [] parent = []
children (t ∷ tasks) parent = own_child parent t ++ children tasks parent

-- The numbers that Linux gives to processes unless its limit is raised.
abbrev pub IsPid : Task → Type 0
IsPid t = (0 < t.pid) × (t.pid ≤ 32767)

-- An entry of /proc that is no process has a name that does not begin with a digit.
abbrev pub IsOther : Entry → Type 0
IsOther entry = (c : ℕ) × (name : Str) × (entry.d_name ≡ c ∷ name) × (is_digit c ≡ false)

-- The status file of a process: lines that are not too long for the buffer, of which the first that
-- begins with the tag names the parent.
pub record IsTold (env : Env) (log : Log) (t : Task) : Type 0 where
  pub before : List Str
  pub after : List Str
  pub opens : env.status log (pos t.pid) ≡ some (joined (before ++ parent_line t.ppid ∷ after))
  pub other : All (λ l. starts_with (ended l) (text "PPid") ≡ false) before
  pub lines : All IsLine (before ++ parent_line t.ppid ∷ after)

-- What the scan of /proc does.
pub data IsLook : Event → Type 0 where
  lists : IsLook Event.listed_proc
  enters : {dir : Str} → IsLook (Event.changed_dir dir)
  reads : {pid : ℤ} → IsLook (Event.read_status pid)

-- A system that has the processes `tasks` after each history, of which /proc tells, behind entries of
-- another kind, and no more than an array of children can hold. Scanning /proc changes none; signals
-- and forks may change them in any way, but the trees of processes grow no higher by signals.
pub record IsSystem (env : Env) (tasks : Log → List Task) (height : Log → ℕ → ℕ) : Type 0 where
  pub others : Log → List Entry
  pub listed : (log : Log) → env.proc_dir log ≡ some (others log ++ map entry_of (tasks log))
  pub no_process : (log : Log) → All IsOther (others log)
  pub pids : (log : Log) → All IsPid (tasks log)
  pub told : (log : Log) → All (IsTold env log) (tasks log)
  pub small : (log : Log) → length (tasks log) ≤ child_process_len
  pub kept : (log : Log) (e : Event) → IsLook e → tasks (record_event log e) ≡ tasks log
  pub higher : (log : Log) (p : ℕ) → All (λ c. height log c < height log p) (children (tasks log) p)
  pub looked_at :
      (log : Log) (e : Event) → IsLook e → (p : ℕ) → height (record_event log e) p ≤ height log p
  pub signalled :
      (log : Log) (pid : ℤ) (p : ℕ) → height (record_event log (Event.killed pid)) p ≤ height log p

-- The history `seen` is `log`, and then nothing but scanning /proc.
pub data Looked (log : Log) : Log → Type 0 where
  started : Looked log log
  then_looked :
      {seen : Log} (e : Event) → IsLook e → Looked log seen → Looked log (record_event seen e)

pub Looked-trans : (log seen last : Log) → Looked log seen → Looked seen last → Looked log last
Looked-trans log seen last h Looked.started = h
Looked-trans log seen last h (Looked.then_looked e look k) =
    Looked.then_looked e look (Looked-trans log seen _ h k)

show_nat-inj : (n k : ℕ) → show_nat n ≡ show_nat k → n ≡ k
show_nat-inj n k e = sym (value_from-show_nat n) ∙ ap (value_from 0) e ∙ value_from-show_nat k

show_nat-eq : (n k : ℕ) → eq_str (show_nat n) (show_nat k) ≡ (k == n)
show_nat-eq n k = elim (Bool-cases (eq_str (show_nat n) (show_nat k))) [
  | inl same ↦
      let e = show_nat-inj n k (eq_of_eq_str (show_nat n) (show_nat k) same) in
      ground (arith, e, same)
  | inr other ↦ elim (Bool-cases (k == n)) [
    | inr differ ↦ other ∙ sym differ
    | inl e ↦
        let equal : k ≡ n = ground arith in
        let same : eq_str (show_nat n) (show_nat k) ≡ true =
          subst (λ j. eq_str (show_nat n) (show_nat j) ≡ true) (sym equal)
            (eq_str_refl (show_nat n)) in
        same ∙ sym e
  ]
]

show_nat-no_error : (n : ℕ) → eq_str (show_nat n) err_result ≡ false
unfolding is_number
show_nat-no_error n = elim (Bool-cases (eq_str (show_nat n) err_result)) [
  | inr other ↦ other
  | inl same ↦
      let e : is_number (show_nat n) ≡ is_number err_result =
        ap is_number (eq_of_eq_str (show_nat n) err_result same) in
      absurd (ground (arith, is_number-show_nat n, e))
]

module _ (env : Env) where
  -- An entry that is no process is passed over.
  visit_entry-other :
      (parent : ℕ) (entry : Entry) (s : List ℤ × Log)
      → IsOther entry
      → visit_entry env (pos parent) entry s ≡ done s
  unfolding visit_entry is_number
  visit_entry-other parent entry (pids, log) (c, name, named, no_digit) =
      elim (Bool-cases entry.is_dir) [
        | inl dir ↦ rw (named, no_digit, dir)
        | inr file ↦ rw (named, no_digit, file)
      ]

  show_int-pos : (n : ℕ) → show_int (pos n) ≡ show_nat n
  unfolding show_int
  show_int-pos n = refl

  length-map_pos : (pids : List ℕ) → length (map pos pids) ≡ length pids
  length-map_pos [] = refl
  length-map_pos (p ∷ pids) = ap suc (length-map_pos pids)

  status_read :
      (t : Task) (log : Log)
      → IsTold env log t
      → parse_proc_status_val_by_tag env log (pos t.pid) (text "PPid")
        ≡ done (show_nat t.ppid, record_event log (Event.read_status (pos t.pid)))
  unfolding parse_proc_status_val_by_tag
  status_read t log tells =
      let found = find_tag-parent t.ppid tells.before tells.after tells.other tells.lines in
      rw (tells.opens, parse_proc_status_val_by_tag)
        (ap (λ o. o >>= λ s. done (s, record_event log (Event.read_status (pos t.pid)))) found)

  compared :
      (parent : ℕ) (t : Task)
      → (not (eq_str (show_nat t.ppid) err_result)
          && eq_str (show_int (pos parent)) (show_nat t.ppid))
        ≡ (t.ppid == parent)
  compared parent t =
      let no_error = show_nat-no_error t.ppid in
      rw (no_error, show_int-pos parent) (show_nat-eq parent t.ppid)

  -- A status that names a parent adds the process if that is the parent asked for.
  add_if_child_lem :
      (parent : ℕ) (t : Task) (pids : List ℕ)
      → length pids + 1 ≤ child_process_len
      → add_if_child (pos parent) (pos t.pid) (map pos pids) (show_nat t.ppid)
        ≡ done (map pos (pids ++ own_child parent t))
  unfolding add_if_child push_pid
  add_if_child_lem parent t pids room =
      let fits : ltb (length (map pos pids)) child_process_len ≡ true =
        ground (arith, length-map_pos pids, room) in
      elim (Bool-cases (t.ppid == parent)) [
        | inl child ↦
            rw (compared parent t, child, fits, add_if_child)
              (ap done (sym (map-append pos pids (t.pid ∷ []))))
        | inr stranger ↦
            rw (compared parent t, stranger, add_if_child)
              (ap (λ l. done (map pos l)) (sym (append-nil pids)))
      ]

  is_task : (t : Task) → IsPid t → (is_number (show_nat t.pid) && in_pid_range (pos t.pid)) ≡ true
  is_task t is = rw (is_number-show_nat t.pid) (ground (arith, is))

  -- The entry of a process adds its number if it is a child.
  visit_entry-task :
      (parent : ℕ) (t : Task) (pids : List ℕ) (log : Log)
      → IsPid t
      → IsTold env log t
      → length pids + 1 ≤ child_process_len
      → visit_entry env (pos parent) (entry_of t) (map pos pids, log)
        ≡ done
            (map pos (pids ++ own_child parent t), record_event log (Event.read_status (pos t.pid)))
  unfolding visit_entry
  visit_entry-task parent t pids log is tells room =
      let number = atoi-show_nat t.pid (omega (arith, is)) in
      let is' = is_task t is in
      let status = status_read t log tells in
      let adds = add_if_child_lem parent t pids room in
      rw (visit_entry, number) (rw is' (rw status (rw adds)))

  visit_entries-others :
      (parent : ℕ) (others rest : List Entry) (s : List ℤ × Log)
      → All IsOther others
      → visit_entries env (pos parent) (others ++ rest) s ≡ visit_entries env (pos parent) rest s
  unfolding visit_entries
  visit_entries-others parent [] rest s are = refl
  visit_entries-others parent (entry ∷ others) rest s are =
      ap (λ o. o >>= visit_entries env (pos parent) (others ++ rest))
        (visit_entry-other parent entry s are.0)
      ∙ visit_entries-others parent others rest s are.1

module _ (env : Env) (tasks : Log → List Task) (height : Log → ℕ → ℕ)
    (system : IsSystem env tasks height) where
  Looked-tasks : (log seen : Log) → Looked log seen → tasks seen ≡ tasks log
  Looked-tasks log seen Looked.started = refl
  Looked-tasks log seen (Looked.then_looked {seen = seen'} e look h) =
      system.kept seen' e look ∙ Looked-tasks log seen' h

  pub Looked-height : (log seen : Log) → Looked log seen → (p : ℕ) → height seen p ≤ height log p
  Looked-height log seen Looked.started p = omega arith
  Looked-height log seen (Looked.then_looked {seen = seen'} e look h) p =
      omega (arith, system.looked_at seen' e look p, Looked-height log seen' h p)

  length-own_child : (parent : ℕ) (t : Task) → length (own_child parent t) ≤ 1
  length-own_child parent t = ground arith

  -- What the loop over the processes adds to the array, while scanning changes none.
  visit_entries-tasks :
      (parent : ℕ) (here ts : List Task) (pids : List ℕ) (log : Log)
      → All IsPid ts
      → ((log' : Log) → tasks log' ≡ here → All (IsTold env log') ts)
      → tasks log ≡ here
      → length pids + length ts ≤ child_process_len
      → (seen : Log) × (visit_entries env (pos parent) (map entry_of ts) (map pos pids, log)
          ≡ done (map pos (pids ++ children ts parent), seen))
        × Looked log seen
  unfolding visit_entries
  visit_entries-tasks parent here [] pids log are tell now room =
      (log, ap (λ l. done (map pos l, log)) (sym (append-nil pids)), Looked.started)
  visit_entries-tasks parent here (t ∷ ts) pids log are tell now room =
      let own = own_child parent t in
      let e = Event.read_status (pos t.pid) in
      let e1 =
        visit_entry-task env parent t pids log are.0 (tell log now).0 (omega (arith, room)) in
      let (seen, e2, look) =
        visit_entries-tasks parent here ts (pids ++ own) (record_event log e) are.1
          (λ log' same. (tell log' same).1) (system.kept log e IsLook.reads ∙ now)
          (omega (arith, room, length-append pids own, length-own_child parent t)) in
      (
        seen,
        ap (λ o. o >>= visit_entries env (pos parent) (map entry_of ts)) e1
            ∙ e2
            ∙ ap (λ l. done (map pos l, seen)) (append_assoc pids own (children ts parent)),
        Looked-trans log (record_event log e) seen
            (Looked.then_looked e IsLook.reads Looked.started) look,
      )

  -- The array holds the processes of which `parent` is the parent, in the order of /proc.
  pub get_child_pids_lem :
      (parent : ℕ) (log : Log)
      → (seen : Log) × (get_child_pids env (pos parent) log
          ≡ done (some (map pos (children (tasks log) parent)), seen))
        × Looked log seen
  unfolding get_child_pids
  get_child_pids_lem parent log =
      let log1 = record_event log Event.listed_proc in
      let log2 = record_event log1 (Event.changed_dir (text "/proc/")) in
      let now : tasks log2 ≡ tasks log =
        system.kept log1 (Event.changed_dir (text "/proc/")) IsLook.enters
        ∙ system.kept log Event.listed_proc IsLook.lists in
      let (seen, e, look) =
        visit_entries-tasks parent (tasks log) (tasks log) [] log2 (system.pids log)
          (λ log' same. subst (All (IsTold env log')) same (system.told log')) now
          (omega (arith, system.small log)) in
      let scan =
        visit_entries-others env parent (system.others log) (map entry_of (tasks log)) ([], log2)
          (system.no_process log) in
      (
        seen,
        rw (system.listed log, get_child_pids)
            (ap (λ o. o >>= λ (pids, log''). done (some pids, log'')) (scan ∙ e)),
        Looked-trans log log2 seen
            (Looked.then_looked (Event.changed_dir (text "/proc/")) IsLook.enters
              (Looked.then_looked Event.listed_proc IsLook.lists Looked.started))
            look,
      )
