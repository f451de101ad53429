-- ===== src/Proc/Signals.antt =====
-- Which signals a call sends that returns, and that a listing of children holds none but numbers of
-- processes.
use kb_pm.Prelude.{
  refl, subst, >>=-eq-done, ◌<◌, ◌≡◌, true, false, Bool, inl, inr, Option, none, some, Option-cases,
  List, [], ◌∷◌, ◌++◌, All, All-append, if◌then◌else◌, arith, ltb, length, not, ◌&&◌, ℤ, pos,
  negsuc, pos_part, Outcome, done, undefined, Fault, ◌>>=◌,
}
use kb_pm.CString.{Str, text, atoi, eq_str, show_int}
use kb_pm.Utils.{is_number}
use kb_pm.System.{Log, Event, record_event, Entry, Env}
use kb_pm.Proc.{
  find_tag, fgets_all, err_result, parse_proc_status_val_by_tag, in_pid_range, push_pid,
  child_process_len, add_if_child, visit_entry, visit_entries, get_child_pids,
}

-- The number of one process: 0 and the negative numbers stand for groups, or for all processes.
abbrev pub IsPid : ℤ → Type 0
IsPid pid = 0 < pos_part pid

-- A signal goes to one process.
abbrev pub IsAimed : Event → Type 0
IsAimed (Event.killed pid) = IsPid pid
IsAimed _ = Unit

-- All signals of a log go to single processes.
abbrev pub AllAimed : Log → Type 0
AllAimed log = All IsAimed log

pub AllAimed-record :
    (log : Log) (e : Event) → AllAimed log → IsAimed e → AllAimed (record_event log e)
AllAimed-record log e h he = All-append IsAimed log (e ∷ []) h (he, tt)

-- If the call returns, `Q` holds of what it returns.
abbrev pub Returning : {A : Type 0} → (A → Type 0) → Outcome Log A → Type 0
Returning {A} Q call = (a : A) → call ≡ done a → Q a

pub bind-Returning :
    {A B : Type 0} (Q : A → Type 0) (R : B → Type 0) (call : Outcome Log A)
    (next : A → Outcome Log B)
    → Returning Q call
    → ((a : A) → Q a → Returning R (next a))
    → Returning R (call >>= next)
bind-Returning Q R call next h k b e =
    let (a, e1, e2) = >>=-eq-done call next e in k a (h a e1) b e2

pub done-Returning : {A : Type 0} (Q : A → Type 0) (a : A) → Q a → Returning Q (done a)
done-Returning Q a h b e = let same : a ≡ b = ground arith in subst Q same h

pub undefined-Returning : {A : Type 0} (Q : A → Type 0) (f : Fault) → Returning Q (undefined f)
undefined-Returning Q f a e = absurd (cc)

pub if-Returning :
    {A : Type 0} (Q : A → Type 0) (b : Bool) (call other : Outcome Log A)
    → (b ≡ true → Returning Q call)
    → (b ≡ false → Returning Q other)
    → Returning Q (if b then call else other)
if-Returning Q true call other h k = h refl
if-Returning Q false call other h k = k refl

-- What such a call leaves: the numbers of processes that it has found, and a log.
abbrev pub FoundAimed : List ℤ × Log → Type 0
FoundAimed s = All IsPid s.0 × AllAimed s.1

pub parse_proc_status_val_by_tag-AllAimed :
    (env : Env) (log : Log) (pid : ℤ) (tag : Str)
    → AllAimed log
    → Returning (λ a. AllAimed a.1) (parse_proc_status_val_by_tag env log pid tag)
unfolding parse_proc_status_val_by_tag
parse_proc_status_val_by_tag-AllAimed env log pid tag h a e =
    elim (Option-cases (env.status log pid)) [
      | inl gone ↦ absurd (ground arith)
      | inr (file, found) ↦
          bind-Returning (λ s. Unit) (λ a. AllAimed a.1) (find_tag tag (fgets_all file)) _
            (λ s e1. tt)
            (λ s u.
              done-Returning (λ a. AllAimed a.1) _
                (AllAimed-record log (Event.read_status pid) h tt))
            a (rw (parse_proc_status_val_by_tag, found) at e)
    ]

push_pid-IsPid :
    (pid : ℤ) (pids : List ℤ)
    → IsPid pid
    → All IsPid pids
    → Returning (All IsPid) (push_pid pids pid)
unfolding push_pid
push_pid-IsPid pid pids h hs =
    if-Returning (All IsPid) (ltb (length pids) child_process_len) (done (pids ++ pid ∷ [])) _
      (λ room. done-Returning (All IsPid) _ (All-append IsPid pids (pid ∷ []) hs (h, tt)))
      (λ full. undefined-Returning (All IsPid) Fault.out_of_bounds)

add_if_child-IsPid :
    (parent pid : ℤ) (pids : List ℤ) (buf : Str)
    → IsPid pid
    → All IsPid pids
    → Returning (All IsPid) (add_if_child parent pid pids buf)
unfolding add_if_child
add_if_child-IsPid parent pid pids buf h hs =
    if-Returning (All IsPid) (not (eq_str buf err_result) && eq_str (show_int parent) buf)
      (push_pid pids pid) (done pids) (λ child. push_pid-IsPid pid pids h hs)
      (λ other. done-Returning (All IsPid) pids hs)

in_pid_range-IsPid : (pid : ℤ) → in_pid_range pid ≡ true → IsPid pid
in_pid_range-IsPid (pos n) h = ground arith
in_pid_range-IsPid (negsuc n) h = absurd (cc)

visit_entry-FoundAimed :
    (env : Env) (parent : ℤ) (entry : Entry) (s : List ℤ × Log)
    → FoundAimed s
    → Returning FoundAimed (visit_entry env parent entry s)
unfolding visit_entry
visit_entry-FoundAimed env parent entry (pids, log) (hp, hl) =
    let pid = atoi entry.d_name in
    let next : Str → Log → Outcome Log (List ℤ × Log) =
      λ buf log'. add_if_child parent pid pids buf >>= λ pids'. done (pids', log') in
    if-Returning FoundAimed (entry.is_dir && is_number entry.d_name && in_pid_range pid)
      (parse_proc_status_val_by_tag env log pid (text "PPid") >>= λ a. next a.0 a.1)
      (done (pids, log))
      (λ listed.
        bind-Returning (λ a. AllAimed a.1) FoundAimed _ (λ a. next a.0 a.1)
          (parse_proc_status_val_by_tag-AllAimed env log pid (text "PPid") hl)
          (λ a ha.
            bind-Returning (All IsPid) FoundAimed (add_if_child parent pid pids a.0)
              (λ p. done (p, a.1))
              (add_if_child-IsPid parent pid pids a.0 (in_pid_range-IsPid pid (ground arith)) hp)
              (λ found hf. done-Returning FoundAimed (found, a.1) (hf, ha))))
      (λ skipped. done-Returning FoundAimed (pids, log) (hp, hl))

visit_entries-FoundAimed :
    (env : Env) (parent : ℤ) (entries : List Entry) (s : List ℤ × Log)
    → FoundAimed s
    → Returning FoundAimed (visit_entries env parent entries s)
unfolding visit_entries
visit_entries-FoundAimed env parent [] s h = done-Returning FoundAimed s h
visit_entries-FoundAimed env parent (entry ∷ entries) s h =
    bind-Returning FoundAimed FoundAimed _ _ (visit_entry-FoundAimed env parent entry s h)
      (λ s' h'. visit_entries-FoundAimed env parent entries s' h')

-- What a search for children has found.
abbrev pub ListedAimed : Option (List ℤ) × Log → Type 0
ListedAimed (none, log) = AllAimed log
ListedAimed (some pids, log) = FoundAimed (pids, log)

pub get_child_pids-ListedAimed :
    (env : Env) (parent : ℤ) (log : Log)
    → AllAimed log
    → Returning ListedAimed (get_child_pids env parent log)
unfolding get_child_pids
get_child_pids-ListedAimed env parent log h a e =
    let listed = AllAimed-record log Event.listed_proc h tt in
    elim (Option-cases (env.proc_dir log)) [
      | inl shut ↦
          done-Returning ListedAimed (none, record_event log Event.listed_proc) listed a
            (rw (get_child_pids, shut) at e)
      | inr (entries, opens) ↦
          bind-Returning FoundAimed ListedAimed (visit_entries env parent entries _) _
            (visit_entries-FoundAimed env parent entries
              (
                [],
                record_event (record_event log Event.listed_proc)
                    (Event.changed_dir (text "/proc/")),
              )
              (tt, AllAimed-record _ (Event.changed_dir (text "/proc/")) listed tt))
            (λ s hs. done-Returning ListedAimed (some s.0, s.1) hs) a
            (rw (get_child_pids, opens) at e)
    ]
