-- ===== src/Server/Daemon/SetUp.antt =====
-- What the set-up of the service comes to.
use kb_pm.Prelude.{
  ℕ, zero, suc, ◌≡◌, ◌⊎◌, inl, inr, refl, sym, ap, ◌∙◌, [], ◌∷◌, ◌++◌, append_assoc, arith, ℤ, pos,
  negsuc, Outcome, done, exited, ◌>>=◌,
}
use kb_pm.CString.{Str, text}
use kb_pm.System.{Log, Event, record_event, Env}
use kb_pm.Server.Control.{exit_success, exit_failure}
use kb_pm.Server.Daemon.{ignore_signals, leave_parent, fork_and_leave, check_session, init_daemon}

-- The events of a daemon that was left behind by its starter and by the leader of its session: the
-- terminal's signals are ignored from the first, and it goes to /tmp at last.
abbrev pub daemon_events : ℕ → Log
daemon_events session =
    Event.ignored_signals
    ∷ Event.forked (pos 0)
    ∷ Event.made_session (pos session)
    ∷ Event.forked (pos 0)
    ∷ Event.changed_dir (text "/tmp")
    ∷ []

-- The last call was a `fork` that answered a child's number: this is the parent.
abbrev pub IsParent : Log → Type 0
IsParent w = (before : Log) × (child : ℕ) × (w ≡ before ++ Event.forked (pos (suc child)) ∷ [])

-- The last call was a `fork` or a `setsid` that failed, which is said.
abbrev pub HasFailed : Log → Type 0
HasFailed w =
    (before : Log) × (n : ℕ) × (message : Str) × ((w
        ≡ before ++ (Event.forked (negsuc n) ∷ Event.complained message ∷ []))
      ⊎ (w ≡ before ++ (Event.made_session (negsuc n) ∷ Event.complained message ∷ [])))

-- The call goes on with `log'`, or it is a parent that exits, or it has failed.
abbrev pub Ends : (Log → Type 0) → Outcome Log Log → Type 0
Ends P call =
    ((log' : Log) × (call ≡ done log') × P log')
    ⊎ ((w : Log) × (call ≡ exited exit_success w) × IsParent w)
    ⊎ ((w : Log) × (call ≡ exited exit_failure w) × HasFailed w)

bind-Ends :
    (P Q : Log → Type 0) (call : Outcome Log Log) (next : Log → Outcome Log Log)
    → Ends P call
    → ((log : Log) → P log → Ends Q (next log))
    → Ends Q (call >>= next)
bind-Ends P Q call next (inl (log, e, p)) h = rw e (h log p)
bind-Ends P Q call next (inr (inl (w, e, p))) h = inr (inl (w, (rw e), p))
bind-Ends P Q call next (inr (inr (w, e, p))) h = inr (inr (w, (rw e), p))

leave_parent-Ends :
    (log : Log) (answer : ℤ)
    → Ends
        (λ log'. log' ≡ record_event log (Event.forked (pos 0)))
        (leave_parent (record_event log (Event.forked answer)) answer)
unfolding leave_parent
leave_parent-Ends log (negsuc n) =
    inr (inr (_, refl, (log, n, _, inl (append_assoc log (Event.forked (negsuc n) ∷ []) _))))
leave_parent-Ends log (pos zero) = inl (_, refl, refl)
leave_parent-Ends log (pos (suc n)) = inr (inl (_, refl, (log, n, refl)))

fork_and_leave-Ends :
    (env : Env) (log : Log)
    → Ends (λ log'. log' ≡ record_event log (Event.forked (pos 0))) (fork_and_leave env log)
unfolding fork_and_leave
fork_and_leave-Ends env log = leave_parent-Ends log (env.fork log)

check_session-Ends :
    (log : Log) (answer : ℤ)
    → Ends
        (λ log'. (n : ℕ) × (log' ≡ record_event log (Event.made_session (pos n))))
        (check_session (record_event log (Event.made_session answer)) answer)
unfolding check_session
check_session-Ends log (negsuc n) =
    inr (inr (_, refl, (log, n, _, inr (append_assoc log (Event.made_session (negsuc n) ∷ []) _))))
check_session-Ends log (pos n) = inl (_, refl, (n, refl))

-- Five events, one after the other.
append_five :
    (log : Log) (a b c d e : Event)
    → record_event (record_event (record_event (record_event (record_event log a) b) c) d) e
      ≡ log ++ (a ∷ b ∷ c ∷ d ∷ e ∷ [])
append_five [] a b c d e = refl
append_five (x ∷ log) a b c d e = ap (◌∷◌ x) (append_five log a b c d e)

-- Becoming a daemon has three ends. It returns, in a process that both starters have left behind and
-- that has a session of its own, with the terminal's signals ignored and in /tmp; it exits with
-- success, in a parent; or it exits with a failure, after a `fork` or a `setsid` that failed, and
-- says so.
pub init_daemon-Ends :
    (env : Env) (log : Log)
    → Ends (λ log'. (session : ℕ) × (log' ≡ log ++ daemon_events session)) (init_daemon env log)
unfolding init_daemon ignore_signals
init_daemon-Ends env log =
    bind-Ends _ _ _ _ (fork_and_leave-Ends env (record_event log Event.ignored_signals)) (λ log1 e1.
      bind-Ends _ _ _ _ (check_session-Ends log1 (env.setsid log1)) (λ log2 (n, e2).
        bind-Ends _ _ _ _ (fork_and_leave-Ends env log2) (λ log3 e3. inl (
          _,
          refl,
          (
            n,
            (rw e3 (
                rw e2 (
                  rw e1 (
                    append_five log Event.ignored_signals (Event.forked (pos 0))
                      (Event.made_session (pos n)) (Event.forked (pos 0))
                      (Event.changed_dir (text "/tmp")))))),
          ),
        ))))

pub init_daemon-done :
    (env : Env) (log log' : Log)
    → init_daemon env log ≡ done log'
    → (session : ℕ) × (log' ≡ log ++ daemon_events session)
init_daemon-done env log log' h = elim (init_daemon-Ends env log) [
  | inl (log1, e, (session, trace)) ↦
      let same : log1 ≡ log' = ground arith in (session, sym same ∙ trace)
  | inr (inl (w, e, p)) ↦ absurd (cc)
  | inr (inr (w, e, p)) ↦ absurd (cc)
]
