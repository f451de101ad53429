-- ===== src/CommandLine/Commands.antt =====
-- What can be asked of the tool, and what it does with anything else.
use kb_pm.Prelude.{
  ◌≡◌, ◌≢◌, ◌⊎◌, refl, sym, ap, ap₂, ◌∙◌, inl, inr, false, Bool-cases, Option, List, [], ◌∷◌,
}
use kb_pm.CString.{Str, text, eq_str, eq_of_eq_str}
use kb_pm.System.{Log}
use kb_pm.Machine.{Machine}
use kb_pm.Server.Control.{exit_failure}
use kb_pm.Client.{Terminal, Output}
use kb_pm.CommandLine.{
  Call, exit_with, main_command, main_app_command, main_two, main, arguments_error,
  too_many_arguments,
}

pub data Command : Type 0 where
  help show_version start_everything stop_everything list_programs begin_service clean_service :
      Command
  start_app restart_app stop_app remove_app : Str → Command

-- How a command is written.
abbrev pub words : Command → List Str
words help = []
words show_version = text "version" ∷ []
words start_everything = text "startall" ∷ []
words stop_everything = text "stopall" ∷ []
words list_programs = text "status" ∷ []
words begin_service = text "service" ∷ text "start" ∷ []
words clean_service = text "service" ∷ text "clean" ∷ []
words (start_app app) = text "start" ∷ app ∷ []
words (restart_app app) = text "restart" ∷ app ∷ []
words (stop_app app) = text "stop" ∷ app ∷ []
words (remove_app app) = text "remove" ∷ app ∷ []

module _ (t : Terminal) (m : Machine) (config : Option Str) (log : Log) where
  differs : (s word : Str) → s ≢ word → eq_str s word ≡ false
  differs s word ne = elim (Bool-cases (eq_str s word)) [
    | inl e ↦ absurd (ne (eq_of_eq_str s word e))
    | inr e ↦ e
  ]

  -- The arguments are no command.
  abbrev pub IsUnknown : List Str → Type 0
  IsUnknown argv = (self : Str) (c : Command) → argv ≢ self ∷ words c

  -- The tool exits with a failure and one complaint, and asks nobody.
  abbrev pub IsRejected : Output → t.Peer → Call t m config log → Type 0
  IsRejected complaint peer call = call ≡ exit_with t m config log exit_failure complaint peer

  main_command-IsRejected :
      (self cmd : Str) (peer : t.Peer)
      → IsUnknown (self ∷ cmd ∷ [])
      → IsRejected arguments_error peer (main_command t m config log cmd peer)
  unfolding main_command
  main_command-IsRejected self cmd peer unknown =
      let other = λ (c : Command) (word : Str) (e : words c ≡ word ∷ []).
        differs cmd word
          (λ same. unknown self c (ap (λ w. self ∷ w ∷ []) same ∙ ap (◌∷◌ self) (sym e))) in
      rw (other start_everything (text "startall") refl) (
        rw (other stop_everything (text "stopall") refl) (
          rw (other list_programs (text "status") refl)
            (rw (other show_version (text "version") refl))))

  main_app_command-IsRejected :
      (self cmd app : Str) (peer : t.Peer)
      → IsUnknown (self ∷ cmd ∷ app ∷ [])
      → IsRejected arguments_error peer (main_app_command t m config log cmd app peer)
  unfolding main_app_command
  main_app_command-IsRejected self cmd app peer unknown =
      let other = λ (c : Command) (word : Str) (e : words c ≡ word ∷ app ∷ []).
        differs cmd word
          (λ same. unknown self c (ap (λ w. self ∷ w ∷ app ∷ []) same ∙ ap (◌∷◌ self) (sym e))) in
      rw (other (start_app app) (text "start") refl) (
        rw (other (restart_app app) (text "restart") refl) (
          rw (other (stop_app app) (text "stop") refl)
            (rw (other (remove_app app) (text "remove") refl))))

  main_two-IsRejected :
      (self cmd app : Str) (peer : t.Peer)
      → IsUnknown (self ∷ cmd ∷ app ∷ [])
      → IsRejected arguments_error peer (main_two t m config log cmd app peer)
  unfolding main_two
  main_two-IsRejected self cmd app peer unknown = elim (Bool-cases (eq_str cmd (text "service"))) [
    | inr no_service ↦ rw no_service (main_app_command-IsRejected self cmd app peer unknown)
    | inl service ↦
        let same = eq_of_eq_str cmd (text "service") service in
        let other = λ (c : Command) (word : Str) (e : words c ≡ text "service" ∷ word ∷ []).
          differs app word (λ same_app.
            unknown self c
              (ap₂ (λ v w. self ∷ v ∷ w ∷ []) same same_app ∙ ap (◌∷◌ self) (sym e))) in
        rw service (
          rw (other begin_service (text "start") refl) (
            rw (other clean_service (text "clean") refl)
              (main_app_command-IsRejected self cmd app peer unknown)))
  ]

  -- Arguments that are no command are rejected: the tool exits with a failure and complains of them,
  -- or of their number, and the service is not asked, started or cleaned up behind.
  pub main-IsRejected :
      (argv : List Str) (peer : t.Peer)
      → IsUnknown argv
      → IsRejected arguments_error peer (main t m config log argv peer)
        ⊎ IsRejected too_many_arguments peer (main t m config log argv peer)
  unfolding main
  main-IsRejected [] peer unknown = inr refl
  main-IsRejected (self ∷ []) peer unknown = absurd (unknown self help refl)
  main-IsRejected (self ∷ cmd ∷ []) peer unknown =
      inl (main_command-IsRejected self cmd peer unknown)
  main-IsRejected (self ∷ cmd ∷ app ∷ []) peer unknown =
      inl (main_two-IsRejected self cmd app peer unknown)
  main-IsRejected (self ∷ cmd ∷ app ∷ more ∷ args) peer unknown = inr refl
