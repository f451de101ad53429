-- ===== src/Samples/Arguments.antt =====
-- Arguments of the command line, on the client of the samples.
use kb_pm.Prelude.{ℕ, Bool, true, false, ap, ◌≡◌, ◌⊎◌, some, [], ◌∷◌, List}
use kb_pm.CString.{Str, text, eq_str}
use kb_pm.StatusTable.{field}
use kb_pm.CommandLine.{main, arguments_error, too_many_arguments}
use kb_pm.CommandLine.Commands.{
  help, show_version, start_everything, stop_everything, list_programs, begin_service,
  clean_service, start_app, restart_app, stop_app, remove_app, IsUnknown, IsRejected,
  main-IsRejected,
}
use kb_pm.Samples.Machines.{boot_machine}
use kb_pm.Samples.Rounds.{config}
use kb_pm.Samples.Terminals.{terminal}

-- `kbpm service stop`
abbrev mistaken : List Str
mistaken = text "kbpm" ∷ text "service" ∷ text "stop" ∷ []

abbrev is_word : ℕ → Str → List Str → Bool
is_word i word argv = eq_str (field i argv) word

apart : true ≡ false → ⊥
apart e = cc

mistaken-IsUnknown : IsUnknown terminal boot_machine (some config) [] mistaken
unfolding eq_str
mistaken-IsUnknown self help e = apart (ap (is_word 1 (text "service")) e)
mistaken-IsUnknown self show_version e = apart (ap (is_word 1 (text "service")) e)
mistaken-IsUnknown self start_everything e = apart (ap (is_word 1 (text "service")) e)
mistaken-IsUnknown self stop_everything e = apart (ap (is_word 1 (text "service")) e)
mistaken-IsUnknown self list_programs e = apart (ap (is_word 1 (text "service")) e)
mistaken-IsUnknown self begin_service e = apart (ap (is_word 2 (text "stop")) e)
mistaken-IsUnknown self clean_service e = apart (ap (is_word 2 (text "stop")) e)
mistaken-IsUnknown self (start_app app) e = apart (ap (is_word 1 (text "service")) e)
mistaken-IsUnknown self (restart_app app) e = apart (ap (is_word 1 (text "service")) e)
mistaken-IsUnknown self (stop_app app) e = apart (ap (is_word 1 (text "service")) e)
mistaken-IsUnknown self (remove_app app) e = apart (ap (is_word 1 (text "service")) e)

main-IsRejected_example :
    IsRejected terminal boot_machine
      (some config)
      []
      arguments_error
      7
      (main terminal boot_machine (some config) [] mistaken 7)
    ⊎ IsRejected terminal boot_machine
        (some config)
        []
        too_many_arguments
        7
        (main terminal boot_machine (some config) [] mistaken 7)
main-IsRejected_example =
    main-IsRejected terminal boot_machine (some config) [] mistaken 7 mistaken-IsUnknown
