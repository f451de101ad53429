-- ===== src/CommandLine.antt =====
-- src/kbpm.c: the arguments of the command line tool.
pub mod Commands
use kb_pm.Prelude.{
  ℕ, true, Option, List, [], ◌∷◌, ◌++◌, if◌then◌else◌, ℤ, is_nonzero, Outcome, done, ◌>>=◌,
}
use kb_pm.CString.{Str, text, eq_str}
use kb_pm.System.{Log}
use kb_pm.Machine.{Machine}
use kb_pm.Server.{Server}
use kb_pm.Server.Control.{exit_success, exit_failure}
use kb_pm.Server.Daemon.{service_clean}
use kb_pm.Server.Service.{service_start}
use kb_pm.Client.{
  Terminal, Output, said, complained, Exit, app_label, ping_server, show_status, start_all,
  stop_all, start_process, restart_process, stop_process, remove_process, Run,
}

-- How a call of the tool ends: it exits, or it has become the service, which goes on.
pub data Ending (S : Type 0) : Type 0 where
  ends : Exit S → Ending S
  serves : List Output → S → Server → Ending S

abbrev pub line : Str → Str
line s = s ++ 0x0a ∷ []

-- ANSI_FONT_ITALIC and ANSI_COLOR_RESET around a line
abbrev pub in_italics : Str → Str
in_italics s = 0x1b ∷ text "[3m" ++ line s ++ 0x1b ∷ text "[0m"

abbrev pub app_version : Str
app_version = text "v0.1.0"

abbrev pub usage : Str
usage =
    app_label
    ++ line (
        text ": a CLI tool (like supervisor and pm2) keep a group of program running continuously.")
    ++ line (text "   Usage  :  kbpm [cmd] app")
    ++ line (text "       service  start                start the KB_PM service")
    ++ line
        (text "       service  clean                resolve the KB_PM service unexpectedly exit.")
    ++ line (text "       start    <file|app_name|id>   start the program and run forever")
    ++ line (text "       restart  <app_name|id>        restart the program")
    ++ line (text "       stop     <app_name|id>        stop the program")
    ++ line (text "       remove   <app_name|id>        remove the program form list")
    ++ line (text "       startall                      start all program(s)")
    ++ line (text "       stopall                       stop all the program(s)")
    ++ line (text "       version                       show KB_PM version")

abbrev pub print_usage : Output
print_usage = said usage

abbrev pub starting_server : Output
starting_server = said (
    app_label
    ++ line (text ": Starting the server.")
    ++ in_italics (text " Use `kbpm start <file>` to make an app run forever"))

abbrev pub already_started : Output
already_started = said (
    app_label
    ++ line (text ": Service have been already started.")
    ++ in_italics (text " Use `kbpm status` to get the status of program(s)"))

abbrev pub arguments_error : Output
arguments_error = complained (app_label ++ line (text ": Arguments error, see usage."))

abbrev pub too_many_arguments : Output
too_many_arguments = complained (app_label ++ line (text ": Too many arguments, see usage."))

-- The other end of the socket is `t`; a service that is started runs on `m`, where its file holds
-- `config` and `log` has happened before.
module _ (t : Terminal) (m : Machine) (config : Option Str) (log : Log) where
  open t use {Peer}

  abbrev pub Call : Type 0
  Call = Outcome Log (Ending Peer)

  abbrev pub exit_with : ℕ → Output → Peer → Call
  exit_with status words peer =
      done (ends (record { status = status; output = words ∷ []; peer = peer }))

  -- The functions of the client exit.
  abbrev pub ask : Run t → Call
  ask run = run >>= λ e. done (ends e)

  -- `kbpm service start`
  unfoldable pub start_service : Peer → Call
  start_service peer =
      let (res, peer1) = ping_server t peer in
      if is_nonzero res
      then service_start m config log >>= (λ s. done (serves (starting_server ∷ []) peer1 s))
      else exit_with exit_success already_started peer1

  -- `argc == 2`
  unfoldable pub main_command : Str → Peer → Call
  main_command cmd peer =
      if eq_str cmd (text "startall")
      then ask (start_all t peer)
      else if eq_str cmd (text "stopall")
      then ask (stop_all t peer)
      else if eq_str cmd (text "status")
      then ask (show_status t peer)
      else if eq_str cmd (text "version")
      then exit_with exit_success (said (app_label ++ text ": " ++ line app_version)) peer
      else exit_with exit_failure arguments_error peer

  -- `argc == 3`, when the service is not meant
  unfoldable pub main_app_command : Str → Str → Peer → Call
  main_app_command cmd app peer =
      if eq_str cmd (text "start")
      then ask (start_process t app peer)
      else if eq_str cmd (text "restart")
      then ask (restart_process t app peer)
      else if eq_str cmd (text "stop")
      then ask (stop_process t app peer)
      else if eq_str cmd (text "remove")
      then ask (remove_process t app peer)
      else exit_with exit_failure arguments_error peer

  -- `argc == 3`: an unknown word behind `service` is looked at once more.
  unfoldable pub main_two : Str → Str → Peer → Call
  main_two cmd app peer =
      if eq_str cmd (text "service")
      then (if eq_str app (text "start")
          then start_service peer
          else if eq_str app (text "clean")
          then service_clean log
          else main_app_command cmd app peer)
      else main_app_command cmd app peer

  -- On `argv`, the name of the tool included.
  unfoldable pub main : List Str → Peer → Call
  main [] peer = exit_with exit_failure too_many_arguments peer
  main (self ∷ []) peer = exit_with exit_success print_usage peer
  main (self ∷ cmd ∷ []) peer = main_command cmd peer
  main (self ∷ cmd ∷ app ∷ []) peer = main_two cmd app peer
  main (self ∷ cmd ∷ app ∷ more ∷ args) peer = exit_with exit_failure too_many_arguments peer
