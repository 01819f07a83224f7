-- ===== src/Oak/Main.antt =====
-- main of cmd/oak/main.go.
use oakberryio.Prelude.{
  ℕ, ◌||◌, Option, none, some, List, Text, t, ◌==◌, nat_eq, text_eq, if◌then◌else◌,
}
use oakberryio.Prelude.Results.{Result, ok, err, bad_flag, help_shown}
use oakberryio.Oak.Shell.{Shell, Ran}
use oakberryio.Oak.Deploys.{run_deploy}
use oakberryio.Oak.Sessions.{run_ssh}
use oakberryio.Oak.Commands.{
  run_apps, run_status, run_logs, run_secrets, run_volumes, run_restart, run_scale, run_destroy,
}

module _ (sh : Shell) where
  -- main: what the command that is named does; nothing where the usage is shown.
  unfoldable pub dispatch : Text → List Text → Option Ran
  dispatch name args =
      if name == t "deploy"
      then some (run_deploy sh args)
      else if name == t "apps"
      then some (run_apps sh args)
      else if name == t "status"
      then some (run_status sh args)
      else if name == t "logs"
      then some (run_logs sh args)
      else if name == t "secrets"
      then some (run_secrets sh args)
      else if name == t "volumes"
      then some (run_volumes sh args)
      else if name == t "restart"
      then some (run_restart sh args)
      else if name == t "scale"
      then some (run_scale sh args)
      else if name == t "destroy" || name == t "rm"
      then some (run_destroy sh args)
      else if name == t "ssh"
      then some (run_ssh sh args)
      else none

-- The exit status: package flag ends the process with 2, or with 0 after its help.
unfoldable pub exit_code : Result (Unit {0}) → ℕ
exit_code (ok done) = 0
exit_code (err bad_flag) = 2
exit_code (err help_shown) = 0
exit_code (err e) = 1
