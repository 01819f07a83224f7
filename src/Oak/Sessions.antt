-- ===== src/Oak/Sessions.antt =====
-- oak ssh: runSSH of cmd/oak/main.go.
use oakberryio.Prelude.{
  ℕ, Option, none, some, List, [], ◌∷◌, ◌++◌, Text, t, ◌==◌, nat_eq, text_eq, if◌then◌else◌, ◌%◌,
}
use oakberryio.Prelude.Results.{Result, ok, from_option, terminal_failed, request_failed, ◌>>=◌}
use oakberryio.Cli.Lines.{newline}
use oakberryio.Cli.Transport.{Transport, new_transport}
use oakberryio.Cli.Ssh.{ssh_request, open_stream}
use oakberryio.Oak.Shell.{Shell, Ran, fails, on_ok, single}

module _ (sh : Shell) where
  -- What stands before the first "--", and what stands behind it
  unfoldable pub split_command : List Text → List Text × List Text
  split_command [] = ([], [])
  split_command (a ∷ args) =
      let rest = split_command args in if a == t "--" then ([], args) else (a ∷ rest.0, rest.1)

  -- Client.SSH: the bytes that are left to read on the connection
  unfoldable pub ssh : Transport → Text → Result Text
  ssh tr app =
      from_option request_failed
        (sh.exchange (ssh_request sh.here (sh.host_of tr.base_url) tr.token app))
      >>= open_stream

  -- rows and columns, as uint16
  unfoldable pub size_of : Option (Option (ℕ × ℕ)) → ℕ × ℕ
  size_of none = (24, 80)
  size_of (some none) = (24, 80)
  size_of (some (some (rows, cols))) = (rows % 65536, cols % 65536)

  unfoldable pub session : List Text → Text → Ran
  session command output =
      let (rows, cols) = size_of sh.terminal in
      record {
        started = [];
        printed = output ∷ [];
        sent = sh.write_header command rows cols ++ newline ∷ [];
        outcome = ok tt;
      }

  unfoldable pub run_ssh : List Text → Ran
  run_ssh args =
      let (app_args, command) = split_command args in
      on_ok (single app_args) λ app. on_ok (new_transport sh.here) λ tr.
        on_ok (ssh tr app) λ output. elim sh.terminal as (λ x. Ran) [
          | none ↦ session command output
          | some size ↦ if sh.sets_raw then session command output else fails terminal_failed
        ]
