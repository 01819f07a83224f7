-- ===== src/Init/Handover.antt =====
-- The status of a guest's child on its way from cmd/oak-init to lastChildExitStatus of
-- internal/daemon/deploy.go.
use oakberryio.Prelude.{
  ◌≡◌, ◌∙◌, ap, sym, subst, ℕ, ◌≤◌, Option, some, List, [], ◌∷◌, ◌++◌, All, Text,
}
use mathlib.Core.List.{Mem, mem-cons_self, mem-cons_of_mem, append_assoc}
use oakberryio.Prelude.Int.{pos}
use oakberryio.Prelude.Results.{ok}
use oakberryio.Text.Decimal.{itoa}
use oakberryio.Deploy.ReleaseCommand.{marker, max_int, last_child_exit_status}
use oakberryio.Deploy.ReleaseCommand.Marker.{last_child_exit_status-printed}
use oakberryio.Cli.Lines.{newline}
use oakberryio.Init.{Errno, print_line, Status, Wait, child, Kernel, Log}
use oakberryio.Init.Reap.{status_code, reap, Passes, reap-child}
use oakberryio.Init.Boot.{made, run}
use oakberryio.Init.Outcome.{run-Booted}

-- The log has a line, and oakd reads the status from any console output that ends in this line.
pub record Reports (n : ℕ) (log : Log) : Type 0 where
  pub line : Text
  pub answered : Option Errno
  pub was_printed : Mem (record { call = print_line line; error = answered }) log
  pub is_read : (out : Text) → last_child_exit_status (out ++ (line ++ newline ∷ [])) ≡ some (pos n)

-- Whatever orphans are reaped before the child, and whatever the guest has written to its console: from
-- a boot that comes to its end, oakd reads the child's exit status, or 128 and its signal.
pub run-Reports :
    (k : Kernel) (before : List Wait) (status : Status) (later : List Wait) (log log' : Log)
    → k.waits ≡ before ++ child k.child_pid status ∷ later
    → All (Passes k.child_pid) before
    → status_code status ≤ max_int
    → run k log ≡ (ok tt, log')
    → Reports (status_code status) log'
run-Reports k before status later log log' waits passed small e =
    let b = run-Booted k log log' e in
    let n = status_code status in
    let found : reap k.child_pid k.waits ≡ ok n =
      rw waits (reap-child k.child_pid before status later passed) in
    let same : b.code ≡ n = cc (b.reaped, found) in
    record {
      line = marker ++ itoa n;
      answered = k.answers (print_line (marker ++ itoa n));
      was_printed =
          subst (λ (l : Log). Mem (made k (print_line (marker ++ itoa n))) l) (sym b.order)
            (rw same (mem-cons_of_mem _ (mem-cons_of_mem _ mem-cons_self)));
      is_read = λ out.
          ap last_child_exit_status
            (ap (λ (s : Text). out ++ s) (append_assoc marker (itoa n) (newline ∷ [])))
          ∙ last_child_exit_status-printed out n small;
    }
