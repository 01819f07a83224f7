-- ===== src/Init/Reap.antt =====
-- reap of cmd/oak-init/main.go. When no child is left, wait4 fails.
use oakberryio.Prelude.{
  ℕ, ◌+◌, ◌≡◌, arith, false, List, [], ◌∷◌, ◌++◌, ◌==◌, nat_eq, if◌then◌else◌, All,
}
use oakberryio.Prelude.Results.{Result, ok, err, wait_error}
use oakberryio.Init.{Status, exited, signaled, Wait, interrupted, failed, child}

unfoldable pub status_code : Status → ℕ
status_code (exited n) = n
status_code (signaled n) = 128 + n

unfoldable pub reap : ℕ → List Wait → Result ℕ
reap pid [] = err wait_error
reap pid (interrupted ∷ ws) = reap pid ws
reap pid (failed ∷ ws) = err wait_error
reap pid (child p status ∷ ws) =
    let rest = reap pid ws in if p == pid then ok (status_code status) else rest

-- A return of wait4 that is not about this child
abbrev pub Passes : ℕ → Wait → Type 0
Passes pid interrupted = Unit
Passes pid failed = ⊥
Passes pid (child p status) = (p == pid) ≡ false

-- However many signals and orphans come before: the status of the child itself is returned.
pub reap-child :
    (pid : ℕ) (before : List Wait) (status : Status) (later : List Wait)
    → All (Passes pid) before
    → reap pid (before ++ child pid status ∷ later) ≡ ok (status_code status)
unfolding reap
reap-child pid [] status later h = ground arith
reap-child pid (interrupted ∷ ws) status later (p, h) = reap-child pid ws status later h
reap-child pid (failed ∷ ws) status later (p, h) = absurd p
reap-child pid (child q s ∷ ws) status later (p, h) = rw p (reap-child pid ws status later h)
