-- ===== src/Deploy/ReleaseCommand.antt =====
-- runReleaseCommand and lastChildExitStatus of internal/daemon/deploy.go.
pub mod Marker
pub mod Transient
use oakberryio.Prelude.{
  ℕ, zero, suc, ◌+◌, ◌*◌, Bool, true, false, ◌||◌, ◌&&◌, not, Option, none, some, List, [], ◌∷◌,
  ◌++◌, Text, t, ltb, leb, ◌==◌, nat_eq, if◌then◌else◌, length, drop,
}
use oakberryio.Prelude.Int.{ℤ, pos, negsuc}
use oakberryio.Prelude.Results.{Result, ok, err, wait_failed, no_exit_status, release_exited}
use oakberryio.Effects.{Exec, pure, fail, lift, modify, finally, ◌>>=◌, ◌>>◌}
use oakberryio.Text.Decimal.{is_digit, read_digits}
use oakberryio.Paths.{split_on, join}
use oakberryio.Appconfig.{Config}
use oakberryio.Store.{Release}
use oakberryio.Deploy.{Env, World, Handle, LogRead, stopped}
use oakberryio.Deploy.State.{emit, record_effect, decode_release_env}
use oakberryio.Deploy.GuestEnv.{has_prefix}
use oakberryio.Deploy.Launch.{Place, Load, delete_row, describe, start, log_dir}
use oakberryio.Deploy.Boot.{allocate}

-- childExitMarker
abbrev pub marker : Text
marker = t "oak-init: child-exit status="

-- What follows the last occurrence of `p` in the line.
unfoldable pub after_last : Text → Text → Option Text
after_last p [] = none
after_last p (c ∷ s) = elim (after_last p s) [
  | some rest ↦ some rest
  | none ↦ if has_prefix p (c ∷ s) then some (drop (length p) (c ∷ s)) else none
]

-- The same for the last of the lines that have the marker.
unfoldable pub last_marker : List Text → Option Text
last_marker [] = none
last_marker (l ∷ ls) = elim (last_marker ls) [ some rest ↦ some rest | none ↦ after_last marker l ]

-- The bytes '-' and '0' to '9' at the front.
unfoldable pub int_prefix : Text → Text
int_prefix [] = []
int_prefix (c ∷ s) = let rest = int_prefix s in if c == b'-' || is_digit c then c ∷ rest else []

-- One digit at least.
unfoldable pub read_number : Text → Option ℕ
read_number [] = none
read_number (c ∷ s) = read_digits 0 (c ∷ s)

abbrev pub max_int : ℕ
max_int = 9223372036854775807

unfoldable pub minus : ℕ → ℤ
minus zero = pos 0
minus (suc n) = negsuc n

-- strconv.Atoi of such a text: an int has 64 bits.
unfoldable pub atoi : Text → Option ℤ
atoi [] = none
atoi (c ∷ s) =
    if c == b'-'
    then elim (read_number s) [
      | none ↦ none
      | some n ↦ if leb n (max_int + 1) then some (minus n) else none
    ]
    else elim (read_number (c ∷ s)) [
      | none ↦ none
      | some n ↦ if leb n max_int then some (pos n) else none
    ]

-- lastChildExitStatus, of the log's bytes
unfoldable pub last_child_exit_status : Text → Option ℤ
last_child_exit_status log = elim (last_marker (split_on b'\n' log)) [
  | none ↦ none
  | some rest ↦ atoi (int_prefix rest)
]

-- The readings of the log until one shows a status or comes after the deadline.
unfoldable pub await_status : List LogRead → Option ℤ
await_status [] = none
await_status (r ∷ rs) =
    let later = if r.late then none else await_status rs in
    elim r.log [
      | none ↦ later
      | some log ↦ elim (last_child_exit_status log) [ some n ↦ some n | none ↦ later ]
    ]

unfoldable pub check_status : Option ℤ → Result (Unit {0})
check_status none = err no_exit_status
check_status (some (pos zero)) = ok tt
check_status (some n) = err (release_exited n)

abbrev pub command_load : Text → Load
command_load cmd = record {
  entrypoint = t "/bin/sh" ∷ t "-lc" ∷ cmd ∷ [];
  cmd = [];
  volumes = [];
  mounts = [];
}

module _ (env : Env) (cfg : Config) (rel : Release) where
  -- handle.Wait, and the verdict of the log.
  unfoldable pub await_exit : Text → Handle → Exec World (Unit {0})
  await_exit log_path handle = do
    lift (if env.wait handle then ok tt else err wait_failed)
    lift (check_status (await_status (env.log_reads log_path)))
    emit (t "release command succeeded" ++ b'\n' ∷ [])

  unfoldable pub run_machine : List Text → Place → Exec World (Unit {0})
  run_machine image_env place = do
    machine ← describe env cfg rel place (command_load cfg.deploy.release_command) image_env
    handle ← start env machine.0 machine.1
    finally (await_exit (join (log_dir env cfg rel place) (place.id ++ t ".log")) handle)
        (record_effect (stopped handle))

  unfoldable pub run_release_command : Exec World (Unit {0})
  run_release_command = do
    emit (t "running release command..." ++ b'\n' ∷ [])
    image_env ← lift (decode_release_env env rel.env)
    place ← allocate env cfg.app rel
    finally (run_machine image_env place) (delete_row place.id)
