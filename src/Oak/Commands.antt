-- ===== src/Oak/Commands.antt =====
-- The commands of cmd/oak/main.go over the client of internal/cli, but for oak deploy and oak ssh.
use oakberryio.Prelude.{
  Bool, false, ◌&&◌, not, none, some, List, [], ◌∷◌, ◌++◌, map, Text, t, ◌==◌, nat_eq, text_eq,
  if◌then◌else◌,
}
use oakberryio.Prelude.Int.{ℤ, pos, negsuc}
use oakberryio.Prelude.Dict.{lookup}
use oakberryio.Prelude.Results.{
  Result, ok, from_option, usage, no_confirmation, no_size, bad_size, ◌>>=◌,
}
use oakberryio.Text.Decimal.{itoa}
use oakberryio.Store.{Machine}
use oakberryio.Cli.Transport.{Transport, new_transport}
use oakberryio.Cli.Args.{parse_kv, parse_memory_mb, atoi_signed}
use oakberryio.Cli.Calls
use oakberryio.Cli.Calls.{silent}
use oakberryio.Oak.Flags.{bool_flag, text_flag, int_flag, parse_flags_anywhere}
use oakberryio.Oak.Shell.{
  Shell, Ran, fails, shows, prints, on_ok, text_of, bool_of, int_of, single, flag_set,
}

module _ (sh : Shell) where
  unfoldable pub run_apps : List Text → Ran
  run_apps args = on_ok (new_transport sh.here) λ tr. prints (Calls.apps sh.here sh.codec tr)

  unfoldable pub machine_row : Machine → List Text
  machine_row m =
      m.id ∷ sh.state_text m.state ∷ m.ip ∷ elim m.pid [ none ↦ t "0" | some n ↦ itoa n ] ∷ []

  unfoldable pub run_status : List Text → Ran
  run_status args = on_ok (single args) λ app. on_ok (new_transport sh.here) λ tr. prints (
      Calls.machines sh.here sh.codec tr app >>= λ ms.
      ok (sh.tabulate ((t "ID" ∷ t "STATE" ∷ t "IP" ∷ t "PID" ∷ []) ∷ map machine_row ms)))

  unfoldable pub run_logs : List Text → Ran
  run_logs args =
      on_ok (parse_flags_anywhere (flag_set sh ((t "f", bool_flag) ∷ [])) [] args) λ parsed.
        on_ok (single parsed.1) λ app.
          on_ok (new_transport sh.here)
            λ tr. shows (Calls.logs sh.here sh.codec tr app (bool_of (lookup (t "f") parsed.0)))

  unfoldable pub apply_hint : Text → Unit {0} → List Text
  apply_hint app done = (t "run: oak restart " ++ (app ++ t " to apply")) ∷ []

  unfoldable pub set_secrets : Transport → Text → List Text → Ran
  set_secrets tr app [] = fails usage
  set_secrets tr app (arg ∷ args) = on_ok (parse_kv (arg ∷ args)) λ kv.
      prints (Calls.set_secrets sh.here sh.codec tr app kv >>= λ done. ok (apply_hint app done))

  unfoldable pub list_secrets : Transport → Text → List Text → Ran
  list_secrets tr app [] = prints (Calls.secret_keys sh.here sh.codec tr app)
  list_secrets tr app (arg ∷ args) = fails usage

  unfoldable pub unset_secrets : Transport → Text → List Text → Ran
  unset_secrets tr app [] = fails usage
  unset_secrets tr app (arg ∷ args) = prints (
      Calls.unset_secrets sh.here sh.codec tr app (arg ∷ args) >>= λ done. ok (apply_hint app done))

  unfoldable pub run_secrets : List Text → Ran
  run_secrets [] = fails usage
  run_secrets (sub ∷ []) = fails usage
  run_secrets (sub ∷ app ∷ args) = on_ok (new_transport sh.here) λ tr.
      if sub == t "set"
      then set_secrets tr app args
      else if sub == t "list"
      then list_secrets tr app args
      else if sub == t "unset"
      then unset_secrets tr app args
      else fails usage

  unfoldable pub run_restart : List Text → Ran
  run_restart args =
      on_ok (single args)
        λ app. on_ok (new_transport sh.here) λ tr. shows (Calls.restart sh.here sh.codec tr app)

  unfoldable pub is_zero : ℤ → Bool
  is_zero (pos n) = n == 0
  is_zero (negsuc n) = false

  -- 0 where there is no --memory
  unfoldable pub memory_of : Text → Result ℤ
  memory_of memory = if memory == t "" then ok (pos 0) else parse_memory_mb memory

  unfoldable pub scale_with : Text → Text → ℤ → Ran
  scale_with app memory cpus =
      if memory == t "" && is_zero cpus
      then fails no_size
      else on_ok (memory_of memory) λ mb.
        on_ok (new_transport sh.here) λ tr. shows (Calls.scale sh.here sh.codec tr app mb cpus)

  unfoldable pub run_scale : List Text → Ran
  run_scale args =
      on_ok
        (parse_flags_anywhere (flag_set sh ((t "memory", text_flag) ∷ (t "cpus", int_flag) ∷ [])) []
          args)
        λ parsed. on_ok (single parsed.1) λ app.
          scale_with app (text_of (lookup (t "memory") parsed.0))
            (int_of (lookup (t "cpus") parsed.0))

  unfoldable pub destroy_app : Bool → Text → Ran
  destroy_app confirmed app =
      if not confirmed
      then fails no_confirmation
      else on_ok (new_transport sh.here)
          λ tr. prints (Calls.destroy sh.here sh.codec tr app >>= λ done. ok [])

  unfoldable pub run_destroy : List Text → Ran
  run_destroy args =
      on_ok (parse_flags_anywhere (flag_set sh ((t "y", bool_flag) ∷ [])) [] args)
        λ parsed. on_ok (single parsed.1) λ app. destroy_app (bool_of (lookup (t "y") parsed.0)) app

  unfoldable pub run_volumes : List Text → Ran
  run_volumes (verb ∷ app ∷ name ∷ size ∷ []) =
      if not (verb == t "create")
      then fails usage
      else on_ok (from_option bad_size (atoi_signed size)) λ size_gb.
        on_ok (new_transport sh.here)
          λ tr. prints (Calls.create_volume sh.here sh.codec tr app name size_gb >>= λ done. ok [])
  run_volumes args = fails usage
