-- ===== src/Oak/Deploys.antt =====
-- oak deploy: runDeploy of cmd/oak/main.go.
use oakberryio.Prelude.{
  none, some, List, [], ◌∷◌, ◌++◌, Text, t, ◌==◌, nat_eq, text_eq, if◌then◌else◌, sort, le_text,
}
use oakberryio.Prelude.Dict.{Dict, lookup, keys}
use oakberryio.Prelude.Results.{ok, err, from_option, docker_failed, read_failed}
use oakberryio.Text.Decimal.{itoa}
use oakberryio.Mmds.{value_or_empty, pair_line}
use oakberryio.Appconfig
use oakberryio.Appconfig.{Config}
use oakberryio.Cli.Stream.{Followed}
use oakberryio.Cli.Transport.{Transport, new_transport}
use oakberryio.Cli.Calls
use oakberryio.Cli.Calls.{silent}
use oakberryio.Oak.Context.{tar_context}
use oakberryio.Oak.Flags.{bool_flag, text_flag, Value, parse}
use oakberryio.Oak.Shell.{Shell, Ran, fails, shows, on_ok, after_start, text_of, bool_of, flag_set}

module _ (sh : Shell) where
  -- runStreamed
  unfoldable pub run_streamed : List Text → Ran → Ran
  run_streamed command next =
      after_start command (if sh.succeeds command then next else fails docker_failed)

  unfoldable pub registry : Text
  registry =
      let given = sh.here.getenv (t "OAK_REGISTRY") in
      if given == t "" then t "localhost:5000" else given

  unfoldable pub image_ref : Text → Text
  image_ref app = registry ++ (b'/' ∷ (app ++ (b':' ∷ itoa sh.unix_time)))

  unfoldable pub build_arg_words : Dict Text → List Text → List Text
  build_arg_words args [] = t "." ∷ []
  build_arg_words args (k ∷ ks) =
      t "--build-arg" ∷ pair_line k (value_or_empty (lookup k args)) ∷ build_arg_words args ks

  unfoldable pub docker_build : Config → List Text
  docker_build cfg =
      t "docker"
      ∷ t "build"
      ∷ t "--platform"
      ∷ t "linux/amd64"
      ∷ t "-t"
      ∷ image_ref cfg.app
      ∷ t "-f"
      ∷ cfg.build.dockerfile
      ∷ build_arg_words cfg.build.args (sort le_text (keys cfg.build.args))

  unfoldable pub docker_push : Config → List Text
  docker_push cfg = t "docker" ∷ t "push" ∷ image_ref cfg.app ∷ []

  unfoldable pub deploy_local : Transport → Config → Text → Ran
  deploy_local tr cfg raw = run_streamed (docker_build cfg) (
      run_streamed (docker_push cfg)
        (shows (Calls.deploy sh.here sh.codec tr cfg.app (image_ref cfg.app) raw)))

  -- The lines of the build, and then those of the deploy if there is an image.
  unfoldable pub deploy_image : Transport → Config → Text → Followed Text → Ran
  deploy_image tr cfg raw built = elim built.outcome [
    | err e ↦ shows (record { printed = built.printed; outcome = err e })
    | ok image ↦
        let r = shows (Calls.deploy sh.here sh.codec tr cfg.app image raw) in
        record r { printed = built.printed ++ r.printed }
  ]

  unfoldable pub deploy_remote : Transport → Config → Text → Ran
  deploy_remote tr cfg raw =
      on_ok (tar_context sh.moby sh.ignore_file sh.working_dir cfg.build.dockerfile) λ tar.
        deploy_image tr cfg raw (
          Calls.build_remote sh.here sh.codec tr cfg.app cfg.build.dockerfile cfg.build.args
            (sh.write_tar tar))

  unfoldable pub config_path : Dict Value → Text
  config_path vs = elim (lookup (t "c") vs) as (λ v. Text) [
    | none ↦ t "oak.toml"
    | some v ↦ text_of (some v)
  ]

  unfoldable pub run_deploy : List Text → Ran
  run_deploy args =
      on_ok (parse (flag_set sh ((t "c", text_flag) ∷ (t "remote", bool_flag) ∷ [])) [] args)
        λ parsed. on_ok (from_option read_failed (sh.here.read_file (config_path parsed.0))) λ raw.
          on_ok (Appconfig.parse sh.unmarshal_toml raw) λ cfg. on_ok (new_transport sh.here) λ tr.
            if bool_of (lookup (t "remote") parsed.0)
            then deploy_remote tr cfg raw
            else deploy_local tr cfg raw
