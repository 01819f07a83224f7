-- ===== src/Api/Volumes.antt =====
-- handleCreateVolume of internal/daemon/api.go.
pub mod Again
use oakberryio.Prelude.{
  ℕ, suc, ◌*◌, Bool, true, false, ◌||◌, Option, none, some, List, [], ◌∷◌, ◌++◌, Text, t, ◌==◌,
  text_eq, if◌then◌else◌,
}
use oakberryio.Prelude.Int.{ℤ, pos, negsuc}
use oakberryio.Prelude.Results.{Result, ok, err, file_failed}
use oakberryio.Effects.{Exec, lift, modify, ◌>>=◌, ◌>>◌}
use oakberryio.Appconfig.{valid_name}
use oakberryio.Paths.{join}
use oakberryio.Store.Volumes.{create_volume}
use oakberryio.Deploy.{World, Effect, created, truncated, formatted}
use oakberryio.Deploy.State.{record_effect, write_db, mkdir_all}
use oakberryio.Cli.Args.{times_int64}
use oakberryio.Wire.{Response, VolumeBody}
use oakberryio.Api.{Server, Handler, respond, refuse, bad_request, internal_error, for_app, decoded}

-- dir/<app>-<name>.img
unfoldable pub volume_file : Text → Text → Text
volume_file app name = app ++ (b'-' ∷ (name ++ t ".img"))

-- The size, if it is positive
unfoldable pub positive : ℤ → Option ℕ
positive (pos ℕ.zero) = none
positive (pos (suc n)) = some (suc n)
positive (negsuc n) = none

-- A call on a file: an error, or its effect
unfoldable pub touch : Bool → Effect → Exec World (Unit {0})
touch true e = modify (record_effect e)
touch false e = lift (err file_failed)

-- 201, or 500 on the first error
unfoldable pub created_or_error : Result (Unit {0}) × World → Response × World
created_or_error (err e, w) = refuse internal_error w
created_or_error (ok done, w) = respond 201 [] w

module _ (s : Server) where
  unfoldable pub volume_path : Text → Text → Text
  volume_path app name = join (join s.deployer.data_dir (t "volumes")) (volume_file app name)

  -- The size in bytes is int64(body.SizeGB)<<30.
  unfoldable pub provision : Text → Text → ℕ → Exec World (Unit {0})
  provision app name size_gb = do
    let path = volume_path app name
    mkdir_all s.deployer (join s.deployer.data_dir (t "volumes"))
    touch (s.create_file path) (created path)
    let size = times_int64 size_gb 1073741824
    touch (s.truncate path size) (truncated path size)
    touch (s.format_volume path) (formatted path)
    write_db (create_volume app name path size_gb)

  unfoldable pub answer_created : Exec World (Unit {0}) → Handler
  answer_created act w = created_or_error (act w)

  unfoldable pub create_sized : Text → Text → Option ℕ → Handler
  create_sized app name none w = refuse bad_request w
  create_sized app name (some size_gb) w =
      if name == t ""
      then refuse bad_request w
      else if valid_name name
      then answer_created (provision app name size_gb) w
      else refuse bad_request w

  unfoldable pub create_body : Text → VolumeBody → Handler
  create_body app body = create_sized app body.name (positive body.size_gb)

  unfoldable pub handle_create_volume : Text → Text → Handler
  handle_create_volume app body = for_app app (decoded (s.codec.read_volume body) (create_body app))
