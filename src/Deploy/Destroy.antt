-- ===== src/Deploy/Destroy.antt =====
-- Destroy of internal/daemon/deploy.go.
pub mod Outcome
use oakberryio.Prelude.{Bool, true, false, List, [], ◌∷◌, ◌++◌, Text, t, if◌then◌else◌}
use oakberryio.Prelude.Dict.{delete}
use oakberryio.Prelude.Results.{Error, Result, ok, err, remove_failed}
use oakberryio.Effects.{Exec, pure, fail, lift, gets, modify, ◌>>=◌, ◌>>◌}
use oakberryio.Paths.{join}
use oakberryio.Store.{Db, Machine}
use oakberryio.Store.Machines.{machines_for_app}
use oakberryio.Store.Releases.{delete_releases_for_app}
use oakberryio.Store.Secrets.{delete_secrets_for_app}
use oakberryio.Store.Volumes.{delete_volumes_for_app}
use oakberryio.Store.Apps.{delete_app}
use oakberryio.Deploy.{Env, World, removed}
use oakberryio.Deploy.State.{write_db, with_db, record_effect}
use oakberryio.Deploy.Ingress.{apply_tunnel}
use oakberryio.Deploy.Boot.{stop_where, is_restart}

unfoldable pub delete_rows : Text → Db → Db
delete_rows app db =
    delete_volumes_for_app app (delete_secrets_for_app app (delete_releases_for_app app db))

unfoldable pub drop_config : Text → World → World
drop_config app w = record w { app_configs = delete app w.app_configs }

unfoldable pub clear_store : Text → Exec World (Unit {0})
clear_store app = do
  modify (λ w. stop_where (λ _. true) (machines_for_app app w.db) w)
  modify (λ w. with_db (delete_rows app w.db) w)
  write_db (delete_app app)
  modify (drop_config app)

module _ (env : Env) where
  -- os.RemoveAll
  unfoldable pub remove_tree : Text → Exec World (Unit {0})
  remove_tree path = do
    modify (record_effect (removed path))
    lift (if env.remove_all path then ok tt else err remove_failed)

  -- os.Remove of each, up to the first that fails
  unfoldable pub remove_files : List Text → Exec World (Unit {0})
  remove_files [] = pure tt
  remove_files (p ∷ ps) = do
    lift (if env.remove p then ok tt else err remove_failed)
    modify (record_effect (removed p))
    remove_files ps

  unfoldable pub clear_files : Text → Exec World (Unit {0})
  clear_files app = do
    remove_tree (join (join env.data_dir (t "images")) app)
    remove_tree (join env.log_dir app)
    remove_files (env.glob_volumes (join (join env.data_dir (t "volumes")) (app ++ t "-*.img")))

  unfoldable pub unpublish : Exec World (Unit {0})
  unpublish w =
      let (r, w') = apply_tunnel env w in
      elim r [ ok _ ↦ (ok tt, w') | err e ↦ if is_restart e then (ok tt, w') else (err e, w') ]

  unfoldable pub destroy : Text → Exec World (Unit {0})
  destroy app = do clear_store app; clear_files app; unpublish
