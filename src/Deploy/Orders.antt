-- ===== src/Deploy/Orders.antt =====
-- Deploy, Restart and Scale of internal/daemon/deploy.go.
pub mod Spared
pub mod Outcome
use oakberryio.Prelude.{
  ℕ, zero, suc, Bool, true, false, Option, none, some, List, [], ◌∷◌, ◌++◌, Text, t, ◌==◌, text_eq,
  if◌then◌else◌,
}
use oakberryio.Prelude.Int.{ℤ, pos, negsuc}
use oakberryio.Prelude.Results.{Result, ok, err, from_option, rootfs_build}
use oakberryio.Effects.{Exec, pure, lift, asks, modify, ◌>>=◌, ◌>>◌}
use oakberryio.Text.Decimal.{itoa}
use oakberryio.Paths.{join}
use oakberryio.Appconfig.{Config}
use oakberryio.Store.{Db, Release}
use oakberryio.Store.Apps.{upsert_app}
use oakberryio.Store.Releases.{insert_release, latest_release}
use oakberryio.Deploy.{Env, World, ImageMeta, ReleaseCmd, built}
use oakberryio.Deploy.State.{
  emit, write_db_with, with_db, cache_config, mkdir_all, app_config, record_effect,
}
use oakberryio.Deploy.Boot.{boot_from_release}
use oakberryio.Deploy.ReleaseCommand.{run_release_command}

-- UpsertApp, which the schema never refuses
unfoldable pub save_config : Text → Text → World → World
save_config app json w = with_db (upsert_app app json w.db) w

module _ (env : Env) where
  -- The image's path is named after the nanosecond.
  unfoldable pub rootfs_path : Text → Text
  rootfs_path app = join (join (join env.data_dir (t "images")) app) (itoa env.now ++ t ".ext4")

  unfoldable pub build_rootfs : Text → Text → Exec World ImageMeta
  build_rootfs image out w = elim (env.build_rootfs image out) [
    | none ↦ (err rootfs_build, w)
    | some meta ↦ (ok meta, record_effect (built out) w)
  ]

  -- the store.Release that is booted; its NodeID and CreatedAt are not set
  unfoldable pub new_release : Text → Text → ImageMeta → ℕ → Release
  new_release app image meta id = record {
    id = id;
    app = app;
    image = image;
    rootfs = rootfs_path app;
    node_id = t "";
    cmd = env.cmd_json (record { entrypoint = meta.entrypoint; cmd = meta.cmd });
    env = env.env_json meta.env;
    workdir = meta.working_dir;
    created_at = 0;
  }

  -- The release's row is written with the columns of `new_release`.
  unfoldable pub record_release : Text → Text → ImageMeta → Exec World Release
  record_release app image meta = do
    let r = new_release app image meta 0
    id ← write_db_with (insert_release app image r.rootfs r.cmd r.env r.workdir env.now)
    pure (new_release app image meta id)

  -- if cfg.Deploy.ReleaseCommand != ""
  unfoldable pub gate : Config → Release → Exec World (Unit {0})
  gate cfg rel =
      if cfg.deploy.release_command == t "" then pure tt else run_release_command env cfg rel

  unfoldable pub deploy : Config → Text → Exec World Text
  deploy cfg image = do
    modify (save_config cfg.app (env.config_json cfg))
    modify (cache_config cfg.app cfg)
    emit (t "building rootfs..." ++ b'\n' ∷ [])
    mkdir_all env (join (join env.data_dir (t "images")) cfg.app)
    meta ← build_rootfs image (rootfs_path cfg.app)
    rel ← record_release cfg.app image meta
    gate cfg rel
    boot_from_release env cfg rel

  unfoldable pub restart : Text → Exec World Text
  restart app = do
    cfg ← app_config env app
    rel ← asks (λ w. latest_release app w.db)
    boot_from_release env cfg rel

  -- A size of 0 leaves the configuration's.
  unfoldable pub or_keep : ℤ → ℤ → ℤ
  or_keep (pos zero) old = old
  or_keep (pos (suc n)) old = pos (suc n)
  or_keep (negsuc n) old = negsuc n

  unfoldable pub scaled : ℤ → ℤ → Config → Config
  scaled memory_mb cpus cfg = record cfg {
    vm = record cfg.vm {
      memory_mb = or_keep memory_mb cfg.vm.memory_mb;
      cpus = or_keep cpus cfg.vm.cpus;
    };
  }

  unfoldable pub scale : Text → ℤ → ℤ → Exec World Text
  scale app memory_mb cpus = do
    cfg ← app_config env app
    modify (save_config app (env.config_json (scaled memory_mb cpus cfg)))
    modify (cache_config app (scaled memory_mb cpus cfg))
    rel ← asks (λ w. latest_release app w.db)
    boot_from_release env (scaled memory_mb cpus cfg) rel
