-- ===== src/Deploy/Launch.antt =====
-- internal/daemon: what bootFromRelease, runReleaseCommand and reconcileOne have in common. They
-- decode the release, describe the machine, start it and record its handle in the same way.
use oakberryio.Prelude.{ℕ, none, some, List, ◌++◌, Text, t}
use oakberryio.Prelude.Dict.{Dict}
use oakberryio.Prelude.Results.{ok, err, start_failed}
use oakberryio.Effects.{Exec, pure, lift, asks, ◌>>=◌, ◌>>◌}
use oakberryio.Paths.{join}
use oakberryio.Appconfig.{Config}
use oakberryio.Mmds.{Guest, Mount}
use oakberryio.Vm.{Spec, mac_from_ip}
use oakberryio.Store.{Release, failed}
use oakberryio.Store.Machines.{set_machine_state, delete_machine}
use oakberryio.Deploy.{Env, World, Handle, ReleaseCmd, started, stopped}
use oakberryio.Deploy.State.{
  with_db, get_handle, record_effect, kernel, socket_dir, vsock_socket_path, remove_stale,
  mkdir_all,
}
use oakberryio.Deploy.GuestEnv.{build_guest_env}

-- vsockGuestCID
abbrev pub guest_cid : ℕ
guest_cid = 3

-- What a machine is called and where it is on the network.
pub record Place : Type 0 where
  pub id : Text
  pub app : Text
  pub tap : Text
  pub bridge : Text
  pub gateway : Text
  pub ip : Text

-- What a machine runs, beside what its release says.
pub record Load : Type 0 where
  pub entrypoint : List Text
  pub cmd : List Text
  pub volumes : List Text
  pub mounts : List Mount

-- The command of the image, and the volumes of the configuration.
unfoldable pub image_load : ReleaseCmd → List Text × List Mount → Load
image_load rc vols = record {
  entrypoint = rc.entrypoint;
  cmd = rc.cmd;
  volumes = vols.0;
  mounts = vols.1;
}

-- _ = d.Store.SetMachineState(id, "failed", 0)
unfoldable pub mark_failed : Text → World → World
mark_failed id w = elim (set_machine_state id failed 0 w.db) [ ok db ↦ with_db db w | err e ↦ w ]

unfoldable pub delete_row : Text → World → World
delete_row id w = with_db (delete_machine id w.db) w

-- if handle := d.getHandle(id); handle != nil { _ = handle.Stop(ctx) }
unfoldable pub stop_handle : Text → World → World
stop_handle id w = elim (get_handle id w) [ none ↦ w | some h ↦ record_effect (stopped h) w ]

module _ (env : Env) (cfg : Config) (rel : Release) (place : Place) where
  unfoldable pub log_dir : Text
  log_dir = join env.log_dir place.app

  unfoldable pub machine_guest : Load → Dict Text → Guest
  machine_guest load env_map = record {
    machine_id = place.id;
    app = place.app;
    ip = place.ip ++ t "/24";
    gateway = place.gateway;
    dns = place.gateway;
    env = env_map;
    entrypoint = load.entrypoint;
    cmd = load.cmd;
    working_dir = rel.workdir;
    mounts = load.mounts;
  }

  unfoldable pub machine_spec : Load → Text → Spec
  machine_spec load mac = record {
    id = place.id;
    kernel = kernel env;
    rootfs = rel.rootfs;
    volumes = load.volumes;
    tap = place.tap;
    bridge = place.bridge;
    mac = mac;
    ip = place.ip ++ t "/24";
    gateway = place.gateway;
    memory_mb = cfg.vm.memory_mb;
    cpus = cfg.vm.cpus;
    log_path = join log_dir (place.id ++ t ".log");
    socket_dir = socket_dir env;
    vsock_uds = vsock_socket_path (socket_dir env) place.id;
    guest_cid = guest_cid;
  }

-- Sockets that an earlier run left behind.
unfoldable pub remove_stale_sockets : Env → Text → Exec World (Unit {0})
remove_stale_sockets env id = do
  remove_stale env (join (socket_dir env) (id ++ t ".sock"))
  remove_stale env (vsock_socket_path (socket_dir env) id)

-- From the allocated address to the description of the machine.
unfoldable pub describe :
    Env → Config → Release → Place → Load → List Text → Exec World (Spec × Guest)
describe env cfg rel place load image_env = do
  mac ← lift (mac_from_ip place.ip)
  env_map ← asks (λ w. build_guest_env env cfg image_env w.db)
  mkdir_all env (log_dir env cfg rel place)
  remove_stale_sockets env place.id
  pure (machine_spec env cfg rel place load mac, machine_guest env cfg rel place load env_map)

-- Runtime.Start
unfoldable pub start : Env → Spec → Guest → Exec World Handle
start env spec guest w = elim (env.start spec guest) [
  | none ↦ (err start_failed, w)
  | some h ↦ (ok h, record_effect (started spec guest) w)
]
