-- ===== src/Deploy/Reconcile.antt =====
-- Reconcile and reconcileOne of internal/daemon/daemon.go.
pub mod Tracked
pub mod Frame
pub mod Turn
pub mod Outcome
use oakberryio.Prelude.{List, [], ◌∷◌, Text}
use oakberryio.Prelude.Results.{ok, err}
use oakberryio.Effects.{Exec, lift, asks, modify, ◌>>=◌, ◌>>◌}
use oakberryio.Vm.{mac_from_ip}
use oakberryio.Store.{Machine, running}
use oakberryio.Store.Machines.{running_machines, set_machine_state}
use oakberryio.Store.Releases.{release_by_id}
use oakberryio.Deploy.{Env, World}
use oakberryio.Deploy.State.{
  app_config, decode_release_cmd, decode_release_env, subnet_for_app, ensure_bridge, mkdir_all,
  set_handle, write_db,
}
use oakberryio.Deploy.Volumes.{resolve_volumes}
use oakberryio.Deploy.GuestEnv.{build_guest_env}
use oakberryio.Deploy.Ingress.{apply_tunnel}
use oakberryio.Deploy.Launch.{
  Place, image_load, machine_spec, machine_guest, log_dir, remove_stale_sockets, start, mark_failed,
}

unfoldable pub place_of : Machine → Text × Text → Place
place_of m net = record {
  id = m.id;
  app = m.app;
  tap = m.tap;
  bridge = net.0;
  gateway = net.1;
  ip = m.ip;
}

module _ (env : Env) where
  unfoldable pub reconcile_one : Machine → Exec World (Unit {0})
  reconcile_one m = do
    cfg ← app_config env m.app
    rel ← asks (λ w. release_by_id m.release_id w.db)
    rc ← lift (decode_release_cmd env rel.cmd)
    image_env ← lift (decode_release_env env rel.env)
    vols ← asks (λ w. resolve_volumes cfg w.db)
    env_map ← asks (λ w. build_guest_env env cfg image_env w.db)
    mac ← lift (mac_from_ip m.ip)
    idx ← subnet_for_app m.app
    net ← ensure_bridge env idx
    mkdir_all env (log_dir env cfg rel (place_of m net))
    remove_stale_sockets env m.id
    handle ←
        start env (machine_spec env cfg rel (place_of m net) (image_load rc vols) mac)
          (machine_guest env cfg rel (place_of m net) (image_load rc vols) env_map)
    modify (set_handle m.id handle)
    write_db (set_machine_state m.id running handle.pid)

  unfoldable pub reconcile_or_fail : Machine → World → World
  reconcile_or_fail m w =
      let (r, w') = reconcile_one m w in elim r [ ok _ ↦ w' | err e ↦ mark_failed m.id w' ]

  unfoldable pub reconcile_each : List Machine → World → World
  reconcile_each [] w = w
  reconcile_each (m ∷ ms) w = reconcile_each ms (reconcile_or_fail m w)

  unfoldable pub reconcile : Exec World (Unit {0})
  reconcile w = apply_tunnel env (reconcile_each (running_machines w.db) w)
