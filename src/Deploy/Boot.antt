-- ===== src/Deploy/Boot.antt =====
-- bootFromRelease and stopOldMachines of internal/daemon/deploy.go.
pub mod CutOver
pub mod Outcome
use oakberryio.Prelude.{
  ℕ, Bool, true, false, ◌||◌, not, Option, none, some, List, [], ◌∷◌, ◌++◌, Text, t, ◌==◌, text_eq,
  if◌then◌else◌,
}
use oakberryio.Prelude.Results.{Error, Result, ok, err, tunnel_restart}
use oakberryio.Effects.{Exec, pure, fail, lift, asks, modify, on_error, ◌>>=◌, ◌>>◌}
use oakberryio.Appconfig.{Config, Service}
use oakberryio.Mmds.{Guest, Mount}
use oakberryio.Vm.{Spec}
use oakberryio.Store.{Db, Release, Machine, running}
use oakberryio.Store.Machines.{
  alloc_and_insert_machine, set_machine_state, machines_for_app, state_eq,
}
use oakberryio.Deploy.{Env, World, Handle, ReleaseCmd, stopped}
use oakberryio.Deploy.State.{
  emit, write_db, write_db_with, set_handle, remove_handle, record_effect, new_machine_id, tap_name,
  subnet_for_app, decode_release_cmd, decode_release_env, ensure_bridge,
}
use oakberryio.Deploy.Volumes.{resolve_volumes}
use oakberryio.Deploy.Health.{await_healthy}
use oakberryio.Deploy.Ingress.{apply_tunnel}
use oakberryio.Deploy.Launch.{
  Place, image_load, mark_failed, delete_row, stop_handle, describe, start,
}

unfoldable pub stop_machine : Machine → World → World
stop_machine m w = remove_handle m.id (delete_row m.id (stop_handle m.id w))

-- the old machines that stopOldMachines stops: running, and not the new one
unfoldable pub is_old : Text → Machine → Bool
is_old new_id m = not (m.id == new_id || not (m.state == running))

unfoldable pub stop_where : (Machine → Bool) → List Machine → World → World
stop_where p [] w = w
stop_where p (m ∷ ms) w = stop_where p ms (if p m then stop_machine m w else w)

unfoldable pub stop_old_machines : Text → Text → World → World
stop_old_machines app new_id w = stop_where (is_old new_id) (machines_for_app app w.db) w

-- d.newMachineID, d.subnetForApp, d.EnsureBridge and AllocAndInsertMachine
unfoldable pub allocate : Env → Text → Release → Exec World Place
allocate env app rel = do
  id ← new_machine_id
  idx ← subnet_for_app app
  net ← ensure_bridge env idx
  ip ← write_db_with (alloc_and_insert_machine id app rel.id (tap_name id) idx env.now)
  pure (record { id = id; app = app; tap = tap_name id; bridge = net.0; gateway = net.1; ip = ip })

-- What the handling of an unhealthy machine undoes.
unfoldable pub tear_down : Text → Handle → World → World
tear_down id handle w =
    delete_row id (mark_failed id (remove_handle id (record_effect (stopped handle) w)))

unfoldable pub announce_wait : List Service → Exec World (Unit {0})
announce_wait [] = pure tt
announce_wait (s ∷ ss) = emit (t "waiting for health check..." ++ b'\n' ∷ [])

-- Start and health check; either failure takes the machine's row away.
unfoldable pub launch : Env → Config → Place → Spec → Guest → Exec World Handle
launch env cfg place spec guest = do
  emit (t "starting machine..." ++ b'\n' ∷ [])
  handle ← on_error (start env spec guest) (λ w. delete_row place.id (mark_failed place.id w))
  modify (set_handle place.id handle)
  announce_wait cfg.services
  on_error (await_healthy env cfg.services place.ip) (tear_down place.id handle)
  pure handle

-- errors.Is(err, tunnel.ErrRestart)
unfoldable pub is_restart : Error → Bool
is_restart tunnel_restart = true
is_restart e = false

unfoldable pub tolerate_restart : Env → Error → Exec World (Unit {0})
tolerate_restart env e =
    if is_restart e
    then emit
        (t "tunnel restart failed: " ++ (env.restart_error ++ (t "; deploy is live" ++ b'\n' ∷ [])))
    else fail e

-- applyTunnel, where a failed restart of cloudflared is a warning.
unfoldable pub publish : Env → Exec World (Unit {0})
publish env w =
    let (r, w') = apply_tunnel env w in
    elim r [ ok _ ↦ (ok tt, w') | err e ↦ tolerate_restart env e w' ]

-- Go returns the id beside the errors of this part too; its callers report the error alone.
unfoldable pub cut_over : Env → Text → Text → Handle → Exec World (Unit {0})
cut_over env app id handle = do
  write_db (set_machine_state id running handle.pid)
  modify (stop_old_machines app id)
  emit (t "ok " ++ (id ++ b'\n' ∷ []))
  publish env

unfoldable pub boot_from_release : Env → Config → Release → Exec World Text
boot_from_release env cfg rel = do
  rc ← lift (decode_release_cmd env rel.cmd)
  image_env ← lift (decode_release_env env rel.env)
  vols ← asks (λ w. resolve_volumes cfg w.db)
  place ← allocate env cfg.app rel
  machine ← describe env cfg rel place (image_load rc vols) image_env
  handle ← launch env cfg place machine.0 machine.1
  cut_over env cfg.app place.id handle
  pure place.id
