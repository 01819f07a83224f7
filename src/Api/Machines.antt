-- ===== src/Api/Machines.antt =====
-- handleDestroy, handleMachines, handleLogs, handleSSH and handleApps of internal/daemon/api.go.
pub mod Shell
use oakberryio.Prelude.{
  ℕ, Bool, Option, none, some, List, [], ◌∷◌, ◌++◌, Text, t, ◌==◌, text_eq, if◌then◌else◌, sort,
  le_text,
}
use oakberryio.Prelude.Results.{Result, ok, err}
use oakberryio.Store.{Db, Machine, MachineState, running}
use oakberryio.Store.Apps
use oakberryio.Store.Machines
use oakberryio.Store.Machines.{state_eq}
use oakberryio.Paths.{join}
use oakberryio.Deploy.{Env, World, dialled}
use oakberryio.Deploy.State.{record_effect, socket_dir, vsock_socket_path}
use oakberryio.Deploy.Destroy.{destroy}
use oakberryio.Wire.{Request, Response}
use oakberryio.Api.{Server, Handler, respond, refuse, internal_error, for_app}

abbrev pub not_found : ℕ
not_found = 404

abbrev pub bad_gateway : ℕ
bad_gateway = 502

-- The first machine whose state is running
unfoldable pub first_running : List Machine → Option Machine
first_running [] = none
first_running (m ∷ ms) = let rest = first_running ms in if m.state == running then some m else rest

unfoldable pub destroyed_or_error : Result (Unit {0}) × World → Response × World
destroyed_or_error (err e, w) = refuse internal_error w
destroyed_or_error (ok done, w) = respond 204 [] w

module _ (s : Server) where
  unfoldable pub handle_destroy : Text → Handler
  handle_destroy name = for_app name (λ w. destroyed_or_error (destroy s.deployer name w))

  unfoldable pub handle_machines : Text → Handler
  handle_machines name =
      for_app name λ w. respond 200 (s.codec.write_machines (Machines.machines_for_app name w.db)) w

  unfoldable pub log_path : Text → Text → Text
  log_path name id = join (join s.deployer.log_dir name) (id ++ t ".log")

  unfoldable pub log_of : Bool → Text → List Machine → Handler
  log_of tail_on name [] w = refuse not_found w
  log_of tail_on name (m ∷ ms) w =
      elim (if tail_on then s.tail_log (log_path name m.id) else s.read_log (log_path name m.id)) [
        | none ↦ refuse not_found w
        | some bytes ↦ respond 200 bytes w
      ]

  -- `tail_on` is ?follow=1.
  unfoldable pub handle_logs : Text → Bool → Handler
  handle_logs name tail_on =
      for_app name λ w. log_of tail_on name (Machines.machines_for_app name w.db) w

  -- The connection to the guest's agent, before the client's connection is hijacked, which is taken
  -- to succeed.
  unfoldable pub ssh_to : Option Machine → Handler
  ssh_to none w = refuse not_found w
  ssh_to (some m) w =
      let socket = vsock_socket_path (socket_dir s.deployer) m.id in
      if s.dial_vsock socket
      then respond 200 [] (record_effect (dialled socket) w)
      else refuse bad_gateway w

  unfoldable pub handle_ssh : Text → Handler
  handle_ssh name = for_app name λ w. ssh_to (first_running (Machines.machines_for_app name w.db)) w

  -- `detail` is ?detail=1.
  unfoldable pub handle_apps : Bool → Handler
  handle_apps detail w =
      respond 200
        (if detail
          then s.codec.write_infos (Apps.apps_detailed w.db)
          else s.codec.write_texts (sort le_text (Apps.apps w.db)))
        w
