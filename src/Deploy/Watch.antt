-- ===== src/Deploy/Watch.antt =====
-- watchMachine and StopAll of internal/daemon/deploy.go. What watchMachine does once the process of
-- a machine has exited is one step.
pub mod Steps
use oakberryio.Prelude.{
  ℕ, Bool, true, false, ◌||◌, not, Option, none, some, List, [], ◌∷◌, Text, ◌==◌, nat_eq,
  if◌then◌else◌,
}
use oakberryio.Prelude.Dict.{Dict}
use oakberryio.Prelude.Results.{Result, ok, err}
use oakberryio.Store.{Db, Machine, MachineState, running, stopped}
use oakberryio.Store.Machines.{machine, set_machine_state, coalesce, state_eq}
use oakberryio.Deploy
use oakberryio.Deploy.{Env, World, Handle}
use oakberryio.Deploy.State.{with_db, remove_handle, record_effect}
use oakberryio.Deploy.Launch.{delete_row}
use oakberryio.Deploy.Ingress.{apply_tunnel}

unfoldable pub mark_stopped : Text → World → World
mark_stopped id w = elim (set_machine_state id stopped 0 w.db) [ ok db ↦ with_db db w | err e ↦ w ]

unfoldable pub retire : Env → Text → World → World
retire env id w = (apply_tunnel env (delete_row id (remove_handle id (mark_stopped id w)))).1

-- The row is another's: it is not running, or with another process.
unfoldable pub superseded : Handle → Machine → Bool
superseded handle m = not (m.state == running) || not (coalesce m.pid == handle.pid)

unfoldable pub watch_machine : Env → Text → Handle → World → World
watch_machine env id handle w = if w.shutting_down then w else elim (machine id w.db) [
  | err e ↦ w
  | ok m ↦ if superseded handle m then w else retire env id w
]

unfoldable pub stop_handles : Dict Handle → World → World
stop_handles [] w = w
stop_handles ((id, h) ∷ hs) w =
    stop_handles hs (remove_handle id (record_effect (Deploy.stopped h) w))

unfoldable pub stop_all : World → World
stop_all w = let w' = record w { shutting_down = true } in stop_handles w'.handles w'
