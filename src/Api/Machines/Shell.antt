-- ===== src/Api/Machines/Shell.antt =====
-- Which guest handleSSH of internal/daemon/api.go connects to.
use oakberryio.Prelude.{
  ◌≡◌, ◌∙◌, refl, sym, arith, Bool, true, false, ◌&&◌, none, some, List, [], ◌∷◌, Text, ◌==◌,
  text_eq, if◌then◌else◌, any, any-sort, inl, inr, ==_refl, Option-cases,
}
use oakberryio.Store.{Db, Machine, running}
use oakberryio.Store.Machines.{machines_for_app, newest_first, state_eq}
use oakberryio.Table.{select_by}
use oakberryio.Table.Laws.{any-select_by}
use oakberryio.Deploy.{World, dialled}
use oakberryio.Deploy.State.{record_effect, socket_dir, vsock_socket_path}
use oakberryio.Appconfig.{valid_name}
use oakberryio.Api.{Server, respond, refuse, for_app}
use oakberryio.Api.Machines.{first_running, ssh_to, handle_ssh, not_found, bad_gateway}

-- the row of a machine of this app that runs
abbrev pub runs_for : Text → Machine → Bool
runs_for app m = m.app == app && m.state == running

any-first_running :
    (ms : List Machine)
    → any (λ m. m.state == running) ms ≡ elim (first_running ms) [ none ↦ false | some _ ↦ true ]
unfolding any first_running
any-first_running [] = refl
any-first_running (m ∷ ms) = ground (arith, any-first_running ms)

first_running-inv :
    (ms : List Machine) {m : Machine}
    → first_running ms ≡ some m
    → any (λ r. r.id == m.id && r.state == running) ms ≡ true
unfolding any first_running
first_running-inv [] h = cc
first_running-inv (n ∷ ms) {m} h = ground (arith, first_running-inv ms {m = m}, ==_refl m.id)

-- The rows of the table, for a test of the machines of the app.
any-machines_for_app :
    (app : Text) (q : Machine → Bool) (db : Db)
    → any q (machines_for_app app db) ≡ any (λ m. m.app == app && q m) db.machines
unfolding machines_for_app newest_first
any-machines_for_app app q db =
    any-sort q _ (select_by (λ (m : Machine). m.app) app db.machines)
    ∙ any-select_by (λ (m : Machine). m.app) app q db.machines

-- The outcomes of a request for a shell: no machine of this app runs, and it is refused; or the agent
-- of a running machine of this very app is dialled, and the bridge is set up or refused.
pub data Connects (s : Server) (app : Text) (w : World) : Type 0 where
  nothing_runs :
      any (λ m. m.app == app && m.state == running) w.db.machines ≡ false
      → handle_ssh s app w ≡ refuse not_found w
      → Connects s app w
  dials :
      (id : Text)
      → any (λ m. m.app == app && (m.id == id && m.state == running)) w.db.machines ≡ true
      → handle_ssh s app w ≡ (
          let socket = vsock_socket_path (socket_dir s.deployer) id in
          if s.dial_vsock socket
          then respond 200 [] (record_effect (dialled socket) w)
          else refuse bad_gateway w)
      → Connects s app w

-- A request for a shell of a valid app name: it is refused if no machine of the app runs, and dials a
-- running machine of this app otherwise.
pub handle_ssh-Connects :
    (s : Server) (app : Text) (w : World) → valid_name app ≡ true → Connects s app w
unfolding handle_ssh for_app ssh_to
handle_ssh-Connects s app w valid =
    elim (Option-cases (first_running (machines_for_app app w.db))) [
      | inl e ↦
          nothing_runs
            (sym (any-machines_for_app app (λ m. m.state == running) w.db)
              ∙ any-first_running (machines_for_app app w.db)
              ∙ rw e refl)
            (rw valid (rw e refl))
      | inr (m, e) ↦
          dials m.id
            (sym (any-machines_for_app app (λ r. r.id == m.id && r.state == running) w.db)
              ∙ first_running-inv (machines_for_app app w.db) {m = m} e)
            (rw valid (rw e refl))
    ]
