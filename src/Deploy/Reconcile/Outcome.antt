-- ===== src/Deploy/Reconcile/Outcome.antt =====
-- What Reconcile of internal/daemon/daemon.go leaves of the rows of the machines.
use oakberryio.Prelude.{
  ◌≡◌, ◌∙◌, ap, refl, arith, ℕ, true, any, any-sort, List, [], ◌∷◌, Text, ◌==◌, nat_eq, text_eq,
  All, map,
}
use oakberryio.Deploy.Reconcile.{reconcile_one, reconcile_each, reconcile}
use oakberryio.Prelude.Dict.{Dict}
use oakberryio.Effects.{modify}
use oakberryio.Effects.Keeps.{Keeps, Keeps-modify, keeps_rules}
use oakberryio.Table.{select_by}
use oakberryio.Table.Laws.{All-imp, any-select_by, map-update_by}
use oakberryio.Store.{Machine, running, failed}
use oakberryio.Store.Machines.{running_machines, newest_first, set_machine_state, pid_arg, state_eq}
use oakberryio.Deploy.{Env, World, Handle}
use oakberryio.Deploy.State.{set_handle, write_db, with_db, ensure_bridge, mkdir_all}
use oakberryio.Deploy.Launch.{mark_failed}
use oakberryio.Deploy.Reconcile.Tracked.{tracked, Settled, to_come}
use oakberryio.Deploy.Reconcile.Frame.{
  Rows, Keeps-start, Keeps-app_config, Keeps-subnet_for_app, Keeps-apply_tunnel,
  Keeps-remove_stale_sockets,
}
use oakberryio.Deploy.Reconcile.Turn.{mark_failed-machines, either_way, reconcile_or_fail-Settled}

reconcile_each-Settled :
    (env : Env) (ms : List Machine) (w : World)
    → Rows (Settled ms) w
    → Rows (Settled []) (reconcile_each env ms w)
unfolding reconcile_each
reconcile_each-Settled env [] w k = k
reconcile_each-Settled env (m ∷ ms) w k =
    reconcile_each-Settled env ms _ (reconcile_or_fail-Settled m ms env w k)

running_to_come : (w : World) → Rows (Settled (running_machines w.db)) w
unfolding running_machines newest_first
running_to_come w = record {
  holds =
      All-imp w.db.machines
        (λ r e.
          rw
            (
              any-sort (λ m. m.id == r.id) _
                  (select_by (λ (m : Machine). m.state) running w.db.machines),
              any-select_by (λ (m : Machine). m.state) running (λ m. m.id == r.id) w.db.machines,
            )
            e)
        (to_come w.db.machines w.handles w.db.machines (λ q e. e));
}

-- No row comes or goes.
abbrev Ids : List Text → List Machine → Dict Handle → Type 0
Ids ids rows hs = map (λ (m : Machine). m.id) rows ≡ ids

module _ (ids : List Text) where
  write-Ids :
      (id : Text) (pid : ℕ) → Keeps (Rows (Ids ids)) (write_db (set_machine_state id running pid))
  unfolding write_db set_machine_state with_db
  write-Ids id pid = record { at = λ w k. record { holds = same w ∙ k.holds } }
    where
      same :
          (w : World)
          → map
              (λ (m : Machine). m.id)
              (write_db (set_machine_state id running pid) w).1.db.machines
            ≡ map (λ (m : Machine). m.id) w.db.machines
      same w = ground (
        arith,
        map-update_by (λ (m : Machine). m.id) (λ m. record m { state = running; pid = pid_arg pid })
            (λ m. refl) id w.db.machines,
      )

  handle-Ids : (id : Text) (h : Handle) → Keeps (Rows (Ids ids)) (modify (set_handle id h))
  unfolding set_handle
  handle-Ids id h = Keeps-modify _ (λ w k. record { holds = k.holds })

  reconcile_one-Ids : (env : Env) (m : Machine) → Keeps (Rows (Ids ids)) (reconcile_one env m)
  unfolding reconcile_one ensure_bridge mkdir_all
  reconcile_one-Ids env m =
      search
        (
          keeps_rules, Keeps-app_config, Keeps-subnet_for_app, Keeps-remove_stale_sockets,
          Keeps-start, write-Ids, handle-Ids,
        )
        depth 30

  mark_failed-Ids : (id : Text) (w : World) → Rows (Ids ids) w → Rows (Ids ids) (mark_failed id w)
  mark_failed-Ids id w k = record {
    holds =
        ap (map (λ (m : Machine). m.id)) (mark_failed-machines id w)
        ∙ map-update_by (λ (m : Machine). m.id) (λ m. record m { state = failed; pid = pid_arg 0 })
            (λ m. refl) id w.db.machines
        ∙ k.holds;
  }

  reconcile_each-Ids :
      (env : Env) (ms : List Machine) (w : World)
      → Rows (Ids ids) w
      → Rows (Ids ids) (reconcile_each env ms w)
  unfolding reconcile_each
  reconcile_each-Ids env [] w k = k
  reconcile_each-Ids env (m ∷ ms) w k = reconcile_each-Ids env ms _ (
      either_way env m w (Rows (Ids ids))
        (λ e r. mark_failed-Ids m.id _ ((reconcile_one-Ids env m).at w k))
        (λ a r. (reconcile_one-Ids env m).at w k))

-- Whichever starts fail, and whether the tunnel is set up in the end or not: after Reconcile the
-- table has the rows of the same machines as before, and each row that says "running" has a handle of
-- this daemon, and the pid of its process.
pub reconcile-Tracked :
    (env : Env) (w : World)
    → (map (λ (m : Machine). m.id) (reconcile env w).1.db.machines
        ≡ map (λ (m : Machine). m.id) w.db.machines)
      × All (λ m. tracked (reconcile env w).1.handles m ≡ true) (reconcile env w).1.db.machines
unfolding reconcile any
reconcile-Tracked env w = (
  ((Keeps-apply_tunnel env).at _
      (reconcile_each-Ids _ env (running_machines w.db) w (record { holds = refl }))).holds,
  ((Keeps-apply_tunnel env).at _
      (reconcile_each-Settled env (running_machines w.db) w (running_to_come w))).holds,
)
