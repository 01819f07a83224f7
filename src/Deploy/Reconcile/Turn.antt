-- ===== src/Deploy/Reconcile/Turn.antt =====
-- One machine's turn in the loop of Reconcile of internal/daemon/daemon.go.
use oakberryio.Prelude.{
  ◌≡◌, ap, refl, subst, sym, arith, ℕ, some, List, ◌∷◌, Text, nat_eq, text_eq, ==_refl,
}
use oakberryio.Deploy.Reconcile.{reconcile_one, reconcile_or_fail}
use oakberryio.Deploy.Writes.{write_db_inv}
use oakberryio.Prelude.Results.{Error, Result, ok, err}
use oakberryio.Prelude.Dict.{lookup, lookup-insert}
use oakberryio.Effects.{Exec, modify, ◌>>=◌, ◌>>◌}
use oakberryio.Effects.Keeps.{
  Keeps, Keeps-modify, Keeps-asks, Keeps-lift, Ensures, Ensures-bind, Ensures-Keeps, Ensures-modify,
  Restores, Restores-bind,
}
use oakberryio.Table.{update_by}
use oakberryio.Table.Laws.{update_by_absent}
use oakberryio.Store.{Db, Machine, running, failed}
use oakberryio.Store.Machines.{set_machine_state, pid_arg, state_eq}
use oakberryio.Deploy.{Env, World, Handle}
use oakberryio.Deploy.State.{set_handle, write_db, with_db, ensure_bridge, mkdir_all}
use oakberryio.Deploy.Launch.{mark_failed}
use oakberryio.Deploy.Reconcile.Tracked.{
  Settled, set_handle-Settled, running-Settled, failed-Settled,
}
use oakberryio.Deploy.Reconcile.Frame.{
  Rows, Keeps-start, Keeps-app_config, Keeps-subnet_for_app, Keeps-remove_stale_sockets,
}

-- What comes before the start of the machine's process.
abbrev Pending : Machine → List Machine → World → Type 0
Pending m ms = Rows (Settled (m ∷ ms))

pub mark_failed-machines :
    (id : Text) (w : World)
    → (mark_failed id w).db.machines
      ≡ update_by
          (λ (r : Machine). r.id)
          id
          (λ r. record r { state = failed; pid = pid_arg 0 })
          w.db.machines
unfolding mark_failed set_machine_state with_db
mark_failed-machines id w = ground (
  arith,
  update_by_absent (λ (r : Machine). r.id) id (λ r. record r { state = failed; pid = pid_arg 0 })
      w.db.machines,
)

pub mark_failed-handles : (id : Text) (w : World) → (mark_failed id w).handles ≡ w.handles
unfolding mark_failed with_db
mark_failed-handles id w = ground arith

-- What holds after a machine's turn, whether its start failed or not.
pub either_way :
    (env : Env) (m : Machine) (w : World) (Q : World → Type 0)
    → ((e : Error)
        → (reconcile_one env m w).0 ≡ err e
        → Q (mark_failed m.id (reconcile_one env m w).1))
    → ((a : Unit {0}) → (reconcile_one env m w).0 ≡ ok a → Q (reconcile_one env m w).1)
    → Q (reconcile_or_fail env m w)
unfolding reconcile_or_fail
either_way env m w Q = by_result (reconcile_one env m w).0
  where
    by_result :
        (r : Result (Unit {0})) {w' : World}
        → ((e : Error) → r ≡ err e → Q (mark_failed m.id w'))
        → ((a : Unit {0}) → r ≡ ok a → Q w')
        → Q (elim r [ ok _ ↦ w' | err e ↦ mark_failed m.id w' ])
    by_result (ok a) bad good = good a refl
    by_result (err e) bad good = bad e refl

module _ (m : Machine) (ms : List Machine) where
  set_state-machines :
      (pid : ℕ) (db db' : Db)
      → set_machine_state m.id running pid db ≡ ok db'
      → db'.machines
        ≡ update_by
            (λ (r : Machine). r.id)
            m.id
            (λ r. record r { state = running; pid = pid_arg pid })
            db.machines
  unfolding set_machine_state
  set_state-machines pid db db' e = ground arith

  write_db-handles : (f : Db → Result Db) (w : World) → (write_db f w).1.handles ≡ w.handles
  unfolding write_db with_db
  write_db-handles f w = ground arith

  Keeps-set_handle : (h : Handle) → Keeps (Pending m ms) (modify (set_handle m.id h))
  unfolding set_handle
  Keeps-set_handle h =
      Keeps-modify _
        (λ w k. record { holds = set_handle-Settled m ms h w.db.machines w.handles k.holds })

  handle_set :
      (h : Handle)
      → Ensures
          (Pending m ms)
          (modify (set_handle m.id h))
          (λ _. Rows (λ rows hs. (lookup m.id hs ≡ some h) × Settled (m ∷ ms) rows hs))
  unfolding set_handle
  handle_set h = Ensures-modify _ (λ w k. record {
    holds = (
      rw (lookup-insert m.id m.id h w.handles, ==_refl m.id) refl,
      set_handle-Settled m ms h w.db.machines w.handles k.holds,
    );
  })

  state_set :
      (h : Handle)
      → Ensures
          (Rows (λ rows hs. (lookup m.id hs ≡ some h) × Settled (m ∷ ms) rows hs))
          (write_db (set_machine_state m.id running h.pid))
          (λ _. Rows (Settled ms))
  state_set h = record {
    at = λ w k a w' e. record {
      holds =
          rw
            (
              set_state-machines h.pid w.db w'.db (write_db_inv _ w e),
              ← ap (λ p. p.1.handles) e,
              write_db-handles (set_machine_state m.id running h.pid) w,
            )
            (running-Settled m ms h w.db.machines w.handles k.holds.0 k.holds.1);
    };
  }

  write_db-Restores : (f : Db → Result Db) → Restores (Pending m ms) (write_db f)
  unfolding write_db
  write_db-Restores f = record { at = λ w k e x. subst (Pending m ms) (sym (unchanged w x)) k }
    where
      unchanged : (w : World) {e : Error} → (write_db f w).0 ≡ err e → (write_db f w).1 ≡ w
      unchanged w x = ground arith

  -- Where the action fails the machine is to come still, and where it succeeds it is done with.
  abbrev Turn : {A : Type 0} → Exec World A → Type 0
  Turn act = Restores (Pending m ms) act × Ensures (Pending m ms) act (λ _. Rows (Settled ms))

  Turn-bind :
      {A B : Type 0} (act : Exec World A) (rest : A → Exec World B)
      → Keeps (Pending m ms) act
      → ((value : A) → Turn (rest value))
      → Turn (act >>= rest)
  Turn-bind act rest ka tr = (
    Restores-bind act rest ka (λ value. (tr value).0),
    Ensures-bind act rest (Ensures-Keeps act ka) (λ value. (tr value).1),
  )

  started-Turn :
      (h : Handle)
      → Turn (modify (set_handle m.id h) >> write_db (set_machine_state m.id running h.pid))
  started-Turn h = (
    Restores-bind _ _ (Keeps-set_handle h) (λ done. write_db-Restores _),
    Ensures-bind _ _ (handle_set h) (λ done. state_set h),
  )

  reconcile_one-Turn : (env : Env) → Turn (reconcile_one env m)
  unfolding reconcile_one ensure_bridge mkdir_all
  reconcile_one-Turn env = Turn-bind _ _ (Keeps-app_config env m.app) (λ cfg.
      Turn-bind _ _ (Keeps-asks _) (λ rel. Turn-bind _ _ (Keeps-lift _) (λ rc.
        Turn-bind _ _ (Keeps-lift _) (λ image_env. Turn-bind _ _ (Keeps-asks _) (λ vols.
          Turn-bind _ _ (Keeps-asks _) (λ env_map. Turn-bind _ _ (Keeps-lift _) (λ mac.
            Turn-bind _ _ (Keeps-subnet_for_app m.app) (λ idx. Turn-bind _ _ (Keeps-lift _) (λ net.
              Turn-bind _ _ (Keeps-lift _) (λ dir.
                Turn-bind _ _ (Keeps-remove_stale_sockets env m.id)
                  (λ gone. Turn-bind _ _ (Keeps-start env _ _) (λ h. started-Turn h))))))))))))

  mark_failed-Settled : (w : World) → Pending m ms w → Rows (Settled ms) (mark_failed m.id w)
  mark_failed-Settled w k = record {
    holds =
        rw (mark_failed-machines m.id w, mark_failed-handles m.id w)
          (failed-Settled m ms w.db.machines w.handles k.holds);
  }

  pub reconcile_or_fail-Settled :
      (env : Env) (w : World) → Pending m ms w → Rows (Settled ms) (reconcile_or_fail env m w)
  reconcile_or_fail-Settled env w k =
      either_way env m w (Rows (Settled ms))
        (λ e r. mark_failed-Settled _ ((reconcile_one-Turn env).0.at w k e r))
        (λ a r. (reconcile_one-Turn env).1.at w k a _ (λ i. (r i, (reconcile_one env m w).1)))
