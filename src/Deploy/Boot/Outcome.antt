-- ===== src/Deploy/Boot/Outcome.antt =====
-- What bootFromRelease leaves in the store.
use oakberryio.Prelude.{
  ◌≡◌, ◌∙◌, refl, ℕ, some, List, [], ◌∷◌, Text, arith, All, ==_refl, text_eq, inl, inr,
}
use oakberryio.Prelude.Results.{Error, ok, Result-cases}
use oakberryio.Effects.{modify}
use oakberryio.Effects.Keeps.{
  Keeps, Keeps-bind, Keeps-modify, Ensures, Ensures-bind, Ensures-Keeps, Ensures-pure,
  Ensures-modify, Ensures-on_error, keeps_rules,
}
use oakberryio.Table.{find_by}
use oakberryio.Table.Laws.{All-imp, find_by-update_by, has-find_by}
use oakberryio.Appconfig.{Config, Service}
use oakberryio.Vm.{Spec}
use oakberryio.Mmds.{Guest}
use oakberryio.Store.{Db, Release, Machine, running}
use oakberryio.Store.Machines.{alloc_and_insert_machine, set_machine_state, pid_arg, state_eq}
use oakberryio.Store.WellFormed.Machines.{
  machine_row, insert_machine_inv, alloc_and_insert_machine_inv,
}
use oakberryio.Deploy.{Env, World, Handle}
use oakberryio.Deploy.State.{set_handle, tap_name}
use oakberryio.Deploy.Frame.{
  On, Keeps-emit, Keeps-apply_tunnel, Keeps-describe, Keeps-await_healthy, Keeps-start,
}
use oakberryio.Deploy.Ingress.{apply_tunnel}
use oakberryio.Deploy.Writes.{write_db-Ensures, write_db_with-Ensures, anything}
use oakberryio.Deploy.Launch.{Place}
use oakberryio.Deploy.Boot.{
  is_old, stop_old_machines, allocate, announce_wait, launch, tolerate_restart, publish, cut_over,
  boot_from_release,
}
use oakberryio.Deploy.Boot.CutOver.{stop_old_machines-none, stop_old_machines-keeps}

abbrev id_of : Machine → Text
id_of m = m.id

-- The row of the machine, and what it says.
abbrev Row : (Machine → Type 0) → Text → Db → Type 0
Row Q id db = (m : Machine) × (find_by id_of id db.machines ≡ some m) × Q m

-- The machine is the app's.
abbrev Placed : Text → Text → Db → Type 0
Placed app = Row (λ m. m.app ≡ app)

-- The machine runs for the app, and no other machine of the app does.
pub record Serves (app id : Text) (db : Db) : Type 0 where
  pub row : Row (λ m. (m.app ≡ app) × (m.state ≡ running)) id db
  pub alone : All (λ m. m.app ≡ app → m.state ≡ running → m.id ≡ id) db.machines

module _ {P : Db → Type 0} where
  Keeps-tolerate_restart : (env : Env) (e : Error) → Keeps (On P) (tolerate_restart env e)
  unfolding tolerate_restart
  Keeps-tolerate_restart env e = search (keeps_rules, Keeps-emit)

  Keeps-publish : (env : Env) → Keeps (On P) (publish env)
  unfolding publish
  Keeps-publish env = record {
    at = λ w h. elim (Result-cases (apply_tunnel env w).0) [
      | inl (e, r) ↦
          rw (r, publish) ((Keeps-tolerate_restart env e).at _ ((Keeps-apply_tunnel env).at w h))
      | inr (a, r) ↦ rw (r, publish) ((Keeps-apply_tunnel env).at w h)
    ];
  }

  Keeps-set_handle : (id : Text) (h : Handle) → Keeps (On P) (modify (set_handle id h))
  unfolding set_handle
  Keeps-set_handle id h = Keeps-modify _ (λ w p. record { store = p.store })

  Keeps-announce_wait : (ss : List Service) → Keeps (On P) (announce_wait ss)
  unfolding announce_wait
  Keeps-announce_wait [] = search keeps_rules
  Keeps-announce_wait (s ∷ ss) = Keeps-emit _

-- The insertion of a machine makes its row.
inserted :
    (id app tap : Text) (rel idx now : ℕ) (db : Db) {ip : Text} {db' : Db}
    → alloc_and_insert_machine id app rel tap idx now db ≡ ok (ip, db')
    → Placed app id db'
unfolding find_by
inserted id app tap rel idx now db {ip} {db'} e =
    let (taken, ins) =
      alloc_and_insert_machine_inv id app rel tap idx now db {ip = ip} {db' = db'} e in
    let (new_id, new_ip, there, same) =
      insert_machine_inv id app rel ip tap now db {db' = db'} ins in
    rw same (machine_row id app rel ip tap now, rw (==_refl id) refl, refl)

allocate-Placed :
    (env : Env) (app : Text) (rel : Release)
    → Ensures (On (λ _. Unit)) (allocate env app rel) (λ place w. On (Placed app place.id) w)
unfolding allocate
allocate-Placed env app rel = Ensures-bind _ _ (anything _) (λ id.
    Ensures-bind _ _ (anything _) (λ idx. Ensures-bind _ _ (anything _) (λ net.
      Ensures-bind _ _
        (write_db_with-Ensures _ (λ db ip db' p e.
          inserted id app (tap_name id) rel.id idx env.now db {ip = ip} {db' = db'} e))
        (λ ip. Ensures-pure _ (λ w h. h)))))

module _ (env : Env) (cfg : Config) (place : Place) (spec : Spec) (guest : Guest) where
  launch-Placed :
      (app : Text)
      → Ensures
          (On (Placed app place.id))
          (launch env cfg place spec guest)
          (λ _ w. On (Placed app place.id) w)
  unfolding launch
  launch-Placed app = Ensures-bind _ _ (Ensures-Keeps _ (Keeps-emit _)) (λ _.
      Ensures-bind _ _ (Ensures-on_error _ _ (Ensures-Keeps _ (Keeps-start env spec guest)))
        (λ handle. Ensures-bind _ _ (Ensures-Keeps _ (Keeps-set_handle place.id handle)) (λ _.
          Ensures-bind _ _ (Ensures-Keeps _ (Keeps-announce_wait cfg.services)) (λ _.
            Ensures-bind _ _
              (Ensures-on_error _ _
                (Ensures-Keeps _ (Keeps-await_healthy env cfg.services place.ip)))
              (λ _. Ensures-pure _ (λ w h. h))))))

-- The row says `running`.
set_running :
    (id app : Text) (pid : ℕ) (db db' : Db)
    → Placed app id db
    → set_machine_state id running pid db ≡ ok db'
    → Row (λ m. (m.app ≡ app) × (m.state ≡ running)) id db'
unfolding set_machine_state
set_running id app pid db db' (m, found, its) e = (
  record m { state = running; pid = pid_arg pid },
  ground (
    arith,
    has-find_by id_of id db.machines,
    find_by-update_by id_of (λ m. record m { state = running; pid = pid_arg pid }) (λ m. refl) id id
        db.machines,
    ==_refl id,
  ),
  (its, refl),
)

-- After stopOldMachines no other machine of the app runs.
old_stopped :
    (app id : Text) (w : World)
    → Row (λ m. (m.app ≡ app) × (m.state ≡ running)) id w.db
    → Serves app id (stop_old_machines app id w).db
unfolding is_old
old_stopped app id w (m, found, its) = record {
  row = (m, stop_old_machines-keeps app id w ∙ found, its);
  alone = All-imp _ (λ r none here runs. ground (arith, none)) (stop_old_machines-none app id w);
}

cut_over-Serves :
    (env : Env) (app id : Text) (handle : Handle)
    → Ensures (On (Placed app id)) (cut_over env app id handle) (λ _ w. On (Serves app id) w)
unfolding cut_over
cut_over-Serves env app id handle =
    Ensures-bind _ _ (write_db-Ensures _ (λ db db' p e. set_running id app handle.pid db db' p e))
      (λ _.
        Ensures-bind _ _ (Ensures-modify _ (λ w h. record { store = old_stopped app id w h.store }))
          (λ _. Ensures-Keeps _ (Keeps-bind _ _ (Keeps-emit _) (λ _. Keeps-publish env))))

-- bootFromRelease that succeeds with an id: the machine of this id is the app's, it runs, and no
-- other machine of the app does.
pub boot_from_release-Serves :
    (env : Env) (cfg : Config) (rel : Release) (w w' : World) (id : Text)
    → boot_from_release env cfg rel w ≡ (ok id, w')
    → Serves cfg.app id w'.db
unfolding boot_from_release
boot_from_release-Serves env cfg rel w w' id e =
    (boot-Ensures.at w (record { store = tt }) id w' e).store
  where
    boot-Ensures :
        Ensures (On (λ _. Unit)) (boot_from_release env cfg rel) (λ id w. On (Serves cfg.app id) w)
    boot-Ensures = Ensures-bind _ _ (anything _) (λ rc. Ensures-bind _ _ (anything _) (λ image_env.
        Ensures-bind _ _ (anything _) (λ vols.
          Ensures-bind _ _ (allocate-Placed env cfg.app rel) (λ place.
            Ensures-bind _ _ (Ensures-Keeps _ (Keeps-describe env cfg rel place _ image_env))
              (λ machine.
                Ensures-bind _ _ (launch-Placed env cfg place machine.0 machine.1 cfg.app)
                  (λ handle.
                    Ensures-bind _ _ (cut_over-Serves env cfg.app place.id handle)
                      (λ _. Ensures-pure _ (λ w h. h))))))))
