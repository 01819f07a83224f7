-- ===== src/Deploy/ReleaseCommand/Transient.antt =====
-- The row of the machine that runs the release command: it is added by allocate, left by what the machine
-- does, and deleted at the end.
use oakberryio.Prelude.{
  ◌≡◌, ◌∙◌, refl, ap, subst, arith, false, ℕ, List, ◌∷◌, Text, ==_refl, text_eq,
}
use oakberryio.Prelude.Results.{ok}
use oakberryio.Effects.{Exec, finally}
use oakberryio.Effects.Keeps.{
  Keeps, Keeps-finally, Ensures, Ensures-bind, Ensures-Keeps, Ensures-pure, Restores, Restores-bind,
  Restores-map, keeps_rules,
}
use oakberryio.Table.{has, delete_by}
use oakberryio.Table.Laws.{delete_by_absent}
use oakberryio.Appconfig.{Config}
use oakberryio.Store.{Db, Machine, Release}
use oakberryio.Store.Machines.{alloc_and_insert_machine, delete_machine}
use oakberryio.Store.Subnets.{subnet_for_owner}
use oakberryio.Store.WellFormed.Machines.{
  machine_row, insert_machine_inv, alloc_and_insert_machine_inv,
}
use oakberryio.Deploy.{Env, World, Effect}
use oakberryio.Deploy.State.{
  subnet_for_app, ensure_bridge, tap_name, with_db, write_db_with, record_effect,
}
use oakberryio.Deploy.Frame.{On, Keeps-emit, Keeps-describe, Keeps-start}
use oakberryio.Deploy.Writes.{
  write_db_with-Ensures, write_db_with-Restores, Keeps-write_db_with, Keeps-new_machine_id,
}
use oakberryio.Deploy.Launch.{Place, delete_row}
use oakberryio.Deploy.Boot.{allocate}
use oakberryio.Deploy.ReleaseCommand.{await_exit, run_machine}

abbrev pub id_of : Machine → Text
id_of m = m.id

-- The table of machines is `ms`.
abbrev pub Rows : List Machine → Db → Type 0
Rows ms db = db.machines ≡ ms

-- It has one row more, with a new id.
abbrev pub More : List Machine → Text → Db → Type 0
More ms id db = (m : Machine) × (db.machines ≡ m ∷ ms) × (m.id ≡ id) × (has id_of id ms ≡ false)

subnet_for_owner-machines :
    (owner : Text) (db : Db) {idx : ℕ} {db' : Db}
    → subnet_for_owner owner db ≡ ok (idx, db')
    → db'.machines ≡ db.machines
unfolding subnet_for_owner
subnet_for_owner-machines owner db e = ground arith

module _ (ms : List Machine) where
  Keeps-subnet_for_owner :
      (owner : Text) → Keeps (On (Rows ms)) (write_db_with (subnet_for_owner owner))
  Keeps-subnet_for_owner owner =
      Keeps-write_db_with _
        (λ db idx db' p e. subnet_for_owner-machines owner db {idx = idx} {db' = db'} e ∙ p)

  Keeps-subnet_for_app : (app : Text) → Keeps (On (Rows ms)) (subnet_for_app app)
  unfolding subnet_for_app
  Keeps-subnet_for_app app = search (keeps_rules, Keeps-subnet_for_owner)

  inserted :
      (id app tap : Text) (rel idx now : ℕ) (db : Db) {ip : Text} {db' : Db}
      → Rows ms db
      → alloc_and_insert_machine id app rel tap idx now db ≡ ok (ip, db')
      → More ms id db'
  inserted id app tap rel idx now db {ip} {db'} p e =
      let (taken, ins) =
        alloc_and_insert_machine_inv id app rel tap idx now db {ip = ip} {db' = db'} e in
      let (new_id, new_ip, there, same) =
        insert_machine_inv id app rel ip tap now db {db' = db'} ins in
      (
        machine_row id app rel ip tap now,
        rw (same, p) refl,
        refl,
        subst (λ (l : List Machine). has id_of id l ≡ false) p new_id,
      )

  module _ (env : Env) (app : Text) (rel : Release) where
    pub allocate-Restores : Restores (On (Rows ms)) (allocate env app rel)
    unfolding allocate ensure_bridge
    allocate-Restores = Restores-bind _ _ Keeps-new_machine_id (λ id.
        Restores-bind _ _ (Keeps-subnet_for_app app) (λ idx.
          Restores-bind _ _ (search keeps_rules)
            (λ net. Restores-map _ _ (write_db_with-Restores _))))

    pub allocate-More :
        Ensures (On (Rows ms)) (allocate env app rel) (λ place w. On (More ms place.id) w)
    unfolding allocate ensure_bridge
    allocate-More = Ensures-bind _ _ (Ensures-Keeps _ Keeps-new_machine_id) (λ id.
        Ensures-bind _ _ (Ensures-Keeps _ (Keeps-subnet_for_app app)) (λ idx.
          Ensures-bind _ _ (Ensures-Keeps _ (search keeps_rules)) (λ net.
            Ensures-bind _ _
              (write_db_with-Ensures _ (λ db ip db' p e.
                inserted id app (tap_name id) rel.id idx env.now db {ip = ip} {db' = db'} p e))
              (λ ip. Ensures-pure _ (λ w h. h)))))

  Keeps-stopping :
      {A : Type 0} {P : Db → Type 0} (m : Exec World A) (e : Effect)
      → Keeps (On P) m
      → Keeps (On P) (finally m (record_effect e))
  unfolding record_effect
  Keeps-stopping m e km = Keeps-finally m _ km (λ w p. record { store = p.store })

  module _ (env : Env) (cfg : Config) (rel : Release) where
    pub Keeps-run_machine :
        {P : Db → Type 0} (image_env : List Text) (place : Place)
        → Keeps (On P) (run_machine env cfg rel image_env place)
    unfolding run_machine await_exit
    Keeps-run_machine image_env place =
        search (keeps_rules, Keeps-describe, Keeps-start, Keeps-emit, Keeps-stopping) depth 10

    pub deleted : (id : Text) (w : World) → On (More ms id) w → On (Rows ms) (delete_row id w)
    unfolding delete_row delete_machine with_db delete_by
    deleted id w h =
        let (m, same, its, new) = h.store in
        record {
          store =
              ap (delete_by id_of id) same
              ∙ ground (arith, its, delete_by_absent id_of id ms new, ==_refl id);
        }
