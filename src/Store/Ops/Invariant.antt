-- ===== src/Store/Ops/Invariant.antt =====
-- The constraints of the schema under histories of operations.
use oakberryio.Prelude.{◌≡◌, refl, List, [], ◌∷◌}
use oakberryio.Prelude.Results.{Result, ok, err}
use oakberryio.Store.{Db}
use oakberryio.Store.Ops.{Op, or_same, or_same_with, perform, perform_all}
use oakberryio.Store.WellFormed.{WellFormed}
use oakberryio.Store.WellFormed.Apps.{
  upsert_app-WellFormed, set_app_owner-WellFormed, delete_app-WellFormed, insert_release-WellFormed,
  delete_releases_for_app-WellFormed,
}
use oakberryio.Store.WellFormed.Machines.{
  insert_machine-WellFormed, alloc_and_insert_machine-WellFormed, set_machine_state-WellFormed,
  delete_machine-WellFormed,
}
use oakberryio.Store.WellFormed.Others.{
  put_secret-WellFormed, delete_secret-WellFormed, delete_secrets_for_app-WellFormed,
  create_volume-WellFormed, delete_volumes_for_app-WellFormed, subnet_for_owner-WellFormed,
}

or_same-WellFormed :
    {db : Db} (r : Result Db)
    → WellFormed db
    → ((db' : Db) → r ≡ ok db' → WellFormed db')
    → WellFormed (or_same db r)
or_same-WellFormed (ok db') h step = step db' refl
or_same-WellFormed (err e) h step = h

or_same_with-WellFormed :
    {A : Type 0} {db : Db} (r : Result (A × Db))
    → WellFormed db
    → ((a : A) (db' : Db) → r ≡ ok (a, db') → WellFormed db')
    → WellFormed (or_same_with db r)
or_same_with-WellFormed (ok (a, db')) h step = step a db' refl
or_same_with-WellFormed (err e) h step = h

-- Every operation, failing or not, keeps the constraints.
pub perform-WellFormed : (op : Op) {db : Db} → WellFormed db → WellFormed (perform op db)
unfolding perform
perform-WellFormed (Op.upsert_app name config) h = upsert_app-WellFormed h name config
perform-WellFormed (Op.set_app_owner name owner) h = set_app_owner-WellFormed h name owner
perform-WellFormed (Op.delete_app name) h =
    or_same-WellFormed _ h (λ db' e. delete_app-WellFormed h name e)
perform-WellFormed (Op.insert_release app image rootfs cmd env workdir now) h =
    or_same_with-WellFormed _ h
      (λ id db' e. insert_release-WellFormed h app image rootfs cmd env workdir now e)
perform-WellFormed (Op.delete_releases_for_app app) h = delete_releases_for_app-WellFormed h app
perform-WellFormed (Op.insert_machine id app rel ip tap now) h =
    or_same-WellFormed _ h (λ db' e. insert_machine-WellFormed h id app rel ip tap now e)
perform-WellFormed (Op.alloc_and_insert_machine id app rel tap idx now) h =
    or_same_with-WellFormed _ h
      (λ ip db' e. alloc_and_insert_machine-WellFormed h id app rel tap idx now e)
perform-WellFormed (Op.set_machine_state id state pid) h =
    or_same-WellFormed _ h (λ db' e. set_machine_state-WellFormed h id state pid e)
perform-WellFormed (Op.delete_machine id) h = delete_machine-WellFormed h id
perform-WellFormed (Op.subnet_for_owner owner) h =
    or_same_with-WellFormed _ h (λ idx db' e. subnet_for_owner-WellFormed h owner e)
perform-WellFormed (Op.put_secret app key ct) h = put_secret-WellFormed h app key ct
perform-WellFormed (Op.delete_secret app key) h = delete_secret-WellFormed h app key
perform-WellFormed (Op.delete_secrets_for_app app) h = delete_secrets_for_app-WellFormed h app
perform-WellFormed (Op.create_volume app name path size_gb) h =
    or_same-WellFormed _ h (λ db' e. create_volume-WellFormed h app name path size_gb e)
perform-WellFormed (Op.delete_volumes_for_app app) h = delete_volumes_for_app-WellFormed h app

pub perform_all_keeps : (ops : List Op) {db : Db} → WellFormed db → WellFormed (perform_all ops db)
unfolding perform_all
perform_all_keeps [] h = h
perform_all_keeps (op ∷ ops) h = perform_all_keeps ops (perform-WellFormed op h)
