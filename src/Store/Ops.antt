-- ===== src/Store/Ops.antt =====
-- The operations of store.go that write, as values, and what they do to the database one after
-- another. An operation that fails leaves the database as it was.
pub mod Invariant
pub mod Admission
pub mod Owners
pub mod Tenants
use oakberryio.Prelude.{ℕ, List, [], ◌∷◌, Text}
use oakberryio.Prelude.Results.{Result, ok, err}
use oakberryio.Store.{Db, MachineState}
use oakberryio.Store.Apps
use oakberryio.Store.Releases
use oakberryio.Store.Machines
use oakberryio.Store.Subnets
use oakberryio.Store.Secrets
use oakberryio.Store.Volumes

pub data Op : Type 0 where
  upsert_app : Text → Text → Op
  set_app_owner : Text → Text → Op
  delete_app : Text → Op
  insert_release : Text → Text → Text → Text → Text → Text → ℕ → Op
  delete_releases_for_app : Text → Op
  insert_machine : Text → Text → ℕ → Text → Text → ℕ → Op
  alloc_and_insert_machine : Text → Text → ℕ → Text → ℕ → ℕ → Op
  set_machine_state : Text → MachineState → ℕ → Op
  delete_machine : Text → Op
  subnet_for_owner : Text → Op
  put_secret : Text → Text → Text → Op
  delete_secret : Text → Text → Op
  delete_secrets_for_app : Text → Op
  create_volume : Text → Text → Text → ℕ → Op
  delete_volumes_for_app : Text → Op

abbrev pub or_same : Db → Result Db → Db
or_same db (ok db') = db'
or_same db (err e) = db

abbrev pub or_same_with : {A : Type 0} → Db → Result (A × Db) → Db
or_same_with db (ok (a, db')) = db'
or_same_with db (err e) = db

unfoldable pub perform : Op → Db → Db
perform (upsert_app name config) db = Apps.upsert_app name config db
perform (set_app_owner name owner) db = Apps.set_app_owner name owner db
perform (delete_app name) db = or_same db (Apps.delete_app name db)
perform (insert_release app image rootfs cmd env workdir now) db =
    or_same_with db (Releases.insert_release app image rootfs cmd env workdir now db)
perform (delete_releases_for_app app) db = Releases.delete_releases_for_app app db
perform (insert_machine id app rel ip tap now) db =
    or_same db (Machines.insert_machine id app rel ip tap now db)
perform (alloc_and_insert_machine id app rel tap idx now) db =
    or_same_with db (Machines.alloc_and_insert_machine id app rel tap idx now db)
perform (set_machine_state id state pid) db =
    or_same db (Machines.set_machine_state id state pid db)
perform (delete_machine id) db = Machines.delete_machine id db
perform (subnet_for_owner owner) db = or_same_with db (Subnets.subnet_for_owner owner db)
perform (put_secret app key ciphertext) db = Secrets.put_secret app key ciphertext db
perform (delete_secret app key) db = Secrets.delete_secret app key db
perform (delete_secrets_for_app app) db = Secrets.delete_secrets_for_app app db
perform (create_volume app name path size_gb) db =
    or_same db (Volumes.create_volume app name path size_gb db)
perform (delete_volumes_for_app app) db = Volumes.delete_volumes_for_app app db

unfoldable pub perform_all : List Op → Db → Db
perform_all [] db = db
perform_all (op ∷ ops) db = perform_all ops (perform op db)
