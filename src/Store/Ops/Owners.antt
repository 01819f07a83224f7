-- ===== src/Store/Ops/Owners.antt =====
-- The owner column of apps under the operations of the store.
use oakberryio.Prelude.{
  ◌≡◌, ◌≢◌, ◌∙◌, refl, Bool, false, List, [], ◌∷◌, Text, t, arith, All, ◌==◌, text_eq,
  if◌then◌else◌, inl, inr,
}
use oakberryio.Prelude.Results.{ok, err, Result-cases}
use oakberryio.Table.{find_by}
use oakberryio.Table.Laws.{find_by-update_by, find_by-delete_by, has-find_by}
use oakberryio.Store.{Db, App}
use oakberryio.Store.Apps.{upsert_app, set_app_owner, delete_app, app_owner}
use oakberryio.Store.Releases.{insert_release, delete_releases_for_app}
use oakberryio.Store.Machines.{
  insert_machine, alloc_and_insert_machine, set_machine_state, delete_machine,
}
use oakberryio.Store.Subnets.{subnet_for_owner}
use oakberryio.Store.Secrets.{put_secret, delete_secret, delete_secrets_for_app}
use oakberryio.Store.Volumes.{create_volume, delete_volumes_for_app}
use oakberryio.Store.Ops.{Op, perform, perform_all}

abbrev name : App → Text
name a = a.name

abbrev with_config : Text → App → App
with_config config a = record a { config = config }

abbrev with_owner : Text → App → App
with_owner owner a = record a { owner = if a.owner == t "" then owner else a.owner }

-- upsertApp keeps the owner that there is, of every app; a new app has none.
pub app_owner-upsert_app :
    (j k config : Text) (db : Db)
    → app_owner j (upsert_app k config db) ≡ (
        if j == k
        then (elim (app_owner j db) [ ok o ↦ ok o | err e ↦ ok (t "") ])
        else app_owner j db)
unfolding app_owner upsert_app find_by
app_owner-upsert_app j k config db = ground (
  arith,
  has-find_by name k db.apps,
  find_by-update_by name (with_config config) (λ a. refl) j k db.apps,
)

-- set_app_owner gives the app the owner where it has none; an owner that is there, and every other app's,
-- stays, and an app that does not exist has none afterwards.
pub app_owner-set_app_owner :
    (j k owner : Text) (db : Db)
    → app_owner j (set_app_owner k owner db) ≡ (
        if j == k
        then (elim (app_owner j db) [ ok o ↦ ok (if o == t "" then owner else o) | err e ↦ err e ])
        else app_owner j db)
unfolding app_owner set_app_owner
app_owner-set_app_owner j k owner db =
    ground (arith, find_by-update_by name (with_owner owner) (λ a. refl) j k db.apps)

app_owner-delete_app :
    (j k : Text) (db : Db) {db' : Db}
    → (j == k) ≡ false
    → delete_app k db ≡ ok db'
    → app_owner j db' ≡ app_owner j db
unfolding app_owner delete_app
app_owner-delete_app j k db {db'} ne e = ground (arith, find_by-delete_by name j k db.apps)

-- Which operations delete the app.
abbrev deletes : Text → Op → Bool
deletes k (Op.delete_app j) = k == j
deletes k _ = false

abbrev pub NeverDeleted : Text → List Op → Type 0
NeverDeleted k ops = All (λ op. deletes k op ≡ false) ops

module _ (k owner : Text) (named : owner ≢ t "") where
  owner_step :
      (op : Op) (db : Db)
      → deletes k op ≡ false
      → app_owner k db ≡ ok owner
      → app_owner k (perform op db) ≡ ok owner
  unfolding perform
  owner_step (Op.upsert_app j config) db d h = ground (arith, app_owner-upsert_app k j config db)
  owner_step (Op.set_app_owner j o) db d h = ground (arith, app_owner-set_app_owner k j o db)
  owner_step (Op.delete_app j) db d h = elim (Result-cases (delete_app j db)) [
    | inl (x, p) ↦ rw p h
    | inr (db', p) ↦ rw p (app_owner-delete_app k j db {db' = db'} d p ∙ h)
  ]
  owner_step (Op.insert_release app image rootfs cmd env workdir now) db d h =
      unfold insert_release app_owner in ground arith
  owner_step (Op.delete_releases_for_app app) db d h = unfold delete_releases_for_app app_owner in h
  owner_step (Op.insert_machine id app rel ip tap now) db d h =
      unfold insert_machine app_owner in ground arith
  owner_step (Op.alloc_and_insert_machine id app rel tap idx now) db d h =
      unfold alloc_and_insert_machine insert_machine app_owner in ground arith
  owner_step (Op.set_machine_state id state pid) db d h =
      unfold set_machine_state app_owner in ground arith
  owner_step (Op.delete_machine id) db d h = unfold delete_machine app_owner in h
  owner_step (Op.subnet_for_owner o) db d h = unfold subnet_for_owner app_owner in ground arith
  owner_step (Op.put_secret app key ct) db d h = unfold put_secret app_owner in ground arith
  owner_step (Op.delete_secret app key) db d h = unfold delete_secret app_owner in h
  owner_step (Op.delete_secrets_for_app app) db d h = unfold delete_secrets_for_app app_owner in h
  owner_step (Op.create_volume app n path size_gb) db d h =
      unfold create_volume app_owner in ground arith
  owner_step (Op.delete_volumes_for_app app) db d h = unfold delete_volumes_for_app app_owner in h

  -- Once an app has an owner that is not empty, no operations but a deletion of the app change it.
  pub app_owner_kept :
      (ops : List Op) (db : Db)
      → NeverDeleted k ops
      → app_owner k db ≡ ok owner
      → app_owner k (perform_all ops db) ≡ ok owner
  unfolding perform_all
  app_owner_kept [] db d h = h
  app_owner_kept (op ∷ ops) db (d, ds) h =
      app_owner_kept ops (perform op db) ds (owner_step op db d h)
