-- ===== src/Store/WellFormed/Apps.antt =====
-- The constraints of the schema under the operations on apps and releases.
use oakberryio.Prelude.{
  ℕ, ◌≡◌, refl, ◌≤◌, true, false, List, [], ◌∷◌, Text, t, arith, All, ◌==◌, text_eq, nat_eq,
  if◌then◌else◌, Bool-cases, inl, inr,
}
use oakberryio.Prelude.Results.{ok}
use oakberryio.Table.{has, delete_by, update_by}
use oakberryio.Table.Laws.{
  has-delete_by, has-update_by, Distinct-delete_by, Distinct-update_by, All-imp, All-zip,
  All-delete_by, All-ne_of_absent, Distinct-delete_other,
}
use oakberryio.Store.{Db, App, Release, Machine, local}
use oakberryio.Store.Apps.{upsert_app, set_app_owner, delete_app}
use oakberryio.Store.Releases.{next_id, insert_release, delete_releases_for_app}
use oakberryio.Store.WellFormed.{WellFormed, has_app}

abbrev name : App → Text
name a = a.name

-- Rows that name an app still do when the apps only grow.
refs_grow :
    {A : Type 0} (app : A → Text) (old new : List App) (rows : List A)
    → ((k : Text) → has_app old k ≡ true → has_app new k ≡ true)
    → All (λ x. has_app old (app x) ≡ true) rows
    → All (λ x. has_app new (app x) ≡ true) rows
refs_grow app old new rows grow h = All-imp rows (λ x p. grow (app x) p) h

-- Rows that name no app `j` still name one when `j` goes.
refs_delete :
    {A : Type 0} (app : A → Text) (apps : List App) (j : Text) (rows : List A)
    → has app j rows ≡ false
    → All (λ x. has_app apps (app x) ≡ true) rows
    → All (λ x. has_app (delete_by name j apps) (app x) ≡ true) rows
refs_delete app apps j rows absent h =
    All-zip rows (λ x other p. rw has-delete_by (rw other p)) (All-ne_of_absent app j rows absent) h

delete_app_inv :
    (k : Text) (db : Db) {db' : Db}
    → delete_app k db ≡ ok db'
    → (has (λ (r : Release). r.app) k db.releases ≡ false)
      × (has (λ (m : Machine). m.app) k db.machines ≡ false)
      × (db' ≡ record db { apps = delete_by name k db.apps })
unfolding delete_app
delete_app_inv k db e = ground arith

-- The row that insert_release adds.
abbrev release_row : Text → Text → Text → Text → Text → Text → ℕ → Db → Release
release_row app image rootfs cmd env workdir now db = record {
  id = next_id db.releases;
  app = app;
  image = image;
  rootfs = rootfs;
  node_id = local;
  cmd = cmd;
  env = env;
  workdir = workdir;
  created_at = now;
}

insert_release_inv :
    (app image rootfs cmd env workdir : Text) (now : ℕ) (db : Db) {id : ℕ} {db' : Db}
    → insert_release app image rootfs cmd env workdir now db ≡ ok (id, db')
    → (has_app db.apps app ≡ true)
      × (db' ≡ record db {
        releases = release_row app image rootfs cmd env workdir now db ∷ db.releases;
      })
unfolding insert_release
insert_release_inv app image rootfs cmd env workdir now db e = ground arith

next_id_above :
    (n : ℕ) (rs : List Release) → next_id rs ≤ n → has (λ (r : Release). r.id) n rs ≡ false
unfolding next_id has
next_id_above n [] h = refl
next_id_above n (r ∷ rs) h = ground (arith, next_id_above n rs)

-- The next id is above every id in the table.
next_id_fresh : (rs : List Release) → has (λ (r : Release). r.id) (next_id rs) rs ≡ false
next_id_fresh rs = next_id_above (next_id rs) rs (omega arith)

module _ {db : Db} (h : WellFormed db) where
  -- An update of rows that leaves the names.
  update_apps :
      (f : App → App) (k : Text)
      → ((a : App) → (f a).name ≡ a.name)
      → WellFormed (record db { apps = update_by name k f db.apps })
  update_apps f k same = record {
    app_names = Distinct-update_by name f same k db.apps h.app_names;
    release_ids = h.release_ids;
    release_apps =
        refs_grow _ db.apps _ db.releases (λ j p. rw (has-update_by name f same) p) h.release_apps;
    machine_ids = h.machine_ids;
    machine_ips = h.machine_ips;
    machine_apps =
        refs_grow _ db.apps _ db.machines (λ j p. rw (has-update_by name f same) p) h.machine_apps;
    volume_keys = h.volume_keys;
    secret_keys = h.secret_keys;
    subnet_owners = h.subnet_owners;
    subnet_idxs = h.subnet_idxs;
  }

  add_app :
      (a : App) → has_app db.apps a.name ≡ false → WellFormed (record db { apps = a ∷ db.apps })
  unfolding has
  add_app a absent = record {
    app_names = (absent, h.app_names);
    release_ids = h.release_ids;
    release_apps =
        refs_grow _ db.apps (a ∷ db.apps) db.releases (λ j p. ground arith) h.release_apps;
    machine_ids = h.machine_ids;
    machine_ips = h.machine_ips;
    machine_apps =
        refs_grow _ db.apps (a ∷ db.apps) db.machines (λ j p. ground arith) h.machine_apps;
    volume_keys = h.volume_keys;
    secret_keys = h.secret_keys;
    subnet_owners = h.subnet_owners;
    subnet_idxs = h.subnet_idxs;
  }

  pub upsert_app-WellFormed : (k config : Text) → WellFormed (upsert_app k config db)
  unfolding upsert_app
  upsert_app-WellFormed k config = elim (Bool-cases (has_app db.apps k)) [
    | inl there ↦ rw there (update_apps (λ a. record a { config = config }) k (λ a. refl))
    | inr absent ↦ rw absent (add_app (record { name = k; config = config; owner = t "" }) absent)
  ]

  pub set_app_owner-WellFormed : (k owner : Text) → WellFormed (set_app_owner k owner db)
  unfolding set_app_owner
  set_app_owner-WellFormed k owner =
      update_apps (λ a. record a { owner = if a.owner == t "" then owner else a.owner }) k
        (λ a. refl)

  remove_app :
      (k : Text)
      → has (λ (r : Release). r.app) k db.releases ≡ false
      → has (λ (m : Machine). m.app) k db.machines ≡ false
      → WellFormed (record db { apps = delete_by name k db.apps })
  remove_app k no_release no_machine = record {
    app_names = Distinct-delete_by name k db.apps h.app_names;
    release_ids = h.release_ids;
    release_apps = refs_delete _ db.apps k db.releases no_release h.release_apps;
    machine_ids = h.machine_ids;
    machine_ips = h.machine_ips;
    machine_apps = refs_delete _ db.apps k db.machines no_machine h.machine_apps;
    volume_keys = h.volume_keys;
    secret_keys = h.secret_keys;
    subnet_owners = h.subnet_owners;
    subnet_idxs = h.subnet_idxs;
  }

  pub delete_app-WellFormed : (k : Text) {db' : Db} → delete_app k db ≡ ok db' → WellFormed db'
  delete_app-WellFormed k {db'} e =
      let (no_release, no_machine, same) = delete_app_inv k db {db' = db'} e in
      rw same (remove_app k no_release no_machine)

  -- A release with the next id and an app that is there.
  pub insert_release-WellFormed :
      (app image rootfs cmd env workdir : Text) (now : ℕ) {id : ℕ} {db' : Db}
      → insert_release app image rootfs cmd env workdir now db ≡ ok (id, db')
      → WellFormed db'
  insert_release-WellFormed app image rootfs cmd env workdir now {id} {db'} e =
      let (there, same) =
        insert_release_inv app image rootfs cmd env workdir now db {id = id} {db' = db'} e in
      rw same (record {
        app_names = h.app_names;
        release_ids = (next_id_fresh db.releases, h.release_ids);
        release_apps = (there, h.release_apps);
        machine_ids = h.machine_ids;
        machine_ips = h.machine_ips;
        machine_apps = h.machine_apps;
        volume_keys = h.volume_keys;
        secret_keys = h.secret_keys;
        subnet_owners = h.subnet_owners;
        subnet_idxs = h.subnet_idxs;
      })

  pub delete_releases_for_app-WellFormed :
      (app : Text) → WellFormed (delete_releases_for_app app db)
  unfolding delete_releases_for_app
  delete_releases_for_app-WellFormed app = record {
    app_names = h.app_names;
    release_ids = Distinct-delete_other _ _ app db.releases h.release_ids;
    release_apps = All-delete_by _ _ app db.releases h.release_apps;
    machine_ids = h.machine_ids;
    machine_ips = h.machine_ips;
    machine_apps = h.machine_apps;
    volume_keys = h.volume_keys;
    secret_keys = h.secret_keys;
    subnet_owners = h.subnet_owners;
    subnet_idxs = h.subnet_idxs;
  }
