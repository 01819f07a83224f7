-- ===== src/Store/Apps.antt =====
-- The operations of store.go on the table apps.
use oakberryio.Prelude.{
  ◌||◌, none, some, List, ◌∷◌, map, Text, t, ◌==◌, text_eq, if◌then◌else◌, sort, le_text,
}
use oakberryio.Prelude.Results.{Result, ok, err, not_found, constraint}
use oakberryio.Table.{has, find_by, delete_by, update_by}
use oakberryio.Store.{Db, App, Release, Machine}

-- INSERT ... ON CONFLICT(name) DO UPDATE SET config: the owner of an app that is there stays.
unfoldable pub upsert_app : Text → Text → Db → Db
upsert_app name config db =
    if has (λ (a : App). a.name) name db.apps
    then record db {
      apps = update_by (λ (a : App). a.name) name (λ a. record a { config = config }) db.apps;
    }
    else record db { apps = record { name = name; config = config; owner = t "" } ∷ db.apps }

-- Every app name, sorted.
unfoldable pub apps : Db → List Text
apps db = map (λ (a : App). a.name) (sort (λ a b. le_text a.name b.name) db.apps)

unfoldable pub app_config : Text → Db → Result Text
app_config name db = elim (find_by (λ (a : App). a.name) name db.apps) [
  | none ↦ err not_found
  | some a ↦ ok a.config
]

-- UPDATE apps SET owner = ? WHERE name = ? AND owner = ''
unfoldable pub set_app_owner : Text → Text → Db → Db
set_app_owner name owner db = record db {
  apps =
      update_by (λ (a : App). a.name) name
        (λ a. record a { owner = if a.owner == t "" then owner else a.owner }) db.apps;
}

unfoldable pub app_owner : Text → Db → Result Text
app_owner name db = elim (find_by (λ (a : App). a.name) name db.apps) [
  | none ↦ err not_found
  | some a ↦ ok a.owner
]

pub record AppInfo : Type 0 where
  pub name : Text
  pub owner : Text

-- Every app with its owner, sorted by name.
unfoldable pub apps_detailed : Db → List AppInfo
apps_detailed db =
    map (λ (a : App). record { name = a.name; owner = a.owner })
      (sort (λ a b. le_text a.name b.name) db.apps)

-- The foreign keys of releases and machines refuse to lose an app that they name.
unfoldable pub delete_app : Text → Db → Result Db
delete_app name db =
    if has (λ (r : Release). r.app) name db.releases
      || has (λ (m : Machine). m.app) name db.machines
    then err constraint
    else ok (record db { apps = delete_by (λ (a : App). a.name) name db.apps })
