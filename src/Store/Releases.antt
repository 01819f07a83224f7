-- ===== src/Store/Releases.antt =====
-- The operations of store.go on the table releases.
pub mod Latest
use oakberryio.Prelude.{
  ℕ, ◌+◌, Option, none, some, List, [], ◌∷◌, Text, ltb, nat_eq, text_eq, if◌then◌else◌,
}
use oakberryio.Prelude.Results.{Result, ok, err, not_found, constraint}
use oakberryio.Table.{has, find_by, select_by, delete_by}
use oakberryio.Store.{Db, App, Release, local}

-- INTEGER PRIMARY KEY with no value given: one more than the largest id in the table.
unfoldable pub next_id : List Release → ℕ
next_id [] = 1
next_id (r ∷ rs) = let n = next_id rs in if ltb r.id n then n else r.id + 1

unfoldable pub insert_release : Text → Text → Text → Text → Text → Text → ℕ → Db → Result (ℕ × Db)
insert_release app image rootfs cmd env workdir now db =
    let id = next_id db.releases in
    if has (λ (a : App). a.name) app db.apps
    then ok (
      id,
      record db {
        releases =
            record {
              id = id;
              app = app;
              image = image;
              rootfs = rootfs;
              node_id = local;
              cmd = cmd;
              env = env;
              workdir = workdir;
              created_at = now;
            }
            ∷ db.releases;
      },
    )
    else err constraint

unfoldable pub release_by_id : ℕ → Db → Result Release
release_by_id id db = elim (find_by (λ (r : Release). r.id) id db.releases) [
  | none ↦ err not_found
  | some r ↦ ok r
]

-- ORDER BY id DESC LIMIT 1
unfoldable pub largest_id : List Release → Option Release
largest_id [] = none
largest_id (r ∷ rs) = elim (largest_id rs) [
  | none ↦ some r
  | some q ↦ if ltb r.id q.id then some q else some r
]

unfoldable pub latest_release : Text → Db → Result Release
latest_release app db = elim (largest_id (select_by (λ (r : Release). r.app) app db.releases)) [
  | none ↦ err not_found
  | some r ↦ ok r
]

unfoldable pub delete_releases_for_app : Text → Db → Db
delete_releases_for_app app db = record db {
  releases = delete_by (λ (r : Release). r.app) app db.releases;
}
