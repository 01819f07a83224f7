-- ===== src/Deploy/Destroy/Outcome.antt =====
-- What Destroy leaves in the store.
use oakberryio.Prelude.{
  ◌≡◌, ◌∙◌, subst, refl, sym, arith, true, false, List, [], ◌∷◌, Text, All, ◌==◌, ==_iff, ==_refl,
  nat_eq, text_eq, inl, inr, Bool-cases,
}
use oakberryio.Prelude.Results.{ok, err, not_found}
use oakberryio.Prelude.Dict.{delete}
use oakberryio.Effects.{modify, ◌>>=◌}
use oakberryio.Effects.Keeps.{Keeps, Keeps-bind, Keeps-lift, keeps_rules}
use oakberryio.Table.{has, delete_by}
use oakberryio.Table.Laws.{has-delete_by, find_by-delete_by}
use oakberryio.Store.{Db, App, Machine, Release, Secret, Volume}
use oakberryio.Store.Apps.{delete_app, app_owner}
use oakberryio.Store.Machines.{machines_for_app}
use oakberryio.Store.Releases.{delete_releases_for_app}
use oakberryio.Store.Secrets.{delete_secrets_for_app}
use oakberryio.Store.Volumes.{delete_volumes_for_app}
use oakberryio.Deploy.{Env, World}
use oakberryio.Deploy.State.{write_db, with_db}
use oakberryio.Deploy.Frame.{On, Keeps-record, Keeps-apply_tunnel}
use oakberryio.Deploy.Ingress.{apply_tunnel}
use oakberryio.Deploy.Boot.{stop_where}
use oakberryio.Deploy.Boot.CutOver.{stop_listed-none}
use oakberryio.Deploy.Destroy.{
  delete_rows, drop_config, clear_store, remove_tree, remove_files, clear_files, unpublish, destroy,
}

-- No row of any table is the app's.
pub record Gone (app : Text) (db : Db) : Type 0 where
  pub no_app : app_owner app db ≡ err not_found
  pub no_machine : has (λ (m : Machine). m.app) app db.machines ≡ false
  pub no_release : has (λ (r : Release). r.app) app db.releases ≡ false
  pub no_secret : has (λ (s : Secret). s.app) app db.secrets ≡ false
  pub no_volume : has (λ (v : Volume). v.app) app db.volumes ≡ false

-- No table but that of the apps has a row of the app.
record Cleared (app : Text) (db : Db) : Type 0 where
  no_machine : has (λ (m : Machine). m.app) app db.machines ≡ false
  no_release : has (λ (r : Release). r.app) app db.releases ≡ false
  no_secret : has (λ (s : Secret). s.app) app db.secrets ≡ false
  no_volume : has (λ (v : Volume). v.app) app db.volumes ≡ false

none_has :
    (app : Text) (ms : List Machine)
    → All (λ r. (r.app ≡ app) × (true ≡ true) → false ≡ true) ms
    → has (λ (m : Machine). m.app) app ms ≡ false
unfolding has
none_has app [] h = refl
none_has app (m ∷ ms) (f, h) = elim (Bool-cases (m.app == app)) [
  | inl here ↦ cc (f ((==_iff m.app app).0 here, refl))
  | inr other ↦ rw (other, none_has app ms h) refl
]

module _ (app : Text) where
  cleared :
      (w : World)
      → Cleared app (delete_rows app (stop_where (λ _. true) (machines_for_app app w.db) w).db)
  unfolding delete_rows delete_volumes_for_app delete_secrets_for_app delete_releases_for_app
  cleared w =
      let db = (stop_where (λ _. true) (machines_for_app app w.db) w).db in
      record {
        no_machine = none_has app db.machines (stop_listed-none app (λ _. true) w);
        no_release = has-delete_by _ app app db.releases ∙ ground (arith, ==_refl app);
        no_secret = has-delete_by _ app app db.secrets ∙ ground (arith, ==_refl app);
        no_volume = has-delete_by _ app app db.volumes ∙ ground (arith, ==_refl app);
      }

  -- Nothing refers to the app any more, so the foreign keys let it go.
  deleted : (db : Db) → Cleared app db → (db' : Db) × (delete_app app db ≡ ok db') × Gone app db'
  unfolding delete_app app_owner
  deleted db c = (
    record db { apps = delete_by (λ (a : App). a.name) app db.apps },
    rw (c.no_release, c.no_machine, delete_app) refl,
    record {
      no_app = ground (arith, find_by-delete_by (λ (a : App). a.name) app app db.apps, ==_refl app);
      no_machine = c.no_machine;
      no_release = c.no_release;
      no_secret = c.no_secret;
      no_volume = c.no_volume;
    },
  )

  clear_store_ran :
      (w : World) → (w' : World) × (clear_store app w ≡ (ok tt, w')) × On (Gone app) w'
  unfolding clear_store ◌>>=◌ modify write_db with_db drop_config
  clear_store_ran w =
      let (db, e, gone) = deleted _ (cleared w) in
      let v = stop_where (λ _. true) (machines_for_app app w.db) w in
      (
        record v { db = db; app_configs = delete app v.app_configs },
        rw (e, write_db) refl,
        record { store = gone },
      )

module _ (env : Env) {P : Db → Type 0} where
  Keeps-remove_tree : (path : Text) → Keeps (On P) (remove_tree env path)
  unfolding remove_tree
  Keeps-remove_tree path = search (keeps_rules, Keeps-record)

  Keeps-remove_files : (ps : List Text) → Keeps (On P) (remove_files env ps)
  unfolding remove_files
  Keeps-remove_files [] = search keeps_rules
  Keeps-remove_files (p ∷ ps) =
      Keeps-bind _ _ (Keeps-lift _)
        (λ _. Keeps-bind _ _ (Keeps-record _) (λ _. Keeps-remove_files ps))

  Keeps-unpublish : Keeps (On P) (unpublish env)
  unfolding unpublish
  Keeps-unpublish = record {
    at = λ w h. record { store = subst P (sym (same w)) ((Keeps-apply_tunnel env).at w h).store };
  }
    where
      same : (w : World) → (unpublish env w).1.db ≡ (apply_tunnel env w).1.db
      same w = ground arith

  Keeps-files : (app : Text) → Keeps (On P) (clear_files env app >>= λ _. unpublish env)
  unfolding clear_files
  Keeps-files app =
      search (keeps_rules, Keeps-remove_tree, Keeps-remove_files, Keeps-unpublish) depth 10

-- Destroy takes every row of the app out of the store, whether it then succeeds or fails at a file or
-- at the tunnel.
pub destroy-Gone : (env : Env) (app : Text) (w : World) → Gone app (destroy env app w).1.db
unfolding destroy ◌>>=◌
destroy-Gone env app w =
    let (w', ran, gone) = clear_store_ran app w in
    rw (ran, destroy) ((Keeps-files env app).at w' gone).store
