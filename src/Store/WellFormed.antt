-- ===== src/Store/WellFormed.antt =====
-- The constraints of schema.sql as a predicate on the tables; the children treat the operations.
pub mod Apps
pub mod Machines
pub mod Others
use oakberryio.Prelude.{
  ℕ, ◌≡◌, refl, ◌≤◌, Bool, true, false, ◌||◌, Option, none, some, List, [], ◌∷◌, Text, arith, All,
  ◌==◌, text_eq, nat_eq, pair_eq, if◌then◌else◌, Bool-cases, inl, inr,
}
use oakberryio.Prelude.Results.{Result, ok, err, ◌>>=◌, Result-cases}
use oakberryio.Table.{has, delete_by, update_by, Distinct}
use oakberryio.Table.Laws.{
  has-delete_by, has-update_by, Distinct-delete_by, Distinct-update_by, All-imp, All-zip,
  All-delete_by, All-update_by, All-ne_of_absent,
}
use oakberryio.Store.{Db, App, Release, Machine, MachineState, Secret, Volume, TenantSubnet, fresh}
use oakberryio.Store.Secrets.{secret_key}
use oakberryio.Store.Volumes.{volume_key}

abbrev pub has_app : List App → Text → Bool
has_app apps k = has (λ (a : App). a.name) k apps

-- PRIMARY KEY, UNIQUE and REFERENCES, table by table.
pub record WellFormed (db : Db) : Type 0 where
  pub app_names : Distinct (λ (a : App). a.name) db.apps
  pub release_ids : Distinct (λ (r : Release). r.id) db.releases
  pub release_apps : All (λ (r : Release). has_app db.apps r.app ≡ true) db.releases
  pub machine_ids : Distinct (λ (m : Machine). m.id) db.machines
  pub machine_ips : Distinct (λ (m : Machine). m.ip) db.machines
  pub machine_apps : All (λ (m : Machine). has_app db.apps m.app ≡ true) db.machines
  pub volume_keys : Distinct volume_key db.volumes
  pub secret_keys : Distinct secret_key db.secrets
  pub subnet_owners : Distinct (λ (s : TenantSubnet). s.owner) db.tenant_subnets
  pub subnet_idxs : Distinct (λ (s : TenantSubnet). s.idx) db.tenant_subnets

pub fresh-WellFormed : WellFormed fresh
unfolding has
fresh-WellFormed = record {
  app_names = tt;
  release_ids = tt;
  release_apps = tt;
  machine_ids = tt;
  machine_ips = tt;
  machine_apps = tt;
  volume_keys = tt;
  secret_keys = tt;
  subnet_owners = (refl, tt);
  subnet_idxs = (refl, tt);
}
