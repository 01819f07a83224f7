-- ===== src/Store/WellFormed/Others.antt =====
-- The constraints of the schema under the operations on secrets, volumes and tenant subnets.
use oakberryio.Prelude.{
  ℕ, zero, suc, ◌+◌, ◌<◌, ◌≡◌, refl, ◌≤◌, false, some, List, ◌∷◌, Text, arith, text_eq, nat_eq,
  pair_eq, Bool-cases, Option-cases, inl, inr, ◌⊎◌,
}
use oakberryio.Prelude.Results.{ok}
use oakberryio.Table.{has, find_by, Distinct}
use oakberryio.Table.Laws.{
  Distinct-delete_by, Distinct-update_by, Distinct-delete_other, has-find_by, key-find_by,
}
use oakberryio.Store.{Db, Secret, Volume, TenantSubnet, local}
use oakberryio.Store.Secrets.{secret_key, put_secret, delete_secret, delete_secrets_for_app}
use oakberryio.Store.Volumes.{volume_key, create_volume, delete_volumes_for_app}
use oakberryio.Store.Subnets.{smallest_free, smallest_free_subnet_idx, subnet_for_owner}
use oakberryio.Store.WellFormed.{WellFormed}

-- An index that the loop returns is free and in the range that it tries.
pub smallest_free_lem :
    (rounds idx : ℕ) (rows : List TenantSubnet) {found : ℕ}
    → smallest_free rounds idx rows ≡ ok found
    → (idx ≤ found)
      × (found < idx + rounds)
      × (has (λ (s : TenantSubnet). s.idx) found rows ≡ false)
unfolding smallest_free
smallest_free_lem zero idx rows e = cc
smallest_free_lem (suc rounds) idx rows {found} e =
    ground (arith, smallest_free_lem rounds (idx + 1) rows {found = found})

abbrev owner_of : TenantSubnet → Text
owner_of s = s.owner

-- The owner's subnet is there, or a free one is added.
pub subnet_for_owner_inv :
    (owner : Text) (db : Db) {idx : ℕ} {db' : Db}
    → subnet_for_owner owner db ≡ ok (idx, db')
    → ((find_by (λ (s : TenantSubnet). s.owner) owner db.tenant_subnets
          ≡ some (record { owner = owner; idx = idx }))
        × (db' ≡ db))
      ⊎ ((has (λ (s : TenantSubnet). s.owner) owner db.tenant_subnets ≡ false)
          × (has (λ (s : TenantSubnet). s.idx) idx db.tenant_subnets ≡ false)
          × (1 ≤ idx)
          × (idx ≤ 255)
          × (db' ≡ record db {
            tenant_subnets = record { owner = owner; idx = idx } ∷ db.tenant_subnets;
          }))
unfolding subnet_for_owner smallest_free_subnet_idx
subnet_for_owner_inv owner db {idx} {db'} e =
    elim (Option-cases (find_by (λ (s : TenantSubnet). s.owner) owner db.tenant_subnets)) [
      | inl absent ↦ inr (
          ground (
            arith,
            has-find_by owner_of owner db.tenant_subnets,
            smallest_free_lem 255 1 db.tenant_subnets {found = idx},
          ))
      | inr (s, there) ↦ inl (ground (arith, key-find_by owner_of owner db.tenant_subnets {x = s}))
    ]

module _ {db : Db} (h : WellFormed db) where
  new_secrets :
      (xs : List Secret) → Distinct secret_key xs → WellFormed (record db { secrets = xs })
  new_secrets xs keys = record {
    app_names = h.app_names;
    release_ids = h.release_ids;
    release_apps = h.release_apps;
    machine_ids = h.machine_ids;
    machine_ips = h.machine_ips;
    machine_apps = h.machine_apps;
    volume_keys = h.volume_keys;
    secret_keys = keys;
    subnet_owners = h.subnet_owners;
    subnet_idxs = h.subnet_idxs;
  }

  new_volumes :
      (xs : List Volume) → Distinct volume_key xs → WellFormed (record db { volumes = xs })
  new_volumes xs keys = record {
    app_names = h.app_names;
    release_ids = h.release_ids;
    release_apps = h.release_apps;
    machine_ids = h.machine_ids;
    machine_ips = h.machine_ips;
    machine_apps = h.machine_apps;
    volume_keys = keys;
    secret_keys = h.secret_keys;
    subnet_owners = h.subnet_owners;
    subnet_idxs = h.subnet_idxs;
  }

  add_subnet :
      (s : TenantSubnet)
      → has (λ (r : TenantSubnet). r.owner) s.owner db.tenant_subnets ≡ false
      → has (λ (r : TenantSubnet). r.idx) s.idx db.tenant_subnets ≡ false
      → WellFormed (record db { tenant_subnets = s ∷ db.tenant_subnets })
  add_subnet s new_owner new_idx = record {
    app_names = h.app_names;
    release_ids = h.release_ids;
    release_apps = h.release_apps;
    machine_ids = h.machine_ids;
    machine_ips = h.machine_ips;
    machine_apps = h.machine_apps;
    volume_keys = h.volume_keys;
    secret_keys = h.secret_keys;
    subnet_owners = (new_owner, h.subnet_owners);
    subnet_idxs = (new_idx, h.subnet_idxs);
  }

  pub put_secret-WellFormed : (app key ct : Text) → WellFormed (put_secret app key ct db)
  unfolding put_secret
  put_secret-WellFormed app key ct = elim (Bool-cases (has secret_key (app, key) db.secrets)) [
    | inl there ↦ rw there (
        new_secrets _
          (Distinct-update_by secret_key _ (λ s. refl) (app, key) db.secrets h.secret_keys))
    | inr absent ↦ rw absent (new_secrets _ (absent, h.secret_keys))
  ]

  pub delete_secret-WellFormed : (app key : Text) → WellFormed (delete_secret app key db)
  unfolding delete_secret
  delete_secret-WellFormed app key =
      new_secrets _ (Distinct-delete_by secret_key (app, key) db.secrets h.secret_keys)

  pub delete_secrets_for_app-WellFormed : (app : Text) → WellFormed (delete_secrets_for_app app db)
  unfolding delete_secrets_for_app
  delete_secrets_for_app-WellFormed app =
      new_secrets _ (Distinct-delete_other secret_key _ app db.secrets h.secret_keys)

  pub create_volume-WellFormed :
      (app name path : Text) (size_gb : ℕ) {db' : Db}
      → create_volume app name path size_gb db ≡ ok db'
      → WellFormed db'
  unfolding create_volume
  create_volume-WellFormed app name path size_gb {db'} e =
      elim (Bool-cases (has volume_key (app, name) db.volumes)) [
        | inl there ↦ absurd (ground arith)
        | inr absent ↦
            let row : Volume = record {
              name = name;
              app = app;
              path = path;
              size_gb = size_gb;
              node_id = local;
            } in
            let same : db' ≡ record db { volumes = row ∷ db.volumes } = ground arith in
            rw same (new_volumes _ (absent, h.volume_keys))
      ]

  pub delete_volumes_for_app-WellFormed : (app : Text) → WellFormed (delete_volumes_for_app app db)
  unfolding delete_volumes_for_app
  delete_volumes_for_app-WellFormed app =
      new_volumes _ (Distinct-delete_other volume_key _ app db.volumes h.volume_keys)

  pub subnet_for_owner-WellFormed :
      (owner : Text) {idx : ℕ} {db' : Db}
      → subnet_for_owner owner db ≡ ok (idx, db')
      → WellFormed db'
  subnet_for_owner-WellFormed owner {idx} {db'} e =
      elim (subnet_for_owner_inv owner db {idx = idx} {db' = db'} e) [
        | inl (there, same) ↦ rw same h
        | inr (new_owner, new_idx, above, below, same) ↦ rw same (add_subnet _ new_owner new_idx)
      ]
