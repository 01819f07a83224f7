-- ===== src/Store/Ops/Tenants.antt =====
-- The tenant subnets under histories of operations.
use oakberryio.Prelude.{ℕ, ◌≡◌, some, List, [], ◌∷◌, Text, arith, nat_eq, text_eq, inl, inr}
use oakberryio.Prelude.Results.{ok}
use oakberryio.Table.{find_by, Distinct}
use oakberryio.Table.Laws.{has-find_by}
use oakberryio.Store.{Db, TenantSubnet}
use oakberryio.Store.Apps.{upsert_app, set_app_owner, delete_app}
use oakberryio.Store.Releases.{insert_release, delete_releases_for_app}
use oakberryio.Store.Machines.{
  insert_machine, alloc_and_insert_machine, set_machine_state, delete_machine,
}
use oakberryio.Store.Subnets.{subnet_for_owner, owner_for_subnet}
use oakberryio.Store.Secrets.{put_secret, delete_secret, delete_secrets_for_app}
use oakberryio.Store.Volumes.{create_volume, delete_volumes_for_app}
use oakberryio.Store.WellFormed.{WellFormed}
use oakberryio.Store.WellFormed.Others.{subnet_for_owner_inv, subnet_for_owner-WellFormed}
use oakberryio.Store.Ops.Invariant.{perform_all_keeps}
use oakberryio.Store.Ops.{Op, perform, perform_all}

abbrev owner_of : TenantSubnet → Text
owner_of s = s.owner

-- The owner has the index.
abbrev pub Holds : Text → ℕ → Db → Type 0
Holds o idx db = find_by owner_of o db.tenant_subnets ≡ some (record { owner = o; idx = idx })

-- What subnet_for_owner returns, the owner holds.
pub Holds-subnet_for_owner :
    (o : Text) (db : Db) {idx : ℕ} {db' : Db}
    → subnet_for_owner o db ≡ ok (idx, db')
    → Holds o idx db'
Holds-subnet_for_owner o db {idx} {db'} e =
    elim (subnet_for_owner_inv o db {idx = idx} {db' = db'} e) [
      | inl (there, same) ↦ rw same there
      | inr (a, b, c, d, same) ↦ rw same (unfold find_by in ground arith)
    ]

module _ (o : Text) (idx : ℕ) where
  Holds-step : (op : Op) (db : Db) → Holds o idx db → Holds o idx (perform op db)
  unfolding perform
  Holds-step (Op.upsert_app j config) db h = unfold upsert_app in ground arith
  Holds-step (Op.set_app_owner j owner) db h = unfold set_app_owner in h
  Holds-step (Op.delete_app j) db h = unfold delete_app in ground arith
  Holds-step (Op.insert_release app image rootfs cmd env workdir now) db h =
      unfold insert_release in ground arith
  Holds-step (Op.delete_releases_for_app app) db h = unfold delete_releases_for_app in h
  Holds-step (Op.insert_machine id app rel ip tap now) db h = unfold insert_machine in ground arith
  Holds-step (Op.alloc_and_insert_machine id app rel tap i now) db h =
      unfold alloc_and_insert_machine insert_machine in ground arith
  Holds-step (Op.set_machine_state id state pid) db h = unfold set_machine_state in ground arith
  Holds-step (Op.delete_machine id) db h = unfold delete_machine in h
  Holds-step (Op.subnet_for_owner p) db h =
      unfold subnet_for_owner find_by in ground (arith, has-find_by owner_of p db.tenant_subnets)
  Holds-step (Op.put_secret app key ct) db h = unfold put_secret in ground arith
  Holds-step (Op.delete_secret app key) db h = unfold delete_secret in h
  Holds-step (Op.delete_secrets_for_app app) db h = unfold delete_secrets_for_app in h
  Holds-step (Op.create_volume app n path size_gb) db h = unfold create_volume in ground arith
  Holds-step (Op.delete_volumes_for_app app) db h = unfold delete_volumes_for_app in h

  Holds-all : (ops : List Op) (db : Db) → Holds o idx db → Holds o idx (perform_all ops db)
  unfolding perform_all
  Holds-all [] db h = h
  Holds-all (op ∷ ops) db h = Holds-all ops (perform op db) (Holds-step op db h)

-- The index that subnet_for_owner gives an owner is the one that it gives again after any further operations, and the database does not change then.
pub subnet_for_owner_stable :
    (o : Text) (db : Db) (ops : List Op) {idx : ℕ} {db' : Db}
    → subnet_for_owner o db ≡ ok (idx, db')
    → subnet_for_owner o (perform_all ops db') ≡ ok (idx, perform_all ops db')
unfolding subnet_for_owner
subnet_for_owner_stable o db ops {idx} {db'} e = rw (
  Holds-all o idx ops db' (Holds-subnet_for_owner o db {idx = idx} {db' = db'} e),
  subnet_for_owner,
)

-- With unique indices, the row found by an owner is the row found by its index.
find_idx :
    (o : Text) (idx : ℕ) (rows : List TenantSubnet)
    → Distinct (λ (s : TenantSubnet). s.idx) rows
    → find_by owner_of o rows ≡ some (record { owner = o; idx = idx })
    → find_by (λ (s : TenantSubnet). s.idx) idx rows ≡ some (record { owner = o; idx = idx })
unfolding find_by
find_idx o idx [] d h = cc
find_idx o idx (s ∷ rows) (new, d) h =
    ground (arith, find_idx o idx rows d, has-find_by (λ (s : TenantSubnet). s.idx) s.idx rows)

-- In a database that keeps the schema's constraints, the resolver's reverse lookup finds the owner
-- that subnet_for_owner gave an index to, after any further operations.
pub owner_for_subnet-subnet_for_owner :
    (o : Text) (db : Db) (ops : List Op) {idx : ℕ} {db' : Db}
    → WellFormed db
    → subnet_for_owner o db ≡ ok (idx, db')
    → owner_for_subnet idx (perform_all ops db') ≡ ok o
unfolding owner_for_subnet
owner_for_subnet-subnet_for_owner o db ops {idx} {db'} w e =
    let w' = perform_all_keeps ops (subnet_for_owner-WellFormed w o e) in
    rw (
      find_idx o idx _ w'.subnet_idxs
          (Holds-all o idx ops db' (Holds-subnet_for_owner o db {idx = idx} {db' = db'} e)),
      owner_for_subnet,
    )
