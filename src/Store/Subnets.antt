-- ===== src/Store/Subnets.antt =====
-- The operations of store.go on the table tenant_subnets.
use oakberryio.Prelude.{
  ℕ, zero, suc, ◌+◌, none, some, List, ◌∷◌, Text, nat_eq, text_eq, if◌then◌else◌,
}
use oakberryio.Prelude.Results.{Result, ok, err, not_found, no_free_subnet, ◌>>=◌}
use oakberryio.Table.{has, find_by}
use oakberryio.Store.{Db, TenantSubnet}

abbrev pub tenant_subnet_max : ℕ
tenant_subnet_max = 255

-- for idx := 1; idx <= tenantSubnetMax; idx++, with the rounds that are left
unfoldable pub smallest_free : ℕ → ℕ → List TenantSubnet → Result ℕ
smallest_free zero idx rows = err no_free_subnet
smallest_free (suc rounds) idx rows =
    let rest = smallest_free rounds (idx + 1) rows in
    if has (λ (s : TenantSubnet). s.idx) idx rows then rest else ok idx

unfoldable pub smallest_free_subnet_idx : Db → Result ℕ
smallest_free_subnet_idx db = smallest_free tenant_subnet_max 1 db.tenant_subnets

-- One transaction: the index that the owner has, or the smallest free one.
unfoldable pub subnet_for_owner : Text → Db → Result (ℕ × Db)
subnet_for_owner owner db = elim (find_by (λ (s : TenantSubnet). s.owner) owner db.tenant_subnets) [
  | some s ↦ ok (s.idx, db)
  | none ↦ do
    idx ← smallest_free_subnet_idx db
    ok (idx, record db { tenant_subnets = record { owner = owner; idx = idx } ∷ db.tenant_subnets })
]

unfoldable pub owner_for_subnet : ℕ → Db → Result Text
owner_for_subnet idx db = elim (find_by (λ (s : TenantSubnet). s.idx) idx db.tenant_subnets) [
  | none ↦ err not_found
  | some s ↦ ok s.owner
]
