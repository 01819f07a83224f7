-- ===== src/Dns/Tenancy.antt =====
-- Which apps a tenant's machines can resolve.
use oakberryio.Prelude.{
  ◌≡◌, ◌∙◌, refl, sym, arith, ℕ, false, none, some, List, [], Text, ◌==◌, nat_eq, text_eq,
  if◌then◌else◌,
}
use oakberryio.Prelude.Results.{Error, ok, err}
use oakberryio.Net.Ip.{Octets}
use oakberryio.Store.{Db}
use oakberryio.Store.Apps.{app_owner}
use oakberryio.Store.Machines.{machines_for_app}
use oakberryio.Store.Subnets.{subnet_for_owner}
use oakberryio.Store.WellFormed.{WellFormed}
use oakberryio.Store.Ops.{Op, perform_all}
use oakberryio.Store.Ops.Tenants.{owner_for_subnet-subnet_for_owner}
use oakberryio.Dns.{
  Source, requester_can_see, resolve_dns, running_addrs, resolve_local, QueryType, name_error,
}

-- An address of the tenant subnet.
abbrev pub guest : ℕ → ℕ → Octets
guest idx host = record { a = 10; b = 200; c = idx; d = host }

module _ (o : Text) (db : Db) (ops : List Op) {idx : ℕ} {db' : Db} (w : WellFormed db)
    (given : subnet_for_owner o db ≡ ok (idx, db')) where
  guest_sees :
      (app : Text) (host : ℕ)
      → requester_can_see app (some (guest idx host)) (perform_all ops db')
        ≡ elim (app_owner app (perform_all ops db')) [ err e ↦ false | ok q ↦ q == o ]
  unfolding requester_can_see nat_eq
  guest_sees app host = rw (owner_for_subnet-subnet_for_owner o db ops w given) refl

unseen :
    (app : Text) (query_type : QueryType) (src : Source) (db : Db)
    → requester_can_see app src db ≡ false
    → resolve_local app query_type src db ≡ name_error
unfolding resolve_local resolve_dns
unseen app query_type src db h = ground arith

-- Where a source may not see an app in one database, it may not where the app does not exist.
unseen_without :
    (app : Text) (src : Source) (db without : Db) {e : Error}
    → requester_can_see app src db ≡ false
    → app_owner app without ≡ err e
    → requester_can_see app src without ≡ false
unfolding requester_can_see
unseen_without app none db without h gone = cc h
unseen_without app (some o) db without h gone = ground arith

-- From a database that keeps the schema's constraints: a machine in the subnet that an owner was given
-- resolves the apps of this owner, to the addresses of their running machines, and no app of another
-- owner, after any further operations of the store.
pub resolve_dns-tenant :
    (o : Text) (db : Db) (ops : List Op) {idx : ℕ} {db' : Db}
    → WellFormed db
    → subnet_for_owner o db ≡ ok (idx, db')
    → (app : Text) (host : ℕ)
    → resolve_dns app (some (guest idx host)) (perform_all ops db')
      ≡ (elim (app_owner app (perform_all ops db')) [
        | err e ↦ []
        | ok q ↦ if q == o then running_addrs (machines_for_app app (perform_all ops db')) else []
      ])
unfolding resolve_dns
resolve_dns-tenant o db ops {idx} {db'} w given app host =
    ground (arith, guest_sees o db ops {idx = idx} {db' = db'} w given app host)

-- The answer about an app that a source may not see is the answer that the same source gets about it
-- where the app does not exist, for each type of query.
pub resolve_local-hidden :
    (app : Text) (query_type : QueryType) (src : Source) (db without : Db) {e : Error}
    → requester_can_see app src db ≡ false
    → app_owner app without ≡ err e
    → resolve_local app query_type src db ≡ resolve_local app query_type src without
resolve_local-hidden app query_type src db without {e} h gone =
    unseen app query_type src db h
    ∙ sym (unseen app query_type src without (unseen_without app src db without {e = e} h gone))
