-- ===== src/Store/Ops/Admission.antt =====
-- AllocAndInsertMachine under histories of the operations that oakd performs.
use oakberryio.Prelude.{
  ◌≡◌, refl, sym, subst, arith, ℕ, ◌≤◌, ◌<◌, Bool, true, false, List, [], ◌∷◌, Text, All, nat_eq,
  text_eq,
}
use oakberryio.Prelude.Results.{Result, ok, err}
use oakberryio.Net.Ip.{ip_to_uint32}
use oakberryio.Net.Ip.RoundTrip.{ip_to_uint32-uint32_to_ip}
use oakberryio.Table.{has}
use oakberryio.Table.Laws.{All-delete_by, All-update_by}
use oakberryio.Store.{Db, Machine, fresh}
use oakberryio.Store.Apps.{upsert_app, set_app_owner, delete_app}
use oakberryio.Store.Releases.{insert_release, delete_releases_for_app}
use oakberryio.Store.Subnets.{subnet_for_owner}
use oakberryio.Store.Secrets.{put_secret, delete_secret, delete_secrets_for_app}
use oakberryio.Store.Volumes.{create_volume, delete_volumes_for_app}
use oakberryio.Store.Ipam.Laws.{
  Allocated, Readable, taken, subnet_addr, alloc_ip-Allocated, alloc_ip_total,
}
use oakberryio.Store.Machines.{insert_machine, alloc_and_insert_machine, delete_machine}
use oakberryio.Store.WellFormed.{has_app}
use oakberryio.Store.WellFormed.Machines.{
  machine_row, insert_machine_inv, alloc_and_insert_machine_inv, set_machine_state_inv,
}
use oakberryio.Store.Ops.{Op, or_same, or_same_with, perform, perform_all}

-- The operations of the daemon: it inserts a machine with an address that it allocates in a tenant's
-- subnet, and never with one that it is given.
abbrev pub OfDaemon : Op → Type 0
OfDaemon (Op.insert_machine id app rel ip tap now) = false ≡ true
OfDaemon (Op.alloc_and_insert_machine id app rel tap idx now) = idx < 256
OfDaemon op = Unit

unfoldable touches : Op → Bool
touches (Op.insert_machine id app rel ip tap now) = true
touches (Op.alloc_and_insert_machine id app rel tap idx now) = true
touches (Op.set_machine_state id state pid) = true
touches (Op.delete_machine id) = true
touches op = false

-- The other operations leave the rows of machines.
perform-machines : (op : Op) (db : Db) → touches op ≡ false → (perform op db).machines ≡ db.machines
unfolding touches perform upsert_app set_app_owner delete_app insert_release delete_releases_for_app
    subnet_for_owner put_secret delete_secret delete_secrets_for_app create_volume
    delete_volumes_for_app
perform-machines (Op.upsert_app name config) db h = ground arith
perform-machines (Op.set_app_owner name owner) db h = ground arith
perform-machines (Op.delete_app name) db h = ground arith
perform-machines (Op.insert_release app image rootfs cmd env workdir now) db h = ground arith
perform-machines (Op.delete_releases_for_app app) db h = ground arith
perform-machines (Op.insert_machine id app rel ip tap now) db h = cc h
perform-machines (Op.alloc_and_insert_machine id app rel tap idx now) db h = cc h
perform-machines (Op.set_machine_state id state pid) db h = cc h
perform-machines (Op.delete_machine id) db h = cc h
perform-machines (Op.subnet_for_owner owner) db h = ground arith
perform-machines (Op.put_secret app key ct) db h = ground arith
perform-machines (Op.delete_secret app key) db h = ground arith
perform-machines (Op.delete_secrets_for_app app) db h = ground arith
perform-machines (Op.create_volume app name path size_gb) db h = ground arith
perform-machines (Op.delete_volumes_for_app app) db h = ground arith

abbrev Reads : Db → Type 0
Reads db = Readable db.machines

or_same-Reads :
    (db : Db) (r : Result Db)
    → Reads db
    → ((db' : Db) → r ≡ ok db' → Reads db')
    → Reads (or_same db r)
or_same-Reads db (ok db') h step = step db' refl
or_same-Reads db (err e) h step = h

or_same_with-Reads :
    {A : Type 0} (db : Db) (r : Result (A × Db))
    → Reads db
    → ((a : A) (db' : Db) → r ≡ ok (a, db') → Reads db')
    → Reads (or_same_with db r)
or_same_with-Reads db (ok (a, db')) h step = step a db' refl
or_same_with-Reads db (err e) h step = h

inserted-Reads :
    (id app : Text) (rel : ℕ) (tap : Text) (idx now : ℕ) (db : Db) {ip : Text} {db' : Db}
    → idx < 256
    → Reads db
    → alloc_and_insert_machine id app rel tap idx now db ≡ ok (ip, db')
    → Reads db'
unfolding Readable
inserted-Reads id app rel tap idx now db {ip} {db'} small h e =
    let (free, ins) =
      alloc_and_insert_machine_inv id app rel tap idx now db {ip = ip} {db' = db'} e in
    let a = alloc_ip-Allocated idx db small {ip = ip} free in
    let (new_id, new_ip, there, same) =
      insert_machine_inv id app rel ip tap now db {db' = db'} ins in
    let addr = subnet_addr idx a.host in
    let reads : ip_to_uint32 ip ≡ ok addr =
      subst (λ (s : Text). ip_to_uint32 s ≡ ok addr) (sym a.shown)
        (ip_to_uint32-uint32_to_ip addr (omega (arith, a.below_broadcast, small))) in
    subst Reads (sym same) ((addr, reads), h)

Reads-perform : (op : Op) (db : Db) → OfDaemon op → Reads db → Reads (perform op db)
unfolding perform touches delete_machine Readable
Reads-perform (Op.insert_machine id app rel ip tap now) db o h = cc o
Reads-perform (Op.alloc_and_insert_machine id app rel tap idx now) db o h =
    or_same_with-Reads db _ h
      (λ ip db' e. inserted-Reads id app rel tap idx now db {ip = ip} {db' = db'} o h e)
Reads-perform (Op.set_machine_state id state pid) db o h = or_same-Reads db _ h (λ db' e.
    subst Reads (sym (set_machine_state_inv id state pid db {db' = db'} e))
      (All-update_by _ _ id _ db.machines (λ m p. p) h))
Reads-perform (Op.delete_machine id) db o h = All-delete_by _ _ id db.machines h
Reads-perform op db o h = subst Readable (sym (perform-machines op db refl)) h

Reads-perform_all :
    (ops : List Op) (db : Db) → All OfDaemon ops → Reads db → Reads (perform_all ops db)
unfolding perform_all
Reads-perform_all [] db o h = h
Reads-perform_all (op ∷ ops) db (o, os) h =
    Reads-perform_all ops (perform op db) os (Reads-perform op db o h)

admitted :
    (id app : Text) (rel : ℕ) (ip tap : Text) (now : ℕ) (db : Db)
    → has (λ (m : Machine). m.id) id db.machines ≡ false
    → has (λ (m : Machine). m.ip) ip db.machines ≡ false
    → has_app db.apps app ≡ true
    → insert_machine id app rel ip tap now db
      ≡ ok (record db { machines = machine_row id app rel ip tap now ∷ db.machines })
unfolding insert_machine
admitted id app rel ip tap now db new_id new_ip there = rw (new_id, new_ip, there) refl

-- After any operations of the daemon on a new database, failing or not: a machine with a new id, for an
-- app that exists, in a tenant's subnet with a host from .2 to .254 that no machine has, is always
-- admitted. AllocAndInsertMachine returns an address, the lowest that is free; the constraint on the
-- addresses never refuses it; and the row of the machine, with this address, is all that is added.
pub alloc_and_insert_machine-Allocated :
    (ops : List Op) (id app : Text) (rel : ℕ) (tap : Text) (idx now k : ℕ)
    → All OfDaemon ops
    → idx < 256
    → 2 ≤ k
    → k ≤ 254
    → taken (subnet_addr idx k) (perform_all ops fresh).machines ≡ false
    → has (λ (m : Machine). m.id) id (perform_all ops fresh).machines ≡ false
    → has_app (perform_all ops fresh).apps app ≡ true
    → (ip : Text) × Allocated idx (perform_all ops fresh) ip
      × (alloc_and_insert_machine id app rel tap idx now (perform_all ops fresh)
          ≡ ok (
            ip,
            record (perform_all ops fresh) {
              machines = machine_row id app rel ip tap now ∷ (perform_all ops fresh).machines;
            },
          ))
unfolding alloc_and_insert_machine
alloc_and_insert_machine-Allocated ops id app rel tap idx now k daemon small low high free new_id
      there =
    let db = perform_all ops fresh in
    let readable = Reads-perform_all ops fresh daemon (unfold Readable in tt) in
    let (ip, found) = alloc_ip_total idx db small readable k low high free in
    let a = alloc_ip-Allocated idx db small {ip = ip} found in
    (ip, a, rw (found, admitted id app rel ip tap now db new_id a.fresh there) refl)
