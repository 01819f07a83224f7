-- ===== src/Tests/Rows.antt =====
-- Runs of the store and of the resolver.
use oakberryio.Prelude.{
  ◌≡◌, ◌≢◌, refl, arith, true, false, some, List, [], ◌∷◌, Text, t, ◌==◌, if◌then◌else◌, text_eq,
  nat_eq,
}
use oakberryio.Prelude.Results.{ok, err, not_found}
use oakberryio.Table.{has, find_by}
use oakberryio.Net.Ip.{Octets}
use oakberryio.Store.{Db, Machine, fresh}
use oakberryio.Store.Apps.{upsert_app, set_app_owner, app_owner}
use oakberryio.Store.Releases.{insert_release, latest_release}
use oakberryio.Store.Releases.Latest.{recorded}
use oakberryio.Store.Ipam.{alloc_ip}
use oakberryio.Store.Ipam.Laws.{
  Allocated, Readable, taken, subnet_addr, alloc_ip-Allocated, alloc_ip_total,
}
use oakberryio.Store.Subnets.{subnet_for_owner, owner_for_subnet}
use oakberryio.Store.WellFormed.{fresh-WellFormed, has_app}
use oakberryio.Store.WellFormed.Machines.{machine_row}
use oakberryio.Store.Ops.{Op, perform_all}
use oakberryio.Store.Ops.Admission.{alloc_and_insert_machine-Allocated}
use oakberryio.Store.Ops.Owners.{app_owner_kept, NeverDeleted}
use oakberryio.Store.Ops.Tenants.{subnet_for_owner_stable, owner_for_subnet-subnet_for_owner}
use oakberryio.Store.Machines.{machines_for_app, alloc_and_insert_machine}
use oakberryio.Dns.{requester_can_see, resolve_dns, running_addrs, resolve_local, a_record}
use oakberryio.Dns.Tenancy.{guest, resolve_dns-tenant, resolve_local-hidden}
use oakberryio.Tests.{one_app}

-- An app is made, owned, released and started.
abbrev history : List Op
history =
    Op.upsert_app (t "web") (t "{}")
    ∷ Op.set_app_owner (t "web") (t "ann")
    ∷ Op.insert_release (t "web") (t "i") (t "/r") (t "{}") (t "[]") (t "/") 1
    ∷ Op.alloc_and_insert_machine (t "aa") (t "web") 1 (t "oak-aa") 1 2
    ∷ []

-- What `history` makes of a new database.
made_free :
    (taken (subnet_addr 1 3) (perform_all history fresh).machines ≡ false)
    × (has (λ (m : Machine). m.id) (t "bb") (perform_all history fresh).machines ≡ false)
    × (has_app (perform_all history fresh).apps (t "web") ≡ true)
unfolding oakberryio.Store.Ipam.subnet_base oakberryio.Store.Ipam.used_addrs
    oakberryio.Store.Ipam.is_used oakberryio.Store.Ipam.first_free oakberryio.Store.Ipam.alloc_ip
    oakberryio.Net.Ip.parse_fields oakberryio.Net.Ip.parse_ip4 oakberryio.Net.Ip.print_ip4
    oakberryio.Net.Ip.big_endian oakberryio.Net.Ip.put_big_endian oakberryio.Net.Ip.ip_to_uint32
    oakberryio.Net.Ip.uint32_to_ip oakberryio.Text.Decimal.itoa oakberryio.Text.Decimal.is_digit
    oakberryio.Text.Decimal.read_digits oakberryio.Table.has oakberryio.Table.find_by
    oakberryio.Table.select_by oakberryio.Table.delete_by oakberryio.Table.update_by
    oakberryio.Store.Apps.upsert_app oakberryio.Store.Apps.apps oakberryio.Store.Apps.app_config
    oakberryio.Store.Apps.set_app_owner oakberryio.Store.Apps.app_owner
    oakberryio.Store.Apps.apps_detailed oakberryio.Store.Apps.delete_app
    oakberryio.Store.Subnets.smallest_free oakberryio.Store.Subnets.smallest_free_subnet_idx
    oakberryio.Store.Subnets.subnet_for_owner oakberryio.Store.Subnets.owner_for_subnet
    oakberryio.Store.Ipam.Laws.taken oakberryio.Store.Ipam.Laws.Readable text_eq nat_eq
    oakberryio.Store.Ops.perform oakberryio.Store.Ops.perform_all
    oakberryio.Store.Machines.insert_machine oakberryio.Store.Machines.alloc_and_insert_machine
    oakberryio.Store.Releases.next_id oakberryio.Store.Releases.insert_release
    oakberryio.Store.Releases.largest_id
made_free = (refl, refl, refl)

alloc_and_insert_machine-Allocated_example :
    (ip : Text) × Allocated 1 (perform_all history fresh) ip
    × (alloc_and_insert_machine (t "bb") (t "web") 1 (t "oak-bb") 1 5 (perform_all history fresh)
        ≡ ok (
          ip,
          record (perform_all history fresh) {
            machines =
                machine_row (t "bb") (t "web") 1 ip (t "oak-bb") 5
                ∷ (perform_all history fresh).machines;
          },
        ))
alloc_and_insert_machine-Allocated_example =
    alloc_and_insert_machine-Allocated history (t "bb") (t "web") 1 (t "oak-bb") 1 5 3
      (tt, (tt, (tt, (omega arith, tt)))) (omega arith) (omega arith) (omega arith) made_free.0
      made_free.1 made_free.2

second_addr : alloc_ip 1 one_app ≡ ok (t "10.200.1.3")
unfolding oakberryio.Store.Ipam.subnet_base oakberryio.Store.Ipam.used_addrs
    oakberryio.Store.Ipam.is_used oakberryio.Store.Ipam.first_free oakberryio.Store.Ipam.alloc_ip
    oakberryio.Net.Ip.parse_fields oakberryio.Net.Ip.parse_ip4 oakberryio.Net.Ip.print_ip4
    oakberryio.Net.Ip.big_endian oakberryio.Net.Ip.put_big_endian oakberryio.Net.Ip.ip_to_uint32
    oakberryio.Net.Ip.uint32_to_ip oakberryio.Text.Decimal.itoa oakberryio.Text.Decimal.is_digit
    oakberryio.Text.Decimal.read_digits oakberryio.Table.has oakberryio.Table.find_by
    oakberryio.Table.select_by oakberryio.Table.delete_by oakberryio.Table.update_by
    oakberryio.Store.Apps.upsert_app oakberryio.Store.Apps.apps oakberryio.Store.Apps.app_config
    oakberryio.Store.Apps.set_app_owner oakberryio.Store.Apps.app_owner
    oakberryio.Store.Apps.apps_detailed oakberryio.Store.Apps.delete_app
    oakberryio.Store.Subnets.smallest_free oakberryio.Store.Subnets.smallest_free_subnet_idx
    oakberryio.Store.Subnets.subnet_for_owner oakberryio.Store.Subnets.owner_for_subnet
    oakberryio.Store.Ipam.Laws.taken oakberryio.Store.Ipam.Laws.Readable text_eq nat_eq
second_addr = refl

alloc_ip-Allocated_example : Allocated 1 one_app (t "10.200.1.3")
alloc_ip-Allocated_example =
    alloc_ip-Allocated 1 one_app (omega arith) {ip = t "10.200.1.3"} second_addr

readable : Readable one_app.machines
unfolding oakberryio.Store.Ipam.subnet_base oakberryio.Store.Ipam.used_addrs
    oakberryio.Store.Ipam.is_used oakberryio.Store.Ipam.first_free oakberryio.Store.Ipam.alloc_ip
    oakberryio.Net.Ip.parse_fields oakberryio.Net.Ip.parse_ip4 oakberryio.Net.Ip.print_ip4
    oakberryio.Net.Ip.big_endian oakberryio.Net.Ip.put_big_endian oakberryio.Net.Ip.ip_to_uint32
    oakberryio.Net.Ip.uint32_to_ip oakberryio.Text.Decimal.itoa oakberryio.Text.Decimal.is_digit
    oakberryio.Text.Decimal.read_digits oakberryio.Table.has oakberryio.Table.find_by
    oakberryio.Table.select_by oakberryio.Table.delete_by oakberryio.Table.update_by
    oakberryio.Store.Apps.upsert_app oakberryio.Store.Apps.apps oakberryio.Store.Apps.app_config
    oakberryio.Store.Apps.set_app_owner oakberryio.Store.Apps.app_owner
    oakberryio.Store.Apps.apps_detailed oakberryio.Store.Apps.delete_app
    oakberryio.Store.Subnets.smallest_free oakberryio.Store.Subnets.smallest_free_subnet_idx
    oakberryio.Store.Subnets.subnet_for_owner oakberryio.Store.Subnets.owner_for_subnet
    oakberryio.Store.Ipam.Laws.taken oakberryio.Store.Ipam.Laws.Readable text_eq nat_eq
readable = ((180879618, refl), tt)

free_host : taken (subnet_addr 1 3) one_app.machines ≡ false
unfolding oakberryio.Store.Ipam.subnet_base oakberryio.Store.Ipam.used_addrs
    oakberryio.Store.Ipam.is_used oakberryio.Store.Ipam.first_free oakberryio.Store.Ipam.alloc_ip
    oakberryio.Net.Ip.parse_fields oakberryio.Net.Ip.parse_ip4 oakberryio.Net.Ip.print_ip4
    oakberryio.Net.Ip.big_endian oakberryio.Net.Ip.put_big_endian oakberryio.Net.Ip.ip_to_uint32
    oakberryio.Net.Ip.uint32_to_ip oakberryio.Text.Decimal.itoa oakberryio.Text.Decimal.is_digit
    oakberryio.Text.Decimal.read_digits oakberryio.Table.has oakberryio.Table.find_by
    oakberryio.Table.select_by oakberryio.Table.delete_by oakberryio.Table.update_by
    oakberryio.Store.Apps.upsert_app oakberryio.Store.Apps.apps oakberryio.Store.Apps.app_config
    oakberryio.Store.Apps.set_app_owner oakberryio.Store.Apps.app_owner
    oakberryio.Store.Apps.apps_detailed oakberryio.Store.Apps.delete_app
    oakberryio.Store.Subnets.smallest_free oakberryio.Store.Subnets.smallest_free_subnet_idx
    oakberryio.Store.Subnets.subnet_for_owner oakberryio.Store.Subnets.owner_for_subnet
    oakberryio.Store.Ipam.Laws.taken oakberryio.Store.Ipam.Laws.Readable text_eq nat_eq
free_host = refl

alloc_ip_total_example : (ip : Text) × (alloc_ip 1 one_app ≡ ok ip)
alloc_ip_total_example =
    alloc_ip_total 1 one_app (omega arith) readable 3 (omega arith) (omega arith) free_host

-- The subnets of a new database, after ann has been given one.
abbrev with_ann : Db
with_ann = record fresh {
  tenant_subnets = record { owner = t "ann"; idx = 1 } ∷ fresh.tenant_subnets;
}

given : subnet_for_owner (t "ann") fresh ≡ ok (1, with_ann)
unfolding oakberryio.Store.Ipam.subnet_base oakberryio.Store.Ipam.used_addrs
    oakberryio.Store.Ipam.is_used oakberryio.Store.Ipam.first_free oakberryio.Store.Ipam.alloc_ip
    oakberryio.Net.Ip.parse_fields oakberryio.Net.Ip.parse_ip4 oakberryio.Net.Ip.print_ip4
    oakberryio.Net.Ip.big_endian oakberryio.Net.Ip.put_big_endian oakberryio.Net.Ip.ip_to_uint32
    oakberryio.Net.Ip.uint32_to_ip oakberryio.Text.Decimal.itoa oakberryio.Text.Decimal.is_digit
    oakberryio.Text.Decimal.read_digits oakberryio.Table.has oakberryio.Table.find_by
    oakberryio.Table.select_by oakberryio.Table.delete_by oakberryio.Table.update_by
    oakberryio.Store.Apps.upsert_app oakberryio.Store.Apps.apps oakberryio.Store.Apps.app_config
    oakberryio.Store.Apps.set_app_owner oakberryio.Store.Apps.app_owner
    oakberryio.Store.Apps.apps_detailed oakberryio.Store.Apps.delete_app
    oakberryio.Store.Subnets.smallest_free oakberryio.Store.Subnets.smallest_free_subnet_idx
    oakberryio.Store.Subnets.subnet_for_owner oakberryio.Store.Subnets.owner_for_subnet
    oakberryio.Store.Ipam.Laws.taken oakberryio.Store.Ipam.Laws.Readable text_eq nat_eq
given = refl

subnet_for_owner_stable_example :
    subnet_for_owner (t "ann") (perform_all history with_ann) ≡ ok (1, perform_all history with_ann)
subnet_for_owner_stable_example =
    subnet_for_owner_stable (t "ann") fresh history {idx = 1} {db' = with_ann} given

owner_for_subnet-subnet_for_owner_example :
    owner_for_subnet 1 (perform_all history with_ann) ≡ ok (t "ann")
owner_for_subnet-subnet_for_owner_example =
    owner_for_subnet-subnet_for_owner (t "ann") fresh history {idx = 1} {db' = with_ann}
      fresh-WellFormed given

-- A machine of ann's subnet asks for the app of bob.
resolve_dns-tenant_example :
    resolve_dns (t "db") (some (guest 1 2)) (perform_all history with_ann)
    ≡ (elim (app_owner (t "db") (perform_all history with_ann)) [
      | err e ↦ []
      | ok q ↦
          if q == t "ann"
          then running_addrs (machines_for_app (t "db") (perform_all history with_ann))
          else []
    ])
resolve_dns-tenant_example =
    resolve_dns-tenant (t "ann") fresh history {idx = 1} {db' = with_ann} fresh-WellFormed given
      (t "db") 2

hidden_from_admin : requester_can_see (t "web") (some (guest 0 2)) one_app ≡ false
unfolding oakberryio.Store.Ipam.subnet_base oakberryio.Store.Ipam.used_addrs
    oakberryio.Store.Ipam.is_used oakberryio.Store.Ipam.first_free oakberryio.Store.Ipam.alloc_ip
    oakberryio.Net.Ip.parse_fields oakberryio.Net.Ip.parse_ip4 oakberryio.Net.Ip.print_ip4
    oakberryio.Net.Ip.big_endian oakberryio.Net.Ip.put_big_endian oakberryio.Net.Ip.ip_to_uint32
    oakberryio.Net.Ip.uint32_to_ip oakberryio.Text.Decimal.itoa oakberryio.Text.Decimal.is_digit
    oakberryio.Text.Decimal.read_digits oakberryio.Table.has oakberryio.Table.find_by
    oakberryio.Table.select_by oakberryio.Table.delete_by oakberryio.Table.update_by
    oakberryio.Store.Apps.upsert_app oakberryio.Store.Apps.apps oakberryio.Store.Apps.app_config
    oakberryio.Store.Apps.set_app_owner oakberryio.Store.Apps.app_owner
    oakberryio.Store.Apps.apps_detailed oakberryio.Store.Apps.delete_app
    oakberryio.Store.Subnets.smallest_free oakberryio.Store.Subnets.smallest_free_subnet_idx
    oakberryio.Store.Subnets.subnet_for_owner oakberryio.Store.Subnets.owner_for_subnet
    oakberryio.Store.Ipam.Laws.taken oakberryio.Store.Ipam.Laws.Readable text_eq nat_eq
    oakberryio.Dns.requester_can_see
hidden_from_admin = refl

no_web : app_owner (t "web") fresh ≡ err not_found
unfolding oakberryio.Store.Ipam.subnet_base oakberryio.Store.Ipam.used_addrs
    oakberryio.Store.Ipam.is_used oakberryio.Store.Ipam.first_free oakberryio.Store.Ipam.alloc_ip
    oakberryio.Net.Ip.parse_fields oakberryio.Net.Ip.parse_ip4 oakberryio.Net.Ip.print_ip4
    oakberryio.Net.Ip.big_endian oakberryio.Net.Ip.put_big_endian oakberryio.Net.Ip.ip_to_uint32
    oakberryio.Net.Ip.uint32_to_ip oakberryio.Text.Decimal.itoa oakberryio.Text.Decimal.is_digit
    oakberryio.Text.Decimal.read_digits oakberryio.Table.has oakberryio.Table.find_by
    oakberryio.Table.select_by oakberryio.Table.delete_by oakberryio.Table.update_by
    oakberryio.Store.Apps.upsert_app oakberryio.Store.Apps.apps oakberryio.Store.Apps.app_config
    oakberryio.Store.Apps.set_app_owner oakberryio.Store.Apps.app_owner
    oakberryio.Store.Apps.apps_detailed oakberryio.Store.Apps.delete_app
    oakberryio.Store.Subnets.smallest_free oakberryio.Store.Subnets.smallest_free_subnet_idx
    oakberryio.Store.Subnets.subnet_for_owner oakberryio.Store.Subnets.owner_for_subnet
    oakberryio.Store.Ipam.Laws.taken oakberryio.Store.Ipam.Laws.Readable text_eq nat_eq
no_web = refl

resolve_local-hidden_example :
    resolve_local (t "web") a_record (some (guest 0 2)) one_app
    ≡ resolve_local (t "web") a_record (some (guest 0 2)) fresh
resolve_local-hidden_example =
    resolve_local-hidden (t "web") a_record (some (guest 0 2)) one_app fresh {e = not_found}
      hidden_from_admin no_web

named : t "ann" ≢ t ""
named h = cc h

never_deleted : NeverDeleted (t "web") history
never_deleted = (refl, (refl, (refl, (refl, tt))))

owned : app_owner (t "web") one_app ≡ ok (t "ann")
unfolding oakberryio.Store.Ipam.subnet_base oakberryio.Store.Ipam.used_addrs
    oakberryio.Store.Ipam.is_used oakberryio.Store.Ipam.first_free oakberryio.Store.Ipam.alloc_ip
    oakberryio.Net.Ip.parse_fields oakberryio.Net.Ip.parse_ip4 oakberryio.Net.Ip.print_ip4
    oakberryio.Net.Ip.big_endian oakberryio.Net.Ip.put_big_endian oakberryio.Net.Ip.ip_to_uint32
    oakberryio.Net.Ip.uint32_to_ip oakberryio.Text.Decimal.itoa oakberryio.Text.Decimal.is_digit
    oakberryio.Text.Decimal.read_digits oakberryio.Table.has oakberryio.Table.find_by
    oakberryio.Table.select_by oakberryio.Table.delete_by oakberryio.Table.update_by
    oakberryio.Store.Apps.upsert_app oakberryio.Store.Apps.apps oakberryio.Store.Apps.app_config
    oakberryio.Store.Apps.set_app_owner oakberryio.Store.Apps.app_owner
    oakberryio.Store.Apps.apps_detailed oakberryio.Store.Apps.delete_app
    oakberryio.Store.Subnets.smallest_free oakberryio.Store.Subnets.smallest_free_subnet_idx
    oakberryio.Store.Subnets.subnet_for_owner oakberryio.Store.Subnets.owner_for_subnet
    oakberryio.Store.Ipam.Laws.taken oakberryio.Store.Ipam.Laws.Readable text_eq nat_eq
owned = refl

app_owner_kept_example : app_owner (t "web") (perform_all history one_app) ≡ ok (t "ann")
app_owner_kept_example =
    app_owner_kept (t "web") (t "ann") named history one_app never_deleted owned

abbrev with_release : Db
with_release = record one_app {
  releases = recorded (t "web") (t "i") (t "/r") (t "{}") (t "[]") (t "/") 4 1 ∷ [];
}

released :
    insert_release (t "web") (t "i") (t "/r") (t "{}") (t "[]") (t "/") 4 one_app
    ≡ ok (1, with_release)
unfolding oakberryio.Store.Releases.next_id oakberryio.Store.Releases.insert_release
    oakberryio.Store.Releases.release_by_id oakberryio.Store.Releases.largest_id
    oakberryio.Store.Releases.latest_release oakberryio.Store.Releases.delete_releases_for_app
    oakberryio.Table.has oakberryio.Table.find_by oakberryio.Table.select_by
    oakberryio.Table.delete_by oakberryio.Table.update_by text_eq nat_eq
released = refl
