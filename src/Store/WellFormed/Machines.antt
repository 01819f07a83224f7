-- ===== src/Store/WellFormed/Machines.antt =====
-- The constraints of the schema under the operations on machines.
use oakberryio.Prelude.{
  ℕ, ◌≡◌, refl, true, false, none, List, ◌∷◌, Text, arith, All, text_eq, nat_eq,
}
use oakberryio.Prelude.Results.{ok}
use oakberryio.Table.{has, update_by, Distinct}
use oakberryio.Table.Laws.{
  Distinct-delete_by, Distinct-update_by, Distinct-delete_other, Distinct-update_other,
  All-delete_by, All-update_by,
}
use oakberryio.Store.{Db, Machine, MachineState, starting, local}
use oakberryio.Store.Ipam.{alloc_ip}
use oakberryio.Store.Machines.{
  insert_machine, alloc_and_insert_machine, set_machine_state, delete_machine, pid_arg,
}
use oakberryio.Store.WellFormed.{WellFormed, has_app}

-- The row that insertMachine adds.
abbrev pub machine_row : Text → Text → ℕ → Text → Text → ℕ → Machine
machine_row id app release_id ip tap now = record {
  id = id;
  app = app;
  release_id = release_id;
  node_id = local;
  ip = ip;
  tap = tap;
  state = starting;
  pid = none;
  created_at = now;
}

pub insert_machine_inv :
    (id app : Text) (rel : ℕ) (ip tap : Text) (now : ℕ) (db : Db) {db' : Db}
    → insert_machine id app rel ip tap now db ≡ ok db'
    → (has (λ (m : Machine). m.id) id db.machines ≡ false)
      × (has (λ (m : Machine). m.ip) ip db.machines ≡ false)
      × (has_app db.apps app ≡ true)
      × (db' ≡ record db { machines = machine_row id app rel ip tap now ∷ db.machines })
unfolding insert_machine
insert_machine_inv id app rel ip tap now db e = ground arith

pub alloc_and_insert_machine_inv :
    (id app : Text) (rel : ℕ) (tap : Text) (idx now : ℕ) (db : Db) {ip : Text} {db' : Db}
    → alloc_and_insert_machine id app rel tap idx now db ≡ ok (ip, db')
    → (alloc_ip idx db ≡ ok ip) × (insert_machine id app rel ip tap now db ≡ ok db')
unfolding alloc_and_insert_machine
alloc_and_insert_machine_inv id app rel tap idx now db {ip} {db'} e = ground arith

pub set_machine_state_inv :
    (id : Text) (state : MachineState) (pid : ℕ) (db : Db) {db' : Db}
    → set_machine_state id state pid db ≡ ok db'
    → db' ≡ record db {
      machines =
          update_by
            (λ (m : Machine). m.id)
            id
            (λ m. record m { state = state; pid = pid_arg pid })
            db.machines;
    }
unfolding set_machine_state
set_machine_state_inv id state pid db e = ground arith

module _ {db : Db} (h : WellFormed db) where
  -- Only the rows of machines change.
  new_machines :
      (ms : List Machine)
      → Distinct (λ (m : Machine). m.id) ms
      → Distinct (λ (m : Machine). m.ip) ms
      → All (λ (m : Machine). has_app db.apps m.app ≡ true) ms
      → WellFormed (record db { machines = ms })
  new_machines ms ids ips apps = record {
    app_names = h.app_names;
    release_ids = h.release_ids;
    release_apps = h.release_apps;
    machine_ids = ids;
    machine_ips = ips;
    machine_apps = apps;
    volume_keys = h.volume_keys;
    secret_keys = h.secret_keys;
    subnet_owners = h.subnet_owners;
    subnet_idxs = h.subnet_idxs;
  }

  pub insert_machine-WellFormed :
      (id app : Text) (rel : ℕ) (ip tap : Text) (now : ℕ) {db' : Db}
      → insert_machine id app rel ip tap now db ≡ ok db'
      → WellFormed db'
  insert_machine-WellFormed id app rel ip tap now {db'} e =
      let (new_id, new_ip, there, same) =
        insert_machine_inv id app rel ip tap now db {db' = db'} e in
      rw same
        (new_machines _ (new_id, h.machine_ids) (new_ip, h.machine_ips) (there, h.machine_apps))

  pub alloc_and_insert_machine-WellFormed :
      (id app : Text) (rel : ℕ) (tap : Text) (idx now : ℕ) {ip : Text} {db' : Db}
      → alloc_and_insert_machine id app rel tap idx now db ≡ ok (ip, db')
      → WellFormed db'
  alloc_and_insert_machine-WellFormed id app rel tap idx now {ip} {db'} e =
      insert_machine-WellFormed id app rel ip tap now {db' = db'}
        (alloc_and_insert_machine_inv id app rel tap idx now db {ip = ip} {db' = db'} e).1

  pub set_machine_state-WellFormed :
      (id : Text) (state : MachineState) (pid : ℕ) {db' : Db}
      → set_machine_state id state pid db ≡ ok db'
      → WellFormed db'
  set_machine_state-WellFormed id state pid {db'} e =
      rw (set_machine_state_inv id state pid db {db' = db'} e) (
        new_machines _ (Distinct-update_by _ _ (λ m. refl) id db.machines h.machine_ids)
          (Distinct-update_other _ _ _ (λ m. refl) id db.machines h.machine_ips)
          (All-update_by _ _ id _ db.machines (λ m p. p) h.machine_apps))

  pub delete_machine-WellFormed : (id : Text) → WellFormed (delete_machine id db)
  unfolding delete_machine
  delete_machine-WellFormed id =
      new_machines _ (Distinct-delete_by _ id db.machines h.machine_ids)
        (Distinct-delete_other _ _ id db.machines h.machine_ips)
        (All-delete_by _ _ id db.machines h.machine_apps)
