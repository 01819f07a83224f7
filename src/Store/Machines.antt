-- ===== src/Store/Machines.antt =====
-- The operations of store.go on the table machines.
use oakberryio.Prelude.{
  ℕ, zero, suc, ◌||◌, Option, none, some, List, ◌∷◌, Text, leb, nat_eq, text_eq, if◌then◌else◌,
  sort, Eq,
}
use oakberryio.Prelude.Results.{Result, ok, err, not_found, constraint, ◌>>=◌}
use oakberryio.Table.{has, find_by, select_by, delete_by, update_by}
use oakberryio.Store.{Db, App, Machine, MachineState, starting, running, local}
use oakberryio.Store.Ipam.{alloc_ip}

state_discrete : Discrete MachineState
state_discrete = hlevel

instance unfoldable pub state_eq : Eq MachineState
unfolding state_discrete
state_eq = record { dec = state_discrete }

-- PRIMARY KEY(id), UNIQUE(ip) and the foreign key on apps refuse a row.
unfoldable pub insert_machine : Text → Text → ℕ → Text → Text → ℕ → Db → Result Db
insert_machine id app release_id ip tap now db =
    if has (λ (m : Machine). m.id) id db.machines || has (λ (m : Machine). m.ip) ip db.machines
    then err constraint
    else if has (λ (a : App). a.name) app db.apps
    then ok (record db {
      machines =
          record {
            id = id;
            app = app;
            release_id = release_id;
            node_id = local;
            ip = ip;
            tap = tap;
            state = starting;
            pid = none;
            created_at = now;
          }
          ∷ db.machines;
    })
    else err constraint

-- One transaction: an error leaves the database as it was.
unfoldable pub alloc_and_insert_machine : Text → Text → ℕ → Text → ℕ → ℕ → Db → Result (Text × Db)
alloc_and_insert_machine id app release_id tap idx now db = do
  ip ← alloc_ip idx db
  db' ← insert_machine id app release_id ip tap now db
  ok (ip, db')

-- `pidArg` is NULL for pid 0.
unfoldable pub pid_arg : ℕ → Option ℕ
pid_arg zero = none
pid_arg (suc n) = some (suc n)

-- COALESCE(pid, 0)
unfoldable pub coalesce : Option ℕ → ℕ
coalesce none = 0
coalesce (some n) = n

unfoldable pub set_machine_state : Text → MachineState → ℕ → Db → Result Db
set_machine_state id state pid db =
    if has (λ (m : Machine). m.id) id db.machines
    then ok (record db {
      machines =
          update_by (λ (m : Machine). m.id) id (λ m. record m { state = state; pid = pid_arg pid })
            db.machines;
    })
    else err not_found

unfoldable pub delete_machine : Text → Db → Db
delete_machine id db = record db { machines = delete_by (λ (m : Machine). m.id) id db.machines }

-- ORDER BY created_at DESC, rowid DESC: the table is in the order of rowid DESC, and the sort is stable.
unfoldable pub newest_first : List Machine → List Machine
newest_first = sort (λ m n. leb n.created_at m.created_at)

unfoldable pub machines_for_app : Text → Db → List Machine
machines_for_app app db = newest_first (select_by (λ (m : Machine). m.app) app db.machines)

unfoldable pub running_machines : Db → List Machine
running_machines db = newest_first (select_by (λ (m : Machine). m.state) running db.machines)

unfoldable pub machine : Text → Db → Result Machine
machine id db = elim (find_by (λ (m : Machine). m.id) id db.machines) [
  | none ↦ err not_found
  | some m ↦ ok m
]
