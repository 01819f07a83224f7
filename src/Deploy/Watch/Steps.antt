-- ===== src/Deploy/Watch/Steps.antt =====
-- What the watch of a machine does to the store, on every branch, and what a shutdown leaves.
use oakberryio.Prelude.{
  ◌≡◌, ◌∙◌, ap, refl, arith, Bool, true, false, ◌&&◌, none, some, List, [], ◌∷◌, Text, ◌==◌, nat_eq,
  text_eq, if◌then◌else◌,
}
use oakberryio.Prelude.Dict.{Dict}
use oakberryio.Table.{delete_by, find_by, update_by}
use oakberryio.Store.{Db, Machine, running, stopped}
use oakberryio.Store.Machines.{
  machine, set_machine_state, delete_machine, pid_arg, coalesce, state_eq,
}
use oakberryio.Deploy.{Env, World, Handle}
use oakberryio.Deploy.State.{with_db, remove_handle, record_effect}
use oakberryio.Deploy.Launch.{delete_row}
use oakberryio.Deploy.Ingress.{apply_tunnel}
use oakberryio.Deploy.Frame.{Keeps-apply_tunnel}
use oakberryio.Deploy.Watch.{
  mark_stopped, retire, superseded, watch_machine, stop_handles, stop_all,
}

abbrev id_of : Machine → Text
id_of m = m.id

delete_by-update_by :
    (k : Text) (f : Machine → Machine) (xs : List Machine)
    → ((m : Machine) → (f m).id ≡ m.id)
    → delete_by id_of k (update_by id_of k f xs) ≡ delete_by id_of k xs
unfolding delete_by update_by
delete_by-update_by k f [] same = refl
delete_by-update_by k f (x ∷ xs) same = ground (arith, delete_by-update_by k f xs same, same x)

apply_tunnel-db : (env : Env) (w : World) → (apply_tunnel env w).1.db ≡ w.db
apply_tunnel-db env w =
    ((Keeps-apply_tunnel env {P = λ db. db ≡ w.db}).at w (record { store = refl })).store

mark_stopped-delete :
    (id : Text) (w : World) → delete_machine id (mark_stopped id w).db ≡ delete_machine id w.db
unfolding mark_stopped set_machine_state delete_machine with_db
mark_stopped-delete id w = ground (
  arith,
  delete_by-update_by id (λ m. record m { state = stopped; pid = pid_arg 0 }) w.db.machines
      (λ m. refl),
)

retire-db : (env : Env) (id : Text) (w : World) → (retire env id w).db ≡ delete_machine id w.db
unfolding retire delete_row remove_handle with_db
retire-db env id w = apply_tunnel-db env _ ∙ mark_stopped-delete id w

-- The row that the watch is about: it runs in the process of the handle.
unfoldable pub watched : Text → Handle → Db → Bool
watched id handle db = elim (find_by id_of id db.machines) [
  | none ↦ false
  | some m ↦ m.state == running && coalesce m.pid == handle.pid
]

-- The end of a machine's process takes its row away where the row runs in this very process and the
-- daemon is not shutting down; on every other branch the store stays as it is.
pub watch_machine-db :
    (env : Env) (id : Text) (handle : Handle) (w : World)
    → (watch_machine env id handle w).db ≡ (
        if w.shutting_down
        then w.db
        else if watched id handle w.db
        then delete_machine id w.db
        else w.db)
unfolding watch_machine machine superseded watched
watch_machine-db env id handle w = ground (arith, retire-db env id w)

stop_handles-db : (hs : Dict Handle) (w : World) → (stop_handles hs w).db ≡ w.db
unfolding stop_handles remove_handle record_effect
stop_handles-db [] w = refl
stop_handles-db ((id, h) ∷ hs) w = stop_handles-db hs _

stop_handles-shutting_down :
    (hs : Dict Handle) (w : World) → (stop_handles hs w).shutting_down ≡ w.shutting_down
unfolding stop_handles remove_handle record_effect
stop_handles-shutting_down [] w = refl
stop_handles-shutting_down ((id, h) ∷ hs) w = stop_handles-shutting_down hs _

-- The ends of processes that are seen, one after another.
unfoldable pub watch_all : Env → List (Text × Handle) → World → World
watch_all env [] w = w
watch_all env ((id, h) ∷ es) w = watch_all env es (watch_machine env id h w)

watch_machine-shutting_down :
    (env : Env) (id : Text) (h : Handle) (w : World)
    → w.shutting_down ≡ true
    → watch_machine env id h w ≡ w
unfolding watch_machine
watch_machine-shutting_down env id h w down = ground arith

watch_all-shutting_down :
    (env : Env) (es : List (Text × Handle)) (w : World)
    → w.shutting_down ≡ true
    → watch_all env es w ≡ w
unfolding watch_all
watch_all-shutting_down env [] w down = refl
watch_all-shutting_down env ((id, h) ∷ es) w down =
    ap (watch_all env es) (watch_machine-shutting_down env id h w down)
    ∙ watch_all-shutting_down env es w down

-- After StopAll the ends of the processes, in whatever order they are seen, leave the store as it was
-- before: the running rows are there for Reconcile.
pub stop_all-db :
    (env : Env) (es : List (Text × Handle)) (w : World) → (watch_all env es (stop_all w)).db ≡ w.db
unfolding stop_all
stop_all-db env es w =
    ap (λ (v : World). v.db)
      (watch_all-shutting_down env es _ (stop_handles-shutting_down w.handles _))
    ∙ stop_handles-db w.handles _
