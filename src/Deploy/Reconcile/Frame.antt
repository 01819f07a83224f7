-- ===== src/Deploy/Reconcile/Frame.antt =====
-- The calls of reconcileOne of internal/daemon/daemon.go that touch neither the rows of the machines
-- nor the handles.
use oakberryio.Prelude.{◌≡◌, arith, List, [], ◌∷◌, Text, nat_eq, text_eq}
use oakberryio.Prelude.Dict.{Dict}
use oakberryio.Effects.{Exec, modify}
use oakberryio.Effects.Keeps.{Keeps, Keeps-bind, Keeps-modify, Keeps-pure, keeps_rules}
use oakberryio.Store.{Machine}
use oakberryio.Store.Machines.{state_eq}
use oakberryio.Deploy.{Env, World, Handle, Effect}
use oakberryio.Deploy.State.{
  app_config, cache_config, record_effect, write_db_with, with_db, subnet_for_app, remove_stale,
}
use oakberryio.Deploy.Launch.{start, remove_stale_sockets}
use oakberryio.Deploy.Ingress.{collect_routes, apply, apply_tunnel}
use oakberryio.Store.Subnets.{subnet_for_owner}
use oakberryio.Vm.{Spec}
use oakberryio.Mmds.{Guest}

-- What holds of the rows of the machines and of the Deployer's handles.
pub record Rows (P : List Machine → Dict Handle → Type 0) (w : World) : Type 0 where
  pub holds : P w.db.machines w.handles

-- Actions that touch neither the machines nor the handles.
module _ {P : List Machine → Dict Handle → Type 0} where
  Keeps-same :
      {A : Type 0} (act : Exec World A)
      → ((w : World) → (act w).1.db.machines ≡ w.db.machines)
      → ((w : World) → (act w).1.handles ≡ w.handles)
      → Keeps (Rows P) act
  Keeps-same act db hs = record { at = λ w p. record { holds = rw (db w, hs w) p.holds } }

  pub Keeps-start :
      (env : Env) (spec : Spec) (guest : Guest) → Keeps (Rows P) (start env spec guest)
  unfolding start record_effect
  Keeps-start env spec guest = Keeps-same _ (λ w. ground arith) (λ w. ground arith)

  pub Keeps-app_config : (env : Env) (app : Text) → Keeps (Rows P) (app_config env app)
  unfolding app_config cache_config
  Keeps-app_config env app = Keeps-same _ (λ w. ground arith) (λ w. ground arith)

  pub Keeps-subnet_for_app : (app : Text) → Keeps (Rows P) (subnet_for_app app)
  unfolding subnet_for_app write_db_with with_db subnet_for_owner
  Keeps-subnet_for_app app =
      Keeps-bind _ _ (search keeps_rules)
        (λ owner. Keeps-same _ (λ w. ground arith) (λ w. ground arith))

  Keeps-collect_routes : (env : Env) (ms : List Machine) → Keeps (Rows P) (collect_routes env ms)
  unfolding collect_routes
  Keeps-collect_routes env [] = search keeps_rules
  Keeps-collect_routes env (m ∷ ms) =
      Keeps-bind _ _ (Keeps-app_config env m.app)
        (λ cfg. Keeps-bind _ _ (Keeps-collect_routes env ms) (λ rest. Keeps-pure _))

  Keeps-record : (e : Effect) → Keeps (Rows P) (modify (record_effect e))
  unfolding record_effect
  Keeps-record e = Keeps-modify _ (λ w h. record { holds = h.holds })

  pub Keeps-apply_tunnel : (env : Env) → Keeps (Rows P) (apply_tunnel env)
  unfolding apply_tunnel apply
  Keeps-apply_tunnel env = search (keeps_rules, Keeps-collect_routes, Keeps-record) depth 12

  pub Keeps-remove_stale_sockets :
      (env : Env) (id : Text) → Keeps (Rows P) (remove_stale_sockets env id)
  unfolding remove_stale_sockets remove_stale
  Keeps-remove_stale_sockets env id = search keeps_rules
