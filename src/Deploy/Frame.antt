-- ===== src/Deploy/Frame.antt =====
-- Rules for the parts of internal/daemon/deploy.go that read the store.
use oakberryio.Prelude.{◌≡◌, subst, sym, arith, ℕ, zero, suc, List, [], ◌∷◌, Text}
use oakberryio.Effects.{modify}
use oakberryio.Effects.Keeps.{Keeps, Keeps-bind, Keeps-pure, Keeps-modify, keeps_rules}
use oakberryio.Vm.{Spec}
use oakberryio.Mmds.{Guest}
use oakberryio.Appconfig.{Config, Service}
use oakberryio.Store.{Db, Machine, Release}
use oakberryio.Deploy.{Env, World, Effect, Poll}
use oakberryio.Deploy.State.{record_effect, emit, app_config, mkdir_all, remove_stale, cache_config}
use oakberryio.Deploy.Ingress.{collect_routes, apply, apply_tunnel}
use oakberryio.Deploy.Health.{poll_rounds, await_healthy}
use oakberryio.Deploy.Launch.{Place, Load, start, describe, remove_stale_sockets}

-- What holds of the store.
pub record On (P : Db → Type 0) (w : World) : Type 0 where
  pub store : P w.db

module _ {P : Db → Type 0} where
  pub Keeps-record : (e : Effect) → Keeps (On P) (modify (record_effect e))
  unfolding record_effect
  Keeps-record e = Keeps-modify _ (λ s h. record { store = h.store })

  pub Keeps-emit : (msg : Text) → Keeps (On P) (emit msg)
  unfolding emit
  Keeps-emit msg = Keeps-record _

  Keeps-poll_rounds :
      (started deadline : ℕ) (poll : ℕ → Poll) (fuel i next_beat : ℕ)
      → Keeps (On P) (poll_rounds started deadline poll fuel i next_beat)
  unfolding poll_rounds
  Keeps-poll_rounds started deadline poll zero i next_beat = search keeps_rules
  Keeps-poll_rounds started deadline poll (suc fuel) i next_beat =
      search (keeps_rules, Keeps-emit, Keeps-poll_rounds started deadline poll fuel) depth 12

module _ (env : Env) {P : Db → Type 0} where
  pub Keeps-await_healthy : (ss : List Service) (ip : Text) → Keeps (On P) (await_healthy env ss ip)
  unfolding await_healthy
  Keeps-await_healthy [] ip = search keeps_rules
  Keeps-await_healthy (s ∷ ss) ip = search (keeps_rules, Keeps-poll_rounds, Keeps-record)

  pub Keeps-app_config : (app : Text) → Keeps (On P) (app_config env app)
  unfolding app_config cache_config
  Keeps-app_config app = record { at = λ w h. record { store = subst P (sym (same w)) h.store } }
    where
      same : (w : World) → (app_config env app w).1.db ≡ w.db
      same w = ground arith

  Keeps-collect_routes : (ms : List Machine) → Keeps (On P) (collect_routes env ms)
  unfolding collect_routes
  Keeps-collect_routes [] = search keeps_rules
  Keeps-collect_routes (m ∷ ms) =
      Keeps-bind _ _ (Keeps-app_config m.app)
        (λ cfg. Keeps-bind _ _ (Keeps-collect_routes ms) (λ rest. Keeps-pure _))

  pub Keeps-apply_tunnel : Keeps (On P) (apply_tunnel env)
  unfolding apply_tunnel apply
  Keeps-apply_tunnel = search (keeps_rules, Keeps-collect_routes, Keeps-record) depth 12

  pub Keeps-remove_stale_sockets : (id : Text) → Keeps (On P) (remove_stale_sockets env id)
  unfolding remove_stale_sockets remove_stale
  Keeps-remove_stale_sockets id = search keeps_rules

  pub Keeps-describe :
      (cfg : Config) (rel : Release) (place : Place) (load : Load) (image_env : List Text)
      → Keeps (On P) (describe env cfg rel place load image_env)
  unfolding describe mkdir_all
  Keeps-describe cfg rel place load image_env = search (keeps_rules, Keeps-remove_stale_sockets)

  pub Keeps-start : (spec : Spec) (guest : Guest) → Keeps (On P) (start env spec guest)
  unfolding start record_effect
  Keeps-start spec guest = record { at = λ w h. record { store = subst P (sym (same w)) h.store } }
    where
      same : (w : World) → (start env spec guest w).1.db ≡ w.db
      same w = ground arith
