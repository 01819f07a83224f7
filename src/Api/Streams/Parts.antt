-- ===== src/Api/Streams/Parts.antt =====
-- The parts of a deploy, of which each sends quiet lines.
use oakberryio.Prelude.{
  refl, arith, ℕ, zero, suc, ◌-◌, ◌/◌, ◌<◌, ◌^◌, Bool, List, [], ◌∷◌, Text, nat_eq, text_eq,
  Bool-cases, inl, inr,
}
use oakberryio.Prelude.Int.{ℤ}
use oakberryio.Prelude.Results.{Error, Result, ok, err}
use oakberryio.Effects.{modify}
use oakberryio.Effects.Keeps.{
  Keeps, Keeps-bind, Keeps-modify, Keeps-pure, keeps_rules, Keeps-if, Keeps-fail,
}
use oakberryio.Appconfig.{Config, Service}
use oakberryio.Vm.{Spec}
use oakberryio.Mmds.{Guest}
use oakberryio.Store.{Db, Machine, Release}
use oakberryio.Cli.Lines.{IsLine}
use oakberryio.Deploy.{Env, World, Handle, Poll, healthy, stopped, wrote_tunnel, restarted_tunnel}
use oakberryio.Deploy.State.{
  record_effect, app_config, cache_config, with_db, write_db, write_db_with, set_handle,
  remove_handle, mkdir_all, remove_stale,
}
use oakberryio.Deploy.Health.{poll_rounds, await_healthy}
use oakberryio.Deploy.Ingress.{collect_routes, apply, apply_tunnel}
use oakberryio.Deploy.Launch.{
  Place, Load, describe, start, mark_failed, delete_row, stop_handle, remove_stale_sockets,
}
use oakberryio.Deploy.Boot.{
  stop_machine, stop_where, tear_down, is_restart, tolerate_restart, publish,
}
use oakberryio.Api.Streams.{emitted_text}
use oakberryio.Api.Streams.Lines.{Keeps-beat, Keeps-warning, warning}
use oakberryio.Api.Streams.Quiet.{IsTidy, tens, Keeps-still, IsTidy-still}

pub Keeps-write_db : (f : Db → Result Db) → Keeps IsTidy (write_db f)
unfolding write_db with_db
Keeps-write_db f = Keeps-still _ (λ w. ground arith) (λ w. ground arith)

pub Keeps-write_db_with : {A : Type 0} (f : Db → Result (A × Db)) → Keeps IsTidy (write_db_with f)
unfolding write_db_with with_db
Keeps-write_db_with f = Keeps-still _ (λ w. ground arith) (λ w. ground arith)

pub Keeps-app_config : (env : Env) (app : Text) → Keeps IsTidy (app_config env app)
unfolding app_config cache_config
Keeps-app_config env app = Keeps-still _ (λ w. ground arith) (λ w. ground arith)

pub Keeps-start : (env : Env) (spec : Spec) (guest : Guest) → Keeps IsTidy (start env spec guest)
unfolding start record_effect emitted_text
Keeps-start env spec guest = Keeps-still _ (λ w. ground arith) (λ w. ground arith)

pub Keeps-set_handle : (id : Text) (h : Handle) → Keeps IsTidy (modify (set_handle id h))
unfolding set_handle
Keeps-set_handle id h = Keeps-modify _ (λ w k. IsTidy-still _ w refl refl k)

Keeps-healthy : (ip : Text) → Keeps IsTidy (modify (record_effect (healthy ip)))
unfolding record_effect emitted_text
Keeps-healthy ip = Keeps-modify _ (λ w k. IsTidy-still _ w refl refl k)

Keeps-wrote : (text : Text) → Keeps IsTidy (modify (record_effect (wrote_tunnel text)))
unfolding record_effect emitted_text
Keeps-wrote text = Keeps-modify _ (λ w k. IsTidy-still _ w refl refl k)

Keeps-restarted : Keeps IsTidy (modify (record_effect restarted_tunnel))
unfolding record_effect emitted_text
Keeps-restarted = Keeps-modify _ (λ w k. IsTidy-still _ w refl refl k)

pub mark_failed-IsTidy : (id : Text) (w : World) → IsTidy w → IsTidy (mark_failed id w)
unfolding mark_failed with_db
mark_failed-IsTidy id w = IsTidy-still _ w (ground arith) (ground arith)

pub delete_row-IsTidy : (id : Text) (w : World) → IsTidy w → IsTidy (delete_row id w)
unfolding delete_row with_db
delete_row-IsTidy id w = IsTidy-still _ w refl refl

pub stopped-IsTidy : (h : Handle) (w : World) → IsTidy w → IsTidy (record_effect (stopped h) w)
unfolding record_effect emitted_text
stopped-IsTidy h w = IsTidy-still _ w refl refl

pub tear_down-IsTidy : (id : Text) (h : Handle) (w : World) → IsTidy w → IsTidy (tear_down id h w)
unfolding tear_down remove_handle
tear_down-IsTidy id h w k =
    delete_row-IsTidy id _
      (mark_failed-IsTidy id _ (IsTidy-still _ _ refl refl (stopped-IsTidy h w k)))

stop_machine-IsTidy : (m : Machine) (w : World) → IsTidy w → IsTidy (stop_machine m w)
unfolding stop_machine remove_handle stop_handle record_effect emitted_text
stop_machine-IsTidy m w k =
    IsTidy-still _ _ refl refl
      (delete_row-IsTidy m.id _ (IsTidy-still _ w (ground arith) (ground arith) k))

pub stop_where-IsTidy :
    (p : Machine → Bool) (ms : List Machine) (w : World) → IsTidy w → IsTidy (stop_where p ms w)
unfolding stop_where
stop_where-IsTidy p [] w k = k
stop_where-IsTidy p (m ∷ ms) w k = elim (Bool-cases (p m)) [
  | inl old ↦ rw old (stop_where-IsTidy p ms _ (stop_machine-IsTidy m w k))
  | inr other ↦ rw other (stop_where-IsTidy p ms _ k)
]

-- The readings of the clock are an int64's nanoseconds.
abbrev pub Int64Clock : Env → Type 0
Int64Clock env =
    (ip : Text) (port : ℤ) (path : Text) (i : ℕ) → (env.poll ip port path i).beat_at < 2 ^ 63

Keeps-poll_rounds :
    (since deadline : ℕ) (poll : ℕ → Poll)
    → ((i : ℕ) → (poll i).beat_at < 2 ^ 63)
    → (fuel i next_beat : ℕ) → Keeps IsTidy (poll_rounds since deadline poll fuel i next_beat)
unfolding poll_rounds tens
Keeps-poll_rounds since deadline poll h zero i next_beat = search keeps_rules
Keeps-poll_rounds since deadline poll h (suc fuel) i next_beat =
    let rest = Keeps-poll_rounds since deadline poll h fuel in
    let beat = Keeps-beat (((poll i).beat_at - since) / 10 ^ 9) (omega (arith, h i)) in
    Keeps-if (poll i).healthy _ _ (Keeps-pure tt) (
      Keeps-if _ _ _ (Keeps-fail _) (
        Keeps-if _ _ _
          (Keeps-bind _ _ beat (λ _. Keeps-if (poll i).context_done _ _ (Keeps-fail _) (rest _ _)))
          (Keeps-if (poll i).context_done _ _ (Keeps-fail _) (rest _ _))))

pub Keeps-await_healthy :
    (env : Env)
    → Int64Clock env
    → (ss : List Service) (ip : Text) → Keeps IsTidy (await_healthy env ss ip)
unfolding await_healthy
Keeps-await_healthy env h [] ip = search keeps_rules
Keeps-await_healthy env h (s ∷ ss) ip =
    Keeps-bind _ _ (Keeps-poll_rounds _ _ _ (h ip s.internal_port s.check.path) _ _ _)
      (λ _. Keeps-healthy ip)

pub Keeps-describe :
    (env : Env) (cfg : Config) (rel : Release) (place : Place) (load : Load) (image_env : List Text)
    → Keeps IsTidy (describe env cfg rel place load image_env)
unfolding describe mkdir_all remove_stale_sockets remove_stale
Keeps-describe env cfg rel place load image_env = search keeps_rules depth 12

Keeps-collect_routes : (env : Env) (ms : List Machine) → Keeps IsTidy (collect_routes env ms)
unfolding collect_routes
Keeps-collect_routes env [] = search keeps_rules
Keeps-collect_routes env (m ∷ ms) =
    Keeps-bind _ _ (Keeps-app_config env m.app)
      (λ cfg. Keeps-bind _ _ (Keeps-collect_routes env ms) (λ rest. Keeps-pure _))

Keeps-apply_tunnel : (env : Env) → Keeps IsTidy (apply_tunnel env)
unfolding apply_tunnel apply
Keeps-apply_tunnel env =
    search (keeps_rules, Keeps-collect_routes, Keeps-wrote, Keeps-restarted) depth 12

Keeps-tolerate_restart :
    (env : Env)
    → IsLine (warning env.restart_error)
    → (e : Error) → Keeps IsTidy (tolerate_restart env e)
unfolding tolerate_restart
Keeps-tolerate_restart env h e =
    Keeps-if (is_restart e) _ _ (Keeps-warning env.restart_error h) (Keeps-fail e)

pub Keeps-publish : (env : Env) → IsLine (warning env.restart_error) → Keeps IsTidy (publish env)
unfolding publish
Keeps-publish env h = record {
  at = λ w k. go (apply_tunnel env w).0 (apply_tunnel env w).1 ((Keeps-apply_tunnel env).at w k);
}
  where
    go :
        (r : Result (Unit {0})) (w : World)
        → IsTidy w
        → IsTidy
            (elim r as (λ _. Result (Unit {0}) × World) [
              | ok _ ↦ (ok tt, w)
              | err e ↦ tolerate_restart env e w
            ]).1
    go (ok _) w k = k
    go (err e) w k = (Keeps-tolerate_restart env h e).at w k
