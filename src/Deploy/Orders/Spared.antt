-- ===== src/Deploy/Orders/Spared.antt =====
-- What runReleaseCommand of internal/daemon/deploy.go does beside the store: the handles, and the effects
-- on the host.
use oakberryio.Prelude.{
  ◌≡◌, ap, refl, subst, sym, arith, false, true, Option, none, some, List, [], ◌∷◌, ◌++◌, Text, All,
  text_eq,
}
use oakberryio.Prelude.Results.{Result, ok, err}
use oakberryio.Effects.{Exec, finally, continue, ◌>>=◌}
use oakberryio.Effects.Keeps.{
  Keeps, Keeps-bind, Keeps-modify, Keeps-finally, Keeps-bracket, Restores, Ensures, Ensures-Keeps,
  Ensures-bind, Ensures-pure, keeps_rules,
}
use oakberryio.Table.{has}
use oakberryio.Vm.{Spec}
use oakberryio.Mmds.{Guest}
use oakberryio.Appconfig.{Config}
use oakberryio.Store.{Db, Machine, Release}
use oakberryio.Deploy.{
  Env, World, Handle, Effect, emitted, started, stopped, wrote_tunnel, restarted_tunnel, removed,
}
use oakberryio.Deploy.State.{
  emit, record_effect, with_db, write_db_with, new_machine_id, subnet_for_app, ensure_bridge,
  mkdir_all, remove_stale,
}
use oakberryio.Deploy.Frame.{On, Keeps-emit}
use oakberryio.Deploy.Launch.{
  Place, Load, delete_row, describe, remove_stale_sockets, start, machine_spec,
}
use oakberryio.Deploy.Boot.{allocate}
use oakberryio.Deploy.ReleaseCommand.{await_exit, command_load, run_machine, run_release_command}
use oakberryio.Deploy.ReleaseCommand.Transient.{
  Rows, More, id_of, allocate-Restores, allocate-More, deleted, Keeps-run_machine,
}

-- An effect that leaves the machines of these rows and the tunnel alone: a machine that is started has
-- another id than each of the rows, and a handle that is stopped is that of such a machine.
abbrev pub Spares : Env → List Machine → Effect → Type 0
Spares env ms (started spec guest) = has id_of spec.id ms ≡ false
Spares env ms (stopped h) =
    (spec : Spec) × (guest : Guest) × (env.start spec guest ≡ some h)
    × (has id_of spec.id ms ≡ false)
Spares env ms (wrote_tunnel text) = false ≡ true
Spares env ms restarted_tunnel = false ≡ true
Spares env ms (removed path) = false ≡ true
Spares env ms e = Unit

-- From one state to a later one: the handles are the same, and the effects since then spare the rows.
pub record Spared (env : Env) (ms : List Machine) (before w : World) : Type 0 where
  pub handles : w.handles ≡ before.handles
  pub added : List Effect
  pub trace : w.trace ≡ added ++ before.trace
  pub spares : All (Spares env ms) added

pub Spared-refl : (env : Env) (ms : List Machine) (w : World) → Spared env ms w w
Spared-refl env ms w = record { handles = refl; added = []; trace = refl; spares = tt }

-- Any end of an action
pub ends : {A : Type 0} {P : World → Type 0} (m : Exec World A) → Ensures P m (λ _ _. Unit {0})
ends m = record { at = λ s h a s' e. tt }

-- What follows a value may use how it was computed from the state that there was.
Keeps-using :
    {A B : Type 0} {P : World → Type 0} (m : Exec World A) (f : A → Exec World B)
    → Keeps P m
    → ((a : A) (w : World) → (m w).0 ≡ ok a → Keeps P (f a))
    → Keeps P (m >>= f)
unfolding ◌>>=◌
Keeps-using {A = A} {P = P} m f km kf = record {
  at = λ w p. go (m w).0 (m w).1 (km.at w p) (λ a e. kf a w e);
}
  where
    go :
        (r : Result A) (s : World)
        → P s
        → ((a : A) → r ≡ ok a → Keeps P (f a))
        → P (continue r f s).1
    go (ok a) s p kf = (kf a refl).at s p
    go (err e) s p kf = p

pub Keeps-both :
    {A : Type 0} {P Q : World → Type 0} (m : Exec World A)
    → Keeps P m
    → Keeps Q m
    → Keeps (λ w. P w × Q w) m
Keeps-both m kp kq = record { at = λ w h. (kp.at w h.0, kq.at w h.1) }

module _ (env : Env) (ms : List Machine) (before : World) where
  pub Spared-effect :
      (e : Effect) (w : World)
      → Spares env ms e
      → Spared env ms before w
      → Spared env ms before (record_effect e w)
  unfolding record_effect
  Spared-effect e w h k = record {
    handles = k.handles;
    added = e ∷ k.added;
    trace = ap (λ (es : List Effect). e ∷ es) k.trace;
    spares = (h, k.spares);
  }

  pub Spared-still :
      (v w : World)
      → v.handles ≡ w.handles
      → v.trace ≡ w.trace
      → Spared env ms before w
      → Spared env ms before v
  Spared-still v w same_handles same_trace k = record {
    handles = cc (same_handles, k.handles);
    added = k.added;
    trace = cc (same_trace, k.trace);
    spares = k.spares;
  }

  pub Spared-emit : (msg : Text) → Keeps (Spared env ms before) (emit msg)
  unfolding emit
  Spared-emit msg = Keeps-modify _ (λ w k. Spared-effect (emitted msg) w tt k)

  pub Spared-write :
      {A : Type 0} (f : Db → Result (A × Db)) → Keeps (Spared env ms before) (write_db_with f)
  unfolding write_db_with with_db
  Spared-write f = record {
    at = λ w k. Spared-still (write_db_with f w).1 w (handles w) (trace w) k;
  }
    where
      handles : (w : World) → (write_db_with f w).1.handles ≡ w.handles
      handles w = ground arith

      trace : (w : World) → (write_db_with f w).1.trace ≡ w.trace
      trace w = ground arith

  Spared-new_machine_id : Keeps (Spared env ms before) new_machine_id
  unfolding new_machine_id
  Spared-new_machine_id = record {
    at = λ w k. Spared-still (new_machine_id w).1 w (handles w) (trace w) k;
  }
    where
      handles : (w : World) → (new_machine_id w).1.handles ≡ w.handles
      handles w = ground arith

      trace : (w : World) → (new_machine_id w).1.trace ≡ w.trace
      trace w = ground arith

  Spared-allocate :
      (app : Text) (rel : Release) → Keeps (Spared env ms before) (allocate env app rel)
  unfolding allocate subnet_for_app ensure_bridge
  Spared-allocate app rel = search (keeps_rules, Spared-new_machine_id, Spared-write) depth 12

  start_inv :
      (spec : Spec) (guest : Guest) (w : World) {h : Handle}
      → (start env spec guest w).0 ≡ ok h
      → env.start spec guest ≡ some h
  unfolding start
  start_inv spec guest w e = ground arith

  Spared-start :
      (spec : Spec) (guest : Guest)
      → has id_of spec.id ms ≡ false
      → Keeps (Spared env ms before) (start env spec guest)
  unfolding start
  Spared-start spec guest new = record { at = λ w k. go w (env.start spec guest) refl k }
    where
      go :
          (w : World) (r : Option Handle)
          → env.start spec guest ≡ r
          → Spared env ms before w
          → Spared env ms before (start env spec guest w).1
      go w none e k = rw (e, start) k
      go w (some h) e k = rw (e, start) (Spared-effect (started spec guest) w new k)

  -- The rows are those that there were, and what was done spares them.
  abbrev pub Kept : World → Type 0
  Kept w = On (Rows ms) w × Spared env ms before w

  module _ (cfg : Config) (rel : Release) where
    describe-id :
        (place : Place) (load : Load) (image_env : List Text)
        → Ensures
            (λ _. Unit {0})
            (describe env cfg rel place load image_env)
            (λ machine _. machine.0.id ≡ place.id)
    unfolding describe machine_spec
    describe-id place load image_env = Ensures-bind _ _ (ends _) (λ mac.
        Ensures-bind _ _ (ends _) (λ vars.
          Ensures-bind _ _ (ends _)
            (λ u. Ensures-bind _ _ (ends _) (λ v. Ensures-pure _ (λ w h. refl)))))

    Spared-describe :
        (place : Place) (load : Load) (image_env : List Text)
        → Keeps (Spared env ms before) (describe env cfg rel place load image_env)
    unfolding describe mkdir_all remove_stale_sockets remove_stale
    Spared-describe place load image_env = search keeps_rules depth 12

    Spared-exit :
        (path : Text) (handle : Handle)
        → Keeps (Spared env ms before) (await_exit env cfg rel path handle)
    unfolding await_exit
    Spared-exit path handle = search (keeps_rules, Spared-emit) depth 12

    -- The machine of the release command is the one that is stopped.
    Spared-run_machine :
        (image_env : List Text) (place : Place)
        → has id_of place.id ms ≡ false
        → Keeps (Spared env ms before) (run_machine env cfg rel image_env place)
    unfolding run_machine
    Spared-run_machine image_env place new =
        let load = command_load cfg.deploy.release_command in
        Keeps-using _ _ (Spared-describe place load image_env) (λ machine w e.
          let described = (describe env cfg rel place load image_env w).1 in
          let same =
            (describe-id place load image_env).at w tt machine described (λ i. (e i, described)) in
          let fresh_id = subst (λ (i : Text). has id_of i ms ≡ false) (sym same) new in
          Keeps-using _ _ (Spared-start machine.0 machine.1 fresh_id) (λ handle v x.
            let its = start_inv machine.0 machine.1 v x in
            Keeps-finally _ _ (Spared-exit _ handle)
              (λ u p. Spared-effect (stopped handle) u (machine.0, machine.1, its, fresh_id) p)))

    Spared-delete_row :
        (id : Text) (w : World) → Spared env ms before w → Spared env ms before (delete_row id w)
    unfolding delete_row with_db
    Spared-delete_row id w k = Spared-still _ w refl refl k

    allocate-Kept :
        Restores Kept (allocate env cfg.app rel)
        × Ensures Kept
            (allocate env cfg.app rel)
            (λ place w. On (More ms place.id) w × Spared env ms before w)
    allocate-Kept =
        let spared = Spared-allocate cfg.app rel in
        (
          record {
            at = λ w h e x. ((allocate-Restores ms env cfg.app rel).at w h.0 e x, spared.at w h.1);
          },
          record {
            at = λ w h place w' e. (
              (allocate-More ms env cfg.app rel).at w h.0 place w' e,
              (Ensures-Keeps _ spared).at w h.1 place w' e,
            );
          },
        )

    pub Keeps-command : Keeps Kept (run_release_command env cfg rel)
    unfolding run_release_command finally
    Keeps-command = Keeps-bind _ _ (Keeps-both _ (Keeps-emit _) (Spared-emit _)) (λ u.
        Keeps-bind _ _ (search keeps_rules) (λ image_env.
          Keeps-bracket _ _ allocate-Kept.0 allocate-Kept.1 (λ place w h.
            let (m, same, its, new) = h.0.store in
            (
              deleted ms env cfg rel place.id _
                  ((Keeps-run_machine ms env cfg rel image_env place).at w h.0),
              Spared-delete_row place.id _ ((Spared-run_machine image_env place new).at w h.1),
            ))))
