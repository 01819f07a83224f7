-- ===== src/Api/Streams/Orders.antt =====
-- Deploy, Restart and Scale of internal/daemon/deploy.go, and SetAppOwner after a deploy: what they
-- send are quiet lines.
use oakberryio.Prelude.{
  ◌≡◌, ◌∙◌, ◌⊎◌, inl, inr, sym, ap, subst, refl, arith, ℕ, false, List, [], ◌∷◌, Text, text_eq,
  length, All,
}
use oakberryio.Prelude.Int.{ℤ}
use oakberryio.Prelude.Results.{Result, ok, err, random_source}
use oakberryio.Effects.{Exec, modify}
use oakberryio.Effects.Keeps.{
  Keeps, Keeps-bind, Keeps-modify, Keeps-lift, Keeps-pure, Keeps-asks, Keeps-on_error,
  Keeps-finally, Keeps-if, Keeps-bracket, Ensures, Ensures-bind, Ensures-pure, Restores,
}
use oakberryio.Appconfig.{Config}
use oakberryio.Vm.{Spec}
use oakberryio.Mmds.{Guest}
use oakberryio.Store.{Release}
use oakberryio.Store.Machines.{machines_for_app}
use oakberryio.Cli.Lines.{has_newline, IsLine}
use oakberryio.Deploy.{Env, World, Handle}
use oakberryio.Deploy.State.{
  with_db, record_effect, cache_config, mkdir_all, hex, new_machine_id, subnet_for_app,
  ensure_bridge,
}
use oakberryio.Deploy.Launch.{Place}
use oakberryio.Deploy.Boot.{
  is_old, stop_old_machines, allocate, launch, cut_over, boot_from_release,
}
use oakberryio.Deploy.ReleaseCommand.{await_exit, run_machine, run_release_command}
use oakberryio.Deploy.Orders.{
  save_config, build_rootfs, record_release, gate, deploy, restart, scale,
}
use oakberryio.Api.{Server}
use oakberryio.Api.Streams.{emitted_text, deploy_for}
use oakberryio.Api.Streams.Quiet.{IsTidy, IsTidy-still, Keeps-still, hex-line}
use oakberryio.Api.Streams.Lines.{
  Keeps-building, Keeps-starting, Keeps-running, Keeps-succeeded, Keeps-announce_wait, Keeps-ok,
  warning,
}
use oakberryio.Api.Streams.Parts.{
  Int64Clock, Keeps-write_db, Keeps-write_db_with, Keeps-app_config, Keeps-start, Keeps-set_handle,
  Keeps-await_healthy, Keeps-describe, Keeps-publish, mark_failed-IsTidy, delete_row-IsTidy,
  stopped-IsTidy, tear_down-IsTidy, stop_where-IsTidy,
}

-- A machine's id is twelve bytes on one line.
record IsId (id : Text) (w : World) : Type 0 where
  pub tidy : IsTidy w
  pub whole : has_newline id ≡ false
  pub size : length id ≡ 12

drawn :
    (bytes : List ℕ) (rest : List (List ℕ)) (w : World)
    → w.random ≡ bytes ∷ rest
    → IsTidy w
    → IsId (hex bytes) (record w { random = rest })
drawn bytes rest w e k =
    let ids = subst (All (λ (b : List ℕ). length b ≡ 6)) e k.ids in
    let (one_line, size) = hex-line bytes in
    record {
      tidy = record { lines = k.lines; said = k.said; quiet = k.quiet; ids = ids.1 };
      whole = one_line;
      size = omega (arith, size, ids.0);
    }

new_machine_id-cases :
    (w : World) (r : List (List ℕ))
    → w.random ≡ r
    → (new_machine_id w ≡ (err random_source, w))
      ⊎ ((bytes : List ℕ) × (rest : List (List ℕ)) × (w.random ≡ bytes ∷ rest)
          × (new_machine_id w ≡ (ok (hex bytes), record w { random = rest })))
unfolding new_machine_id
new_machine_id-cases w [] e = inl (rw e refl)
new_machine_id-cases w (bytes ∷ rest) e = inr (bytes, rest, e, rw e refl)

Ensures-new_machine_id : Ensures IsTidy new_machine_id IsId
Ensures-new_machine_id = record {
  at = λ w k id w' e. elim (new_machine_id-cases w w.random refl) [
    | inl none_left ↦ cc (ap (λ p. p.0) (sym none_left ∙ e))
    | inr (bytes, rest, r, same) ↦
        subst (λ (p : Result Text × World). elim p.0 [ ok c ↦ IsId c p.1 | err _ ↦ Unit ])
          (sym same ∙ e) (drawn bytes rest w r k)
  ];
}

Keeps-new_machine_id : Keeps IsTidy new_machine_id
Keeps-new_machine_id = record {
  at = λ w k. elim (new_machine_id-cases w w.random refl) [
    | inl none_left ↦ rw none_left k
    | inr (bytes, rest, r, same) ↦ rw same (drawn bytes rest w r k).tidy
  ];
}

Keeps-subnet_for_app : (app : Text) → Keeps IsTidy (subnet_for_app app)
unfolding subnet_for_app
Keeps-subnet_for_app app = Keeps-bind _ _ (Keeps-asks _) (λ owner. Keeps-write_db_with _)

Keeps-allocate : (env : Env) (app : Text) (rel : Release) → Keeps IsTidy (allocate env app rel)
unfolding allocate ensure_bridge
Keeps-allocate env app rel = Keeps-bind _ _ Keeps-new_machine_id (λ id.
    Keeps-bind _ _ (Keeps-subnet_for_app app) (λ idx.
      Keeps-bind _ _ (Keeps-lift _)
        (λ net. Keeps-bind _ _ (Keeps-write_db_with _) (λ ip. Keeps-pure _))))

carry :
    {A : Type 0} (id : Text) (m : Exec World A)
    → Keeps IsTidy m
    → Ensures (IsId id) m (λ _ w. IsId id w)
carry id m km = record {
  at = λ w k a w' e. record {
    tidy = subst IsTidy (ap (λ p. p.1) e) (km.at w k.tidy);
    whole = k.whole;
    size = k.size;
  };
}

Ensures-allocate :
    (env : Env) (app : Text) (rel : Release)
    → Ensures IsTidy (allocate env app rel) (λ place w. IsId place.id w)
unfolding allocate ensure_bridge
Ensures-allocate env app rel = Ensures-bind _ _ Ensures-new_machine_id (λ id.
    Ensures-bind _ _ (carry id _ (Keeps-subnet_for_app app)) (λ idx.
      Ensures-bind _ _ (carry id _ (Keeps-lift _)) (λ net.
        Ensures-bind _ _ (carry id _ (Keeps-write_db_with _)) (λ ip. Ensures-pure _ (λ w h. h)))))

Restores-allocate :
    (env : Env) (app : Text) (rel : Release) → Restores IsTidy (allocate env app rel)
Restores-allocate env app rel = record { at = λ w h e x. (Keeps-allocate env app rel).at w h }

module _ (env : Env) (clock : Int64Clock env) (words : IsLine (warning env.restart_error)) where
  Keeps-launch :
      (cfg : Config) (place : Place) (spec : Spec) (guest : Guest)
      → Keeps IsTidy (launch env cfg place spec guest)
  unfolding launch
  Keeps-launch cfg place spec guest = Keeps-bind _ _ Keeps-starting (λ _.
      Keeps-bind _ _
        (Keeps-on_error _ _ (Keeps-start env spec guest)
          (λ w h. delete_row-IsTidy place.id _ (mark_failed-IsTidy place.id w h)))
        (λ handle. Keeps-bind _ _ (Keeps-set_handle place.id handle) (λ _.
          Keeps-bind _ _ (Keeps-announce_wait cfg.services) (λ _.
            Keeps-bind _ _
              (Keeps-on_error _ _ (Keeps-await_healthy env clock cfg.services place.ip)
                (tear_down-IsTidy place.id handle))
              (λ _. Keeps-pure handle)))))

  Keeps-cut_over :
      (app id : Text) (handle : Handle)
      → has_newline id ≡ false
      → length id ≡ 12
      → Keeps IsTidy (cut_over env app id handle)
  unfolding cut_over stop_old_machines
  Keeps-cut_over app id handle h k = Keeps-bind _ _ (Keeps-write_db _) (λ _.
      Keeps-bind _ _
        (Keeps-modify _ (λ w p. stop_where-IsTidy (is_old id) (machines_for_app app w.db) w p))
        (λ _. Keeps-bind _ _ (Keeps-ok id h k) (λ _. Keeps-publish env words)))

  Keeps-boot_from_release :
      (cfg : Config) (rel : Release) → Keeps IsTidy (boot_from_release env cfg rel)
  unfolding boot_from_release
  Keeps-boot_from_release cfg rel = Keeps-bind _ _ (Keeps-lift _) (λ rc.
      Keeps-bind _ _ (Keeps-lift _) (λ image_env. Keeps-bind _ _ (Keeps-asks _) (λ vols.
        Keeps-bracket _ _ (Restores-allocate env cfg.app rel) (Ensures-allocate env cfg.app rel)
          (λ place w k.
            (Keeps-bind _ _ (Keeps-describe env cfg rel place _ _) (λ machine.
                Keeps-bind _ _ (Keeps-launch cfg place machine.0 machine.1) (λ handle.
                  Keeps-bind _ _ (Keeps-cut_over cfg.app place.id handle k.whole k.size)
                    (λ _. Keeps-pure place.id)))).at
              w k.tidy))))

  Keeps-run_machine :
      (cfg : Config) (rel : Release) (image_env : List Text) (place : Place)
      → Keeps IsTidy (run_machine env cfg rel image_env place)
  unfolding run_machine await_exit
  Keeps-run_machine cfg rel image_env place =
      Keeps-bind _ _ (Keeps-describe env cfg rel place _ _) (λ machine.
        Keeps-bind _ _ (Keeps-start env machine.0 machine.1) (λ handle.
          Keeps-finally _ _
            (Keeps-bind _ _ (Keeps-lift _)
              (λ _. Keeps-bind _ _ (Keeps-lift _) (λ _. Keeps-succeeded)))
            (stopped-IsTidy handle)))

  Keeps-gate : (cfg : Config) (rel : Release) → Keeps IsTidy (gate env cfg rel)
  unfolding gate run_release_command
  Keeps-gate cfg rel = Keeps-if _ _ _ (Keeps-pure tt) (
      Keeps-bind _ _ Keeps-running (λ _. Keeps-bind _ _ (Keeps-lift _) (λ image_env.
        Keeps-bind _ _ (Keeps-allocate env cfg.app rel) (λ place.
          Keeps-finally _ _ (Keeps-run_machine cfg rel image_env place)
            (delete_row-IsTidy place.id)))))

  Keeps-build_rootfs : (image out : Text) → Keeps IsTidy (build_rootfs env image out)
  unfolding build_rootfs record_effect emitted_text
  Keeps-build_rootfs image out = Keeps-still _ (λ w. ground arith) (λ w. ground arith)

  Keeps-saved : (app json : Text) → Keeps IsTidy (modify (save_config app json))
  unfolding save_config with_db
  Keeps-saved app json = Keeps-modify _ (λ w k. IsTidy-still _ w refl refl k)

  Keeps-cached : (app : Text) (cfg : Config) → Keeps IsTidy (modify (cache_config app cfg))
  unfolding cache_config
  Keeps-cached app cfg = Keeps-modify _ (λ w k. IsTidy-still _ w refl refl k)

  Keeps-deploy : (cfg : Config) (image : Text) → Keeps IsTidy (deploy env cfg image)
  unfolding deploy mkdir_all record_release
  Keeps-deploy cfg image = Keeps-bind _ _ (Keeps-saved _ _) (λ _.
      Keeps-bind _ _ (Keeps-cached _ _) (λ _. Keeps-bind _ _ Keeps-building (λ _.
        Keeps-bind _ _ (Keeps-lift _) (λ _. Keeps-bind _ _ (Keeps-build_rootfs _ _) (λ meta.
          Keeps-bind _ _ (Keeps-bind _ _ (Keeps-write_db_with _) (λ id. Keeps-pure _))
            (λ rel. Keeps-bind _ _ (Keeps-gate cfg rel) (λ _. Keeps-boot_from_release cfg rel)))))))

  pub Keeps-restart : (app : Text) → Keeps IsTidy (restart env app)
  unfolding restart
  Keeps-restart app =
      Keeps-bind _ _ (Keeps-app_config env app)
        (λ cfg. Keeps-bind _ _ (Keeps-asks _) (λ rel. Keeps-boot_from_release cfg rel))

  pub Keeps-scale : (app : Text) (memory_mb cpus : ℤ) → Keeps IsTidy (scale env app memory_mb cpus)
  unfolding scale
  Keeps-scale app memory_mb cpus = Keeps-bind _ _ (Keeps-app_config env app) (λ cfg.
      Keeps-bind _ _ (Keeps-saved _ _) (λ _.
        Keeps-bind _ _ (Keeps-cached _ _)
          (λ _. Keeps-bind _ _ (Keeps-asks _) (λ rel. Keeps-boot_from_release _ rel))))

pub Keeps-deploy_for :
    (s : Server) (name owner : Text) (cfg : Config) (image : Text)
    → Int64Clock s.deployer
    → IsLine (warning s.deployer.restart_error)
    → Keeps IsTidy (deploy_for s name owner cfg image)
unfolding deploy_for with_db
Keeps-deploy_for s name owner cfg image clock words =
    Keeps-bind _ _ (Keeps-deploy s.deployer clock words cfg image) (λ id.
      Keeps-bind _ _ (Keeps-modify _ (λ w k. IsTidy-still _ w refl refl k)) (λ _. Keeps-pure id))
