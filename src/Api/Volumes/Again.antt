-- ===== src/Api/Volumes/Again.antt =====
-- What handleCreateVolume of internal/daemon/api.go does to the store and to the images on disk.
use oakberryio.Prelude.{
  ◌≡◌, inl, inr, ◌∙◌, ap, refl, arith, ℕ, true, false, some, [], ◌∷◌, ◌++◌, Text, t, ◌==◌, text_eq,
  pair_eq, Bool-cases, ==_iff,
}
use mathlib.Core.List.{append_assoc}
use oakberryio.Prelude.Int.{ℤ}
use oakberryio.Prelude.Results.{ok, err, constraint}
use oakberryio.Effects.{lift, modify, ◌>>=◌}
use oakberryio.Appconfig.{valid_name}
use oakberryio.Table.{has}
use oakberryio.Store.{Volume, local}
use oakberryio.Store.Volumes.{volume_key, create_volume}
use oakberryio.Deploy.{World, created, truncated, formatted}
use oakberryio.Deploy.State.{record_effect, write_db, with_db, mkdir_all}
use oakberryio.Cli.Args.{times_int64}
use oakberryio.Paths.{join}
use oakberryio.Wire.{VolumeBody}
use oakberryio.Api.{Server, respond, refuse, internal_error, for_app}
use oakberryio.Api.Volumes.{
  volume_file, volume_path, positive, touch, provision, answer_created, created_or_error,
  create_sized, create_body, handle_create_volume,
}

-- Every call on the file system and mkfs.ext4 succeeds.
pub record Works (s : Server) : Type 0 where
  pub dirs : (path : Text) → s.deployer.mkdir_all path ≡ true
  pub opens : (path : Text) → s.create_file path ≡ true
  pub sizes : (path : Text) (size : ℤ) → s.truncate path size ≡ true
  pub formats : (path : Text) → s.format_volume path ≡ true

-- The request names a valid volume of this app and a size.
pub record Asks (s : Server) (app name : Text) (size_gb : ℕ) (body : Text) : Type 0 where
  pub sent : VolumeBody
  pub reads : s.codec.read_volume body ≡ some sent
  pub named : sent.name ≡ name
  pub sized : positive sent.size_gb ≡ some size_gb
  pub valid_app : valid_name app ≡ true
  pub valid_volume : valid_name name ≡ true

-- The disk after the image at this path was made anew.
abbrev pub made_anew : Text → ℕ → World → World
made_anew path size_gb w = record w {
  trace = formatted path ∷ truncated path (times_int64 size_gb 1073741824) ∷ created path ∷ w.trace;
}

abbrev pub volume_row : Text → Text → Text → ℕ → Volume
volume_row app name path size_gb = record {
  name = name;
  app = app;
  path = path;
  size_gb = size_gb;
  node_id = local;
}

write_db-constraint :
    (app name path : Text) (size_gb : ℕ) (w : World)
    → has volume_key (app, name) w.db.volumes ≡ true
    → write_db (create_volume app name path size_gb) w ≡ (err constraint, w)
unfolding write_db create_volume
write_db-constraint app name path size_gb w h = ground arith

write_db-inserts :
    (app name path : Text) (size_gb : ℕ) (w : World)
    → has volume_key (app, name) w.db.volumes ≡ false
    → write_db (create_volume app name path size_gb) w ≡ (
      ok tt,
      with_db (record w.db { volumes = volume_row app name path size_gb ∷ w.db.volumes }) w,
    )
unfolding write_db create_volume
write_db-inserts app name path size_gb w h = ground arith

volume_path-dash :
    (s : Server) (a b c : Text) → volume_path s (a ++ b'-' ∷ b) c ≡ volume_path s a (b ++ b'-' ∷ c)
unfolding volume_path volume_file
volume_path-dash s a b c =
    rw (append_assoc a (b'-' ∷ b) (b'-' ∷ (c ++ t ".img")))
      (rw (append_assoc b (b'-' ∷ c) (t ".img")) refl)

module _ (s : Server) (works : Works s) where
  provision_ran :
      (app name : Text) (size_gb : ℕ) (w : World)
      → provision s app name size_gb w ≡ (
          let path = volume_path s app name in
          write_db (create_volume app name path size_gb) (made_anew path size_gb w))
  unfolding provision ◌>>=◌ touch modify lift mkdir_all record_effect
  provision_ran app name size_gb w =
      let path = volume_path s app name in
      rw (works.dirs (join s.deployer.data_dir (t "volumes"))) (
        rw (works.opens path)
          (rw (works.sizes path (times_int64 size_gb 1073741824)) (rw (works.formats path) refl)))

  named : (name : Text) → valid_name name ≡ true → (name == t "") ≡ false
  unfolding valid_name
  named name h = elim (Bool-cases (name == t "")) [
    | inl e ↦ absurd (cc (ap valid_name ((==_iff name (t "")).0 e)))
    | inr e ↦ e
  ]

  -- The request gets as far as the store, with the image made anew.
  asked :
      (app name : Text) (size_gb : ℕ) (body : Text) (w : World)
      → Asks s app name size_gb body
      → handle_create_volume s app body w
        ≡ created_or_error (
            write_db
              (create_volume app name (volume_path s app name) size_gb)
              (made_anew (volume_path s app name) size_gb w))
  unfolding handle_create_volume for_app create_body create_sized answer_created
  asked app name size_gb body w a = rw a.valid_app (
      rw a.reads (
        rw a.named (
          rw a.sized (
            rw (named name a.valid_volume, create_sized)
              (rw a.valid_volume (ap created_or_error (provision_ran app name size_gb w)))))))

  -- A request for a volume that the app has already is answered with 500 and leaves the store as it
  -- is, but before that the volume's image was set to the new size and formatted.
  pub handle_create_volume-again :
      (app name : Text) (size_gb : ℕ) (body : Text) (w : World)
      → Asks s app name size_gb body
      → has volume_key (app, name) w.db.volumes ≡ true
      → handle_create_volume s app body w
        ≡ refuse internal_error (made_anew (volume_path s app name) size_gb w)
  unfolding created_or_error
  handle_create_volume-again app name size_gb body w a there =
      asked app name size_gb body w a
      ∙ ap created_or_error (write_db-constraint app name _ size_gb _ there)

  -- A request for a volume that the app does not have makes its image anew and stores its row.
  pub handle_create_volume-new :
      (app name : Text) (size_gb : ℕ) (body : Text) (w : World)
      → Asks s app name size_gb body
      → has volume_key (app, name) w.db.volumes ≡ false
      → (v : World) × (handle_create_volume s app body w ≡ respond 201 [] v)
        × (v.trace ≡ (made_anew (volume_path s app name) size_gb w).trace)
        × (v.db.volumes ≡ volume_row app name (volume_path s app name) size_gb ∷ w.db.volumes)
  unfolding created_or_error
  handle_create_volume-new app name size_gb body w a fresh_name = (
    with_db
        (record w.db {
          volumes = volume_row app name (volume_path s app name) size_gb ∷ w.db.volumes;
        })
        (made_anew (volume_path s app name) size_gb w),
    asked app name size_gb body w a
        ∙ ap created_or_error (write_db-inserts app name _ size_gb _ fresh_name),
    unfold with_db in refl,
    unfold with_db in refl,
  )

  -- App and volume name are joined by a dash that both may contain: creating volume c of app a-b
  -- succeeds, and formats the image of volume b-c of app a.
  pub handle_create_volume-collides :
      (a b c : Text) (v : Volume) (size_gb : ℕ) (body : Text) (w : World)
      → Asks s (a ++ b'-' ∷ b) c size_gb body
      → has volume_key (a ++ b'-' ∷ b, c) w.db.volumes ≡ false
      → v.path ≡ volume_path s a (b ++ b'-' ∷ c)
      → (w' : World) × (handle_create_volume s (a ++ b'-' ∷ b) body w ≡ respond 201 [] w')
        × (w'.trace ≡ (made_anew v.path size_gb w).trace)
  handle_create_volume-collides a b c v size_gb body w asks fresh_name here =
      let (w', e, made, rows) =
        handle_create_volume-new (a ++ b'-' ∷ b) c size_gb body w asks fresh_name in
      (w', e, rw here (rw (← volume_path-dash s a b c) made))
