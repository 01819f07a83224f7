-- ===== src/Store/Volumes.antt =====
-- The operations of store.go on the table volumes, whose key is (app, name).
use oakberryio.Prelude.{ℕ, List, ◌∷◌, Text, text_eq, pair_eq, if◌then◌else◌}
use oakberryio.Prelude.Results.{Result, ok, err, constraint}
use oakberryio.Table.{has, select_by, delete_by}
use oakberryio.Store.{Db, Volume, local}

abbrev pub volume_key : Volume → Text × Text
volume_key v = (v.app, v.name)

unfoldable pub create_volume : Text → Text → Text → ℕ → Db → Result Db
create_volume app name path size_gb db =
    if has volume_key (app, name) db.volumes
    then err constraint
    else ok (record db {
      volumes =
          record { name = name; app = app; path = path; size_gb = size_gb; node_id = local }
          ∷ db.volumes;
    })

unfoldable pub volumes : Text → Db → List Volume
volumes app db = select_by (λ (v : Volume). v.app) app db.volumes

unfoldable pub delete_volumes_for_app : Text → Db → Db
delete_volumes_for_app app db = record db {
  volumes = delete_by (λ (v : Volume). v.app) app db.volumes;
}
