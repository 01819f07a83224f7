-- ===== src/Store/Secrets.antt =====
-- The operations of store.go on the table secrets, whose key is (app, key).
pub mod Vault
use oakberryio.Prelude.{List, ◌∷◌, map, Text, text_eq, pair_eq, if◌then◌else◌}
use oakberryio.Table.{has, select_by, delete_by, update_by}
use oakberryio.Store.{Db, Secret}

-- The primary key of the table.
abbrev pub secret_key : Secret → Text × Text
secret_key s = (s.app, s.key)

-- INSERT ... ON CONFLICT(app, key) DO UPDATE SET ciphertext
unfoldable pub put_secret : Text → Text → Text → Db → Db
put_secret app key ciphertext db =
    if has secret_key (app, key) db.secrets
    then record db {
      secrets =
          update_by secret_key (app, key) (λ s. record s { ciphertext = ciphertext }) db.secrets;
    }
    else record db {
      secrets = record { app = app; key = key; ciphertext = ciphertext } ∷ db.secrets;
    }

-- The map of an app's secrets, still encrypted, as its entries.
unfoldable pub secrets : Text → Db → List (Text × Text)
secrets app db =
    map (λ (s : Secret). (s.key, s.ciphertext)) (select_by (λ (s : Secret). s.app) app db.secrets)

unfoldable pub delete_secrets_for_app : Text → Db → Db
delete_secrets_for_app app db = record db {
  secrets = delete_by (λ (s : Secret). s.app) app db.secrets;
}

unfoldable pub delete_secret : Text → Text → Db → Db
delete_secret app key db = record db { secrets = delete_by secret_key (app, key) db.secrets }
