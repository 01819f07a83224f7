-- ===== src/Api/Secrets.antt =====
-- handleSecrets, handleListSecrets and handleUnsetSecrets of internal/daemon/api.go.
pub mod Keys
use oakberryio.Prelude.{Option, none, some, List, [], ◌∷◌, map, Text, sort, le_text}
use oakberryio.Prelude.Dict.{Dict}
use oakberryio.Store.{Db}
use oakberryio.Store.Secrets.{put_secret, secrets, delete_secret}
use oakberryio.Deploy.{World}
use oakberryio.Deploy.State.{with_db}
use oakberryio.Api.{Server, Handler, respond, refuse, internal_error, for_app, decoded}

-- The loop over the body: the secrets before one that cannot be encrypted are stored.
unfoldable pub put_all : (Text → Option Text) → Text → Dict Text → Handler
put_all encrypt name [] = respond 204 []
put_all encrypt name ((key, value) ∷ kvs) = λ w. elim (encrypt value) [
  | none ↦ refuse internal_error w
  | some ciphertext ↦ put_all encrypt name kvs (with_db (put_secret name key ciphertext w.db) w)
]

unfoldable pub delete_all : Text → List Text → Db → Db
delete_all name [] db = db
delete_all name (key ∷ keys) db = delete_all name keys (delete_secret name key db)

-- the keys of the map that Store.Secrets returns
unfoldable pub secret_names : Text → Db → List Text
secret_names name db = map (λ (kv : Text × Text). kv.0) (secrets name db)

module _ (s : Server) where
  unfoldable pub put_body : Text → Dict Text → Handler
  put_body name body w = elim s.deployer.identity [
    | none ↦ refuse internal_error w
    | some identity ↦ put_all (s.encrypt identity) name body w
  ]

  unfoldable pub handle_secrets : Text → Text → Handler
  handle_secrets name body = for_app name (decoded (s.codec.read_dict body) (put_body name))

  unfoldable pub list_secrets : Text → Handler
  list_secrets name w = respond 200 (s.codec.write_texts (sort le_text (secret_names name w.db))) w

  unfoldable pub handle_list_secrets : Text → Handler
  handle_list_secrets name = for_app name (list_secrets name)

  unfoldable pub unset_body : Text → List Text → Handler
  unset_body name keys w = respond 204 [] (with_db (delete_all name keys w.db) w)

  unfoldable pub handle_unset_secrets : Text → Text → Handler
  handle_unset_secrets name body = for_app name (decoded (s.codec.read_keys body) (unset_body name))
