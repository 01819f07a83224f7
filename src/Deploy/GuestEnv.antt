-- ===== src/Deploy/GuestEnv.antt =====
-- buildGuestEnv of internal/daemon/deploy.go.
pub mod Layers
use oakberryio.Prelude.{
  Bool, true, false, ◌&&◌, ◌||◌, none, some, List, [], ◌∷◌, ◌++◌, Text, t, ◌==◌, nat_eq, text_eq,
  if◌then◌else◌,
}
use oakberryio.Prelude.Dict.{Dict, lookup, insert, insert_all}
use oakberryio.Prelude.Results.{Result, ok, err, decrypt_failed, ◌>>=◌}
use oakberryio.Appconfig.{Config, Service}
use oakberryio.Mmds.{merge_env, split_env}
use oakberryio.Store.{Db}
use oakberryio.Store.Secrets.{secrets}
use oakberryio.Deploy.{Env}
use oakberryio.Deploy.State.{itoa_int}

-- strings.HasPrefix
unfoldable pub has_prefix : Text → Text → Bool
has_prefix [] s = true
has_prefix (c ∷ p) [] = false
has_prefix (c ∷ p) (d ∷ s) = d == c && has_prefix p s

unfoldable pub env_slice_has_key : List Text → Text → Bool
env_slice_has_key [] key = false
env_slice_has_key (kv ∷ kvs) key = has_prefix (key ++ b'=' ∷ []) kv || env_slice_has_key kvs key

unfoldable pub slice_onto : List Text → Dict Text → Dict Text
slice_onto [] m = m
slice_onto (kv ∷ kvs) m =
    slice_onto kvs (elim (split_env kv) [ none ↦ m | some (k, v) ↦ insert k v m ])

unfoldable pub env_slice_to_map : List Text → Dict Text
env_slice_to_map kvs = slice_onto kvs []

unfoldable pub has_key : Text → Dict Text → Bool
has_key k d = elim (lookup k d) [ none ↦ false | some _ ↦ true ]

-- PORT, where the app has a service and no layer sets it.
unfoldable pub default_port : List Service → List Text → Dict Text → Dict Text
default_port [] image_env override = override
default_port (s ∷ ss) image_env override =
    if has_key (t "PORT") override || env_slice_has_key image_env (t "PORT")
    then override
    else insert (t "PORT") (itoa_int s.internal_port) override

abbrev pub default_path_value : Text
default_path_value = t "/usr/local/sbin:/usr/local/bin:/usr/sbin:/usr/bin:/sbin:/bin"

unfoldable pub default_path : List Text → Dict Text → Dict Text
default_path image_env override =
    if has_key (t "PATH") override || env_slice_has_key image_env (t "PATH")
    then override
    else insert (t "PATH") default_path_value override

module _ (env : Env) where
  -- The secrets of the app, decrypted, over what is there.
  unfoldable pub decrypt_onto : Text → Dict Text → Dict Text → Result (Dict Text)
  decrypt_onto identity [] override = ok override
  decrypt_onto identity ((k, ct) ∷ rest) override = elim (env.decrypt identity ct) [
    | none ↦ err decrypt_failed
    | some pt ↦ decrypt_onto identity rest (insert k pt override)
  ]

  unfoldable pub with_secrets : Text → Db → Dict Text → Result (Dict Text)
  with_secrets app db override = elim env.identity [
    | none ↦ ok override
    | some identity ↦ decrypt_onto identity (secrets app db) override
  ]

  unfoldable pub build_guest_env : Config → List Text → Db → Result (Dict Text)
  build_guest_env cfg image_env db = do
    override ← with_secrets cfg.app db (insert_all cfg.env [])
    ok (
        env_slice_to_map (
          merge_env image_env
            (default_path image_env (default_port cfg.services image_env override))))
