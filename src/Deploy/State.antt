-- ===== src/Deploy/State.antt =====
-- The small methods of the Deployer: its handles, its configuration cache, its paths, and its calls
-- of the store and of the host.
use oakberryio.Prelude.{
  ℕ, Option, none, some, List, [], ◌∷◌, ◌++◌, Text, t, ◌==◌, text_eq, take, if◌then◌else◌,
}
use oakberryio.Prelude.Int.{ℤ, pos, negsuc}
use oakberryio.Prelude.Dict.{lookup, insert, delete}
use oakberryio.Prelude.Results.{
  Result, ok, err, from_option, random_source, bridge_setup, mkdir_failed, remove_failed, bad_json,
}
use oakberryio.Effects.{Exec, lift, asks, modify, ◌>>=◌}
use oakberryio.Text.Decimal.{itoa}
use oakberryio.Paths.{join}
use oakberryio.Appconfig.{Config}
use oakberryio.Vm.{hex2}
use oakberryio.Store.{Db}
use oakberryio.Store.Apps
use oakberryio.Store.Subnets.{subnet_for_owner}
use oakberryio.Deploy.{Env, World, Handle, Effect, emitted, ReleaseCmd}

unfoldable pub record_effect : Effect → World → World
record_effect e w = record w { trace = e ∷ w.trace }

unfoldable pub emit : Text → Exec World (Unit {0})
emit msg = modify (record_effect (emitted msg))

unfoldable pub with_db : Db → World → World
with_db db w = record w { db = db }

-- A write of the store that fails leaves it as it was.
unfoldable pub write_db : (Db → Result Db) → Exec World (Unit {0})
write_db f w = elim (f w.db) [ ok db ↦ (ok tt, with_db db w) | err e ↦ (err e, w) ]

unfoldable pub write_db_with : {A : Type 0} → (Db → Result (A × Db)) → Exec World A
write_db_with f w = elim (f w.db) [ ok r ↦ (ok r.0, with_db r.1 w) | err e ↦ (err e, w) ]

unfoldable pub set_handle : Text → Handle → World → World
set_handle id h w = record w { handles = insert id h w.handles }

unfoldable pub get_handle : Text → World → Option Handle
get_handle id w = lookup id w.handles

unfoldable pub remove_handle : Text → World → World
remove_handle id w = record w { handles = delete id w.handles }

unfoldable pub cache_config : Text → Config → World → World
cache_config app cfg w = record w { app_configs = insert app cfg w.app_configs }

-- %d
unfoldable pub itoa_int : ℤ → Text
itoa_int (pos n) = itoa n
itoa_int (negsuc n) = b'-' ∷ itoa (Prim.Native.Nat.suc n)

unfoldable pub hex : List ℕ → Text
hex [] = []
hex (b ∷ bs) = hex2 b ++ hex bs

-- Six bytes of crypto/rand in hexadecimal; the read fails where `random` has run out.
unfoldable pub new_machine_id : Exec World Text
new_machine_id w = elim w.random [
  | [] ↦ (err random_source, w)
  | bytes ∷ rest ↦ (ok (hex bytes), record w { random = rest })
]

unfoldable pub tap_name : Text → Text
tap_name id = t "oak-" ++ take 8 id

-- The index of the tenant subnet of the app's recorded owner.
unfoldable pub subnet_for_app : Text → Exec World ℕ
subnet_for_app app = do
  owner ← asks (λ w. Apps.app_owner app w.db)
  write_db_with (subnet_for_owner owner)

unfoldable pub vsock_socket_path : Text → Text → Text
vsock_socket_path socket_dir id = join socket_dir (id ++ t "_vsock.sock")

module _ (env : Env) where
  unfoldable pub kernel : Text
  kernel = if env.kernel == t "" then t "/var/lib/oak/kernel/vmlinux" else env.kernel

  unfoldable pub socket_dir : Text
  socket_dir = if env.socket_dir == t "" then join env.data_dir (t "run") else env.socket_dir

  unfoldable pub creds_file : Text
  creds_file =
      if env.tunnel_creds == t ""
      then t "/root/.cloudflared/" ++ (env.tunnel_id ++ t ".json")
      else env.tunnel_creds

  unfoldable pub decode_release_cmd : Text → Result ReleaseCmd
  decode_release_cmd json = from_option bad_json (env.read_cmd json)

  unfoldable pub decode_release_env : Text → Result (List Text)
  decode_release_env json = from_option bad_json (env.read_env json)

  unfoldable pub ensure_bridge : ℕ → Exec World (Text × Text)
  ensure_bridge idx = lift (from_option bridge_setup (env.ensure_bridge idx))

  unfoldable pub mkdir_all : Text → Exec World (Unit {0})
  mkdir_all path = lift (if env.mkdir_all path then ok tt else err mkdir_failed)

  -- os.Remove, where a missing file is no error
  unfoldable pub remove_stale : Text → Exec World (Unit {0})
  remove_stale path = lift (if env.remove path then ok tt else err remove_failed)

  abbrev pub stored_config : Text → World → Result Config
  stored_config app w = elim (Apps.app_config app w.db) [
    | err e ↦ err e
    | ok raw ↦ from_option bad_json (env.read_config raw)
  ]

  -- appConfig: from the cache, or from the store and into the cache.
  unfoldable pub app_config : Text → Exec World Config
  app_config app w = elim (lookup app w.app_configs) [
    | some cfg ↦ (ok cfg, w)
    | none ↦ elim (stored_config app w) [
      | err e ↦ (err e, w)
      | ok cfg ↦ (ok cfg, cache_config app cfg w)
    ]
  ]
