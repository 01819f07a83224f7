-- ===== src/Host/Daemon.antt =====
-- New, Run, listenUnix and applyDefaults of internal/daemon/daemon.go.
pub mod Closed
use oakberryio.Prelude.{
  ◌==◌, nat_eq, text_eq, List, [], ◌∷◌, ◌++◌, Text, t, if◌then◌else◌, Bool, false,
}
use oakberryio.Prelude.Int.{ℤ, pos, negsuc}
use oakberryio.Prelude.Results.{
  Result, mkdir_failed, remove_failed, listen_failed, store_failed, bad_identity,
}
use oakberryio.Effects.{Exec, pure, lift, on_error, finally, ◌>>=◌, ◌>>◌}
use oakberryio.Paths.{join}
use oakberryio.Appconfig.{valid_domain}
use oakberryio.Tunnel.{Route}
use oakberryio.Host.{
  Answers, Host, note, must, ignore, open_store, close_store, load_identity, make_dir, remove_file,
  listen_unix, listen_tcp, serve_tcp, serve_unix, close_unix, close_tcp,
}
use oakberryio.Host.Bridge.{ensure_bridge}

-- oakd.toml
pub record Settings : Type 0 where
  pub data_dir : Text
  pub registry : Text
  pub domain : Text
  pub tunnel_id : Text
  pub tunnel_config : Text
  pub tunnel_creds : Text
  pub static_routes : List Route
  pub key_file : Text
  pub socket : Text
  pub log_dir : Text
  pub api_token : Text
  pub api_port : ℤ

unfoldable pub or_default : Text → Text → Text
or_default fallback s = if s == t "" then fallback else s

unfoldable pub or_port : ℤ → ℤ
or_port (pos n) = if n == 0 then pos 7000 else pos n
or_port (negsuc n) = negsuc n

unfoldable pub apply_defaults : Settings → Settings
apply_defaults c = record c {
  log_dir = or_default (t "/var/log/oak") c.log_dir;
  api_port = or_port c.api_port;
  socket = or_default (t "/run/oak/oak.sock") c.socket;
  registry = or_default (t "localhost:5000") c.registry;
}

-- A static route whose hostname is no domain is skipped.
unfoldable pub valid_routes : List Route → List Route
valid_routes [] = []
valid_routes (r ∷ rs) =
    let rest = valid_routes rs in if valid_domain r.hostname then r ∷ rest else rest

-- What New passes on: the settings with their defaults, and the routes.
pub record Daemon : Type 0 where
  pub settings : Settings
  pub routes : List Route

-- filepath.Dir of a socket's path is a parameter.
module _ (h : Answers) (dir_of : Text → Text) where
  unfoldable pub wire : Settings → Exec Host Daemon
  wire c = do
    if c.key_file == t "" then pure tt else must h bad_identity (load_identity c.key_file)
    must h mkdir_failed (make_dir (join c.data_dir (t "run")))
    pure (record { settings = c; routes = valid_routes c.static_routes })

  unfoldable pub new : Settings → Exec Host Daemon
  new given = do
    let c = apply_defaults given
    must h store_failed (open_store (join c.data_dir (t "oak.db")))
    on_error (wire c) (note h close_store)

  -- os.Remove, where a missing file is no error
  unfoldable pub listen_on : Text → Exec Host (Unit {0})
  listen_on path = do
    must h mkdir_failed (make_dir (dir_of path))
    must h remove_failed (remove_file path)
    must h listen_failed (listen_unix path)

  -- `ended` is what ends the wait: the context, or the error of a server.
  unfoldable pub serve_until : Daemon → Result (Unit {0}) → Exec Host (Unit {0})
  serve_until d ended =
      if d.settings.api_token == t "" then finally (lift ended) (note h close_unix) else do
        on_error (must h listen_failed (listen_tcp d.settings.api_port)) (note h close_unix)
        ignore h (serve_tcp d.settings.api_token)
        finally (lift ended) (λ w. note h close_tcp (note h close_unix w))

  unfoldable pub run : Daemon → Result (Unit {0}) → Exec Host (Unit {0})
  run d ended = do
    link ← ensure_bridge h 0
    listen_on d.settings.socket
    ignore h serve_unix
    serve_until d ended
