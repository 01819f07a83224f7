-- ===== src/Deploy/Ingress.antt =====
-- applyTunnel of internal/daemon/deploy.go, and Apply of internal/tunnel/tunnel.go.
use oakberryio.Prelude.{◌||◌, List, [], ◌∷◌, ◌++◌, map, Text, t, ◌==◌, text_eq, if◌then◌else◌}
use oakberryio.Prelude.Results.{ok, err, tunnel_write, tunnel_restart}
use oakberryio.Effects.{Exec, pure, lift, gets, modify, ◌>>=◌, ◌>>◌}
use oakberryio.Appconfig.{Service}
use oakberryio.Tunnel.{Route, render}
use oakberryio.Store.{Machine}
use oakberryio.Store.Machines.{running_machines}
use oakberryio.Deploy.{Env, World, wrote_tunnel, restarted_tunnel}
use oakberryio.Deploy.State.{app_config, itoa_int, creds_file, record_effect}

unfoldable pub service_url : Text → Service → Text
service_url ip s = t "http://" ++ (ip ++ b':' ∷ itoa_int s.internal_port)

module _ (env : Env) where
  -- The routes of one machine: the app's own name, then its domains, to its first service.
  unfoldable pub machine_routes : Machine → List Service → List Text → List Route
  machine_routes m [] domains = []
  machine_routes m (s ∷ ss) domains =
      record { hostname = m.app ++ b'.' ∷ env.domain; service = service_url m.ip s }
      ∷ map (λ (d : Text). record { hostname = d; service = service_url m.ip s }) domains

  unfoldable pub collect_routes : List Machine → Exec World (List Route)
  collect_routes [] = pure []
  collect_routes (m ∷ ms) = do
    cfg ← app_config env m.app
    rest ← collect_routes ms
    pure (machine_routes m cfg.services cfg.domains ++ rest)

  unfoldable pub api_route : Route
  api_route = record {
    hostname = t "oakberryio." ++ env.domain;
    service = t "http://127.0.0.1:" ++ itoa_int env.api_port;
  }

  -- writeAtomic, then systemctl restart cloudflared
  unfoldable pub apply : Text → Exec World (Unit {0})
  apply text = do
    lift (if env.write_file env.tunnel_config then ok tt else err tunnel_write)
    modify (record_effect (wrote_tunnel text))
    modify (record_effect restarted_tunnel)
    lift (if env.restart_cloudflared then ok tt else err tunnel_restart)

  unfoldable pub apply_tunnel : Exec World (Unit {0})
  apply_tunnel = if env.tunnel_id == t "" || env.tunnel_config == t "" then pure tt else do
    machines ← gets (λ w. running_machines w.db)
    routes ← collect_routes machines
    apply (render env.tunnel_id (creds_file env) (routes ++ (env.static_routes ++ api_route ∷ [])))
