-- ===== src/Api/Streams.antt =====
-- The handlers of internal/daemon/api.go whose response is a stream of progress lines: handleDeploy,
-- handleRestart and handleScale.
pub mod Quiet
pub mod Lines
pub mod Parts
pub mod Orders
pub mod Told
use oakberryio.Prelude.{
  Bool, false, ◌&&◌, List, [], ◌∷◌, ◌++◌, Text, t, ◌==◌, nat_eq, text_eq, if◌then◌else◌,
}
use oakberryio.Prelude.Int.{ℤ, pos, negsuc}
use oakberryio.Prelude.Results.{Result, ok, err, bad_name, bad_json, from_option, ◌>>=◌}
use oakberryio.Effects
use oakberryio.Effects.{Exec, modify, pure}
use oakberryio.Appconfig.{Config, parse}
use oakberryio.Store.Apps
use oakberryio.Store.Apps.{set_app_owner}
use oakberryio.Deploy.{World, Effect, emitted}
use oakberryio.Deploy.State.{with_db, record_effect}
use oakberryio.Deploy.Orders.{deploy, restart, scale}
use oakberryio.Wire.{DeployBody, ScaleBody}
use oakberryio.Cli.Stream.{error_text}
use oakberryio.Api.{Server, Handler, respond, refuse, bad_request, for_app, decoded}

-- What the client has been sent, of a trace that has the last effect first.
unfoldable pub emitted_text : List Effect → Text
emitted_text [] = []
emitted_text (emitted message ∷ es) = emitted_text es ++ message
emitted_text (e ∷ es) = emitted_text es

-- progress(fmt.Sprintf("error: %v\n", err))
unfoldable pub tell : Server → Result Text → World → World
tell s (ok id) w = w
tell s (err e) w =
    let (first, more) = s.words e w in record_effect (emitted (error_text first more)) w

unfoldable pub before_request : World → World
before_request w = record w { trace = [] }

unfoldable pub after_request : World → World → World
after_request old w = record w { trace = w.trace ++ old.trace }

-- WriteHeader(200), then the order's progress lines, and a line for its error.
unfoldable pub stream : Server → Exec World Text → Handler
stream s order w =
    let (outcome, w1) = order (before_request w) in
    let w2 = tell s outcome w1 in
    let (response, w3) = respond 200 (emitted_text w2.trace) w2 in (response, after_request w w3)

unfoldable pub same_app : Text → Config → Result Config
same_app name cfg = if cfg.app == name then ok cfg else err bad_name

unfoldable pub resolve_config : Server → Text → Text → World → Result Config
resolve_config s name toml w =
    if toml == t ""
    then (Apps.app_config name w.db >>= λ raw. from_option bad_json (s.deployer.read_config raw))
    else parse s.unmarshal_toml toml >>= same_app name

module _ (s : Server) where
  -- SetAppOwner follows a deploy that succeeded; the schema never refuses it.
  unfoldable pub deploy_for : Text → Text → Config → Text → Exec World Text
  deploy_for name owner cfg image = Effects.◌>>=◌ (deploy s.deployer cfg image) λ id.
      Effects.◌>>=◌ (modify (λ w. with_db (set_app_owner name owner w.db) w)) λ ignored. pure id

  unfoldable pub handle_deploy_body : Text → DeployBody → Handler
  handle_deploy_body name body w =
      if body.image == t ""
      then refuse bad_request w
      else elim (resolve_config s name body.config w) [
        | err e ↦ refuse bad_request w
        | ok cfg ↦ stream s (deploy_for name body.owner cfg body.image) w
      ]

  unfoldable pub handle_deploy : Text → Text → Handler
  handle_deploy name body =
      for_app name (decoded (s.codec.read_deploy body) (handle_deploy_body name))

  unfoldable pub handle_restart : Text → Handler
  handle_restart name = for_app name (stream s (restart s.deployer name))

  unfoldable pub is_zero : ℤ → Bool
  is_zero (pos n) = n == 0
  is_zero (negsuc n) = false

  unfoldable pub handle_scale_body : Text → ScaleBody → Handler
  handle_scale_body name body w =
      if is_zero body.memory_mb && is_zero body.cpus
      then refuse bad_request w
      else stream s (scale s.deployer name body.memory_mb body.cpus) w

  unfoldable pub handle_scale : Text → Text → Handler
  handle_scale name body = for_app name (decoded (s.codec.read_scale body) (handle_scale_body name))
