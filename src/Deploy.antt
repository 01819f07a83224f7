-- ===== src/Deploy.antt =====
-- internal/daemon/deploy.go: the Deployer's state, its configuration and what it asks of the host.
-- The children hold its methods, in the order in which they call one another.
pub mod State
pub mod GuestEnv
pub mod Volumes
pub mod Ingress
pub mod Health
pub mod Launch
pub mod Frame
pub mod Writes
pub mod Boot
pub mod ReleaseCommand
pub mod Orders
pub mod Destroy
pub mod Watch
pub mod Reconcile
use oakberryio.Prelude.{ℕ, Bool, Option, List, Text}
use oakberryio.Prelude.Int.{ℤ}
use oakberryio.Prelude.Dict.{Dict}
use oakberryio.Appconfig.{Config}
use oakberryio.Mmds.{Guest}
use oakberryio.Vm.{Spec}
use oakberryio.Tunnel.{Route}
use oakberryio.Store.{Db}

-- internal/rootfs/flatten.go's ImageMeta
pub record ImageMeta : Type 0 where
  pub entrypoint : List Text
  pub cmd : List Text
  pub env : List Text
  pub working_dir : Text

-- The JSON of the column releases.cmd.
pub record ReleaseCmd : Type 0 where
  pub entrypoint : List Text
  pub cmd : List Text

-- A running microVM as Runtime.Start hands it over.
pub record Handle : Type 0 where
  pub machine : Text
  pub pid : ℕ

-- One round of awaitHealthy: what the check says, the two readings of the clock that follow it, and
-- whether the request's context ends during the pause.
pub record Poll : Type 0 where
  pub healthy : Bool
  pub checked_at : ℕ
  pub beat_at : ℕ
  pub context_done : Bool

-- One round of the wait for the exit marker: the log, if it could be read, and whether the deadline
-- has passed then.
pub record LogRead : Type 0 where
  pub log : Option Text
  pub late : Bool

-- The Deployer's configuration, and the answers of what is outside the repository: the Runtime,
-- the Checker, EnsureBridge, age's decryption, the file system, systemctl, the clock, and the
-- encodings of encoding/json. One call of a method runs in one such environment.
pub record Env : Type 0 where
  pub data_dir : Text
  pub log_dir : Text
  pub kernel : Text
  pub socket_dir : Text
  pub domain : Text
  pub tunnel_id : Text
  pub tunnel_config : Text
  pub tunnel_creds : Text
  pub api_port : ℤ
  pub static_routes : List Route
  -- the age identity, if secrets are configured
  pub identity : Option Text
  -- nanoseconds; 0 stands for every value that is not positive
  pub health_timeout : ℕ
  pub health_interval : ℕ
  pub now : ℕ
  pub build_rootfs : Text → Text → Option ImageMeta
  pub start : Spec → Guest → Option Handle
  pub wait : Handle → Bool
  pub ensure_bridge : ℕ → Option (Text × Text)
  pub health_started : ℕ
  pub poll : Text → ℤ → Text → ℕ → Poll
  pub log_reads : Text → List LogRead
  pub decrypt : Text → Text → Option Text
  pub mkdir_all : Text → Bool
  pub remove : Text → Bool
  pub remove_all : Text → Bool
  pub glob_volumes : Text → List Text
  pub write_file : Text → Bool
  pub restart_cloudflared : Bool
  -- the words of the error where it does not restart
  pub restart_error : Text
  pub config_json : Config → Text
  pub read_config : Text → Option Config
  pub cmd_json : ReleaseCmd → Text
  pub read_cmd : Text → Option ReleaseCmd
  pub env_json : List Text → Text
  pub read_env : Text → Option (List Text)

-- What an operation does to the world outside, in the order of its doing.
pub data Effect : Type 0 where
  -- a line of progress to the client
  emitted : Text → Effect
  built : Text → Effect
  started : Spec → Guest → Effect
  healthy : Text → Effect
  stopped : Handle → Effect
  wrote_tunnel : Text → Effect
  restarted_tunnel : Effect
  removed : Text → Effect
  -- a volume's image: opened with O_CREATE, set to this many bytes, formatted
  created : Text → Effect
  truncated : Text → ℤ → Effect
  formatted : Text → Effect
  -- a connection to the guest behind this vsock socket
  dialled : Text → Effect

-- The store, the Deployer's own fields, the bytes that crypto/rand gives next, and what was done so
-- far, the last first.
pub record World : Type 0 where
  pub db : Db
  pub handles : Dict Handle
  pub app_configs : Dict Config
  pub shutting_down : Bool
  pub random : List (List ℕ)
  pub trace : List Effect
