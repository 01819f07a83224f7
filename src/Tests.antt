-- ===== src/Tests.antt =====
-- A host, a database and an app that the tests run the program on.
mod Orders
mod Rows
mod Codes
mod Waits
mod Requests
mod Commands
mod Guests
mod Contexts
mod Streams
mod Words
mod Hosts
mod Sessions
mod Daemons
use oakberryio.Prelude.{ℕ, zero, suc, Bool, true, false, Option, none, some, List, [], ◌∷◌, Text, t}
use oakberryio.Prelude.Int.{ℤ, pos}
use oakberryio.Appconfig.{Config}
use oakberryio.Store.{Db, Machine, running, fresh}
use oakberryio.Deploy.{Env, World, Handle, LogRead}

-- An app of one service, with this release command.
abbrev pub config : Text → Text → Config
config app command = record {
  app = app;
  build = record { dockerfile = t ""; args = [] };
  image = t "";
  env = [];
  services = record { internal_port = pos 8080; check = record { path = t "/" } } ∷ [];
  mounts = [];
  vm = record { memory_mb = pos 256; cpus = pos 1 };
  domains = [];
  deploy = record { release_command = command };
}

abbrev readings : List Text → List LogRead
readings [] = []
readings (log ∷ logs) = record { log = some log; late = false } ∷ readings logs

-- A host on which every call succeeds; the readings of a log show these texts, one after another.
abbrev pub host : List Text → Env
host logs = record {
  data_dir = t "/d";
  log_dir = t "/l";
  kernel = t "/k";
  socket_dir = t "/s";
  domain = t "e.org";
  tunnel_id = t "";
  tunnel_config = t "";
  tunnel_creds = t "";
  api_port = pos 80;
  static_routes = [];
  identity = none;
  health_timeout = 0;
  health_interval = 0;
  now = 7;
  build_rootfs =
      λ image out. some (record { entrypoint = []; cmd = []; env = []; working_dir = t "/" });
  start = λ spec guest. some (record { machine = spec.id; pid = 9 });
  wait = λ h. true;
  ensure_bridge = λ idx. some (t "oak0", t "10.200.0.1");
  health_started = 0;
  poll = λ ip port path i. record {
    healthy = true;
    checked_at = 0;
    beat_at = 0;
    context_done = false;
  };
  log_reads = λ path. readings logs;
  decrypt = λ identity ct. some ct;
  mkdir_all = λ path. true;
  remove = λ path. true;
  remove_all = λ path. true;
  glob_volumes = λ pattern. [];
  write_file = λ path. true;
  restart_cloudflared = true;
  restart_error = t "";
  config_json = λ cfg. cfg.app;
  read_config = λ json. some (config json (t ""));
  cmd_json = λ cmd. t "{}";
  read_cmd = λ json. some (record { entrypoint = []; cmd = [] });
  env_json = λ env. t "[]";
  read_env = λ json. some [];
}

-- One app, and an old machine of it that runs.
abbrev pub one_app : Db
one_app = record fresh {
  apps = record { name = t "web"; config = t "web"; owner = t "ann" } ∷ [];
  machines =
      record {
        id = t "aa";
        app = t "web";
        release_id = 1;
        node_id = t "local";
        ip = t "10.200.1.2";
        tap = t "oak-aa";
        state = running;
        pid = some 5;
        created_at = 3;
      }
      ∷ [];
  tenant_subnets = record { owner = t "ann"; idx = 1 } ∷ record { owner = t ""; idx = 0 } ∷ [];
}

abbrev pub world : World
world = record {
  db = one_app;
  handles = (t "aa", record { machine = t "aa"; pid = 5 }) ∷ [];
  app_configs = [];
  shutting_down = false;
  random = (1 ∷ 2 ∷ 3 ∷ 4 ∷ 5 ∷ 6 ∷ []) ∷ (6 ∷ 5 ∷ 4 ∷ 3 ∷ 2 ∷ 1 ∷ []) ∷ [];
  trace = [];
}
