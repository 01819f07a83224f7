-- ===== src/Tests/Requests.antt =====
-- Requests to oakd's HTTP API.
use oakberryio.Prelude.{
  ◌≡◌, refl, true, false, ◌||◌, none, some, [], ◌∷◌, Text, t, nat_eq, text_eq, pair_eq,
}
use oakberryio.Prelude.Int.{pos}
use oakberryio.Prelude.Dict.{keys, mem}
use oakberryio.Appconfig.{valid_name}
use oakberryio.Table.{has}
use oakberryio.Store.{Volume, local}
use oakberryio.Store.Volumes.{volume_key}
use oakberryio.Store.Secrets.Vault.{put, forget, view, apply_all, change_all, apply_all-view}
use oakberryio.Deploy.{World}
use oakberryio.Wire.{Codec, Request, get}
use oakberryio.Api.{Server, respond, refuse, unauthorized, internal_error}
use oakberryio.Api.Auth.{is_public, is_get, auth_middleware, auth_middleware-stranger}
use oakberryio.Api.Secrets.{handle_secrets, handle_list_secrets}
use oakberryio.Api.Secrets.Keys.{listed, handle_secrets-listed, handle_list_secrets-blind}
use oakberryio.Api.Volumes.{volume_path, handle_create_volume, positive}
use oakberryio.Api.Volumes.Again.{
  Works, Asks, made_anew, handle_create_volume-again, handle_create_volume-collides,
}
use oakberryio.Api.Machines.{handle_apps}
use oakberryio.Api.Machines.Shell.{Connects, handle_ssh-Connects}
use oakberryio.Tests.{host, one_app, world}

-- A codec for the test's bodies: a volume's body is its name, a dictionary's is one key.
abbrev pub plain : Codec
plain = record {
  write_deploy = λ b. b.image;
  read_deploy = λ s. some (record { image = s; config = t ""; owner = t "" });
  write_scale = λ b. t "";
  read_scale = λ s. some (record { memory_mb = pos 512; cpus = pos 0 });
  write_volume = λ b. b.name;
  read_volume = λ s. some (record { name = s; size_gb = pos 2 });
  write_dict = λ d. t "";
  read_dict = λ s. some ((s, t "secret") ∷ []);
  write_texts = λ l. t "[]";
  read_texts = λ s. some (s ∷ []);
  write_infos = λ l. t "[]";
  read_infos = λ s. none;
  write_machines = λ l. t "[]";
  read_machines = λ s. none;
  write_keys = λ l. t "";
  read_keys = λ s. some (s ∷ []);
}

abbrev pub server : Server
server = record {
  deployer = record (host []) { identity = some (t "age") };
  token = t "k3y";
  codec = plain;
  unmarshal_toml = λ s cfg. none;
  words = λ e w. (t "failed", []);
  encrypt = λ identity value. some (b'x' ∷ value);
  read_log = λ path. some (t "log");
  tail_log = λ path. some (t "log");
  create_file = λ path. true;
  truncate = λ path size. true;
  format_volume = λ path. true;
  dial_vsock = λ socket. true;
}

works : Works server
works = record {
  dirs = λ path. refl;
  opens = λ path. refl;
  sizes = λ path size. refl;
  formats = λ path. refl;
}

server-Asks :
    (app name : Text) → valid_name app ≡ true → valid_name name ≡ true → Asks server app name 2 name
unfolding positive
server-Asks app name va vn = record {
  sent = record { name = name; size_gb = pos 2 };
  reads = refl;
  named = refl;
  sized = refl;
  valid_app = va;
  valid_volume = vn;
}

data_asked : Asks server (t "web") (t "data") 2 (t "data")
unfolding valid_name nat_eq
data_asked = server-Asks (t "web") (t "data") refl refl

-- The app web has the volume data, and the volume db-data.
abbrev with_volumes : World
with_volumes = record world {
  db = record one_app {
    volumes =
        record {
          name = t "data";
          app = t "web";
          path = volume_path server (t "web") (t "data");
          size_gb = 1;
          node_id = local;
        }
        ∷ [];
  };
}

data_there : has volume_key (t "web", t "data") with_volumes.db.volumes ≡ true
unfolding has pair_eq
data_there = refl

handle_create_volume-again_example :
    handle_create_volume server (t "web") (t "data") with_volumes
    ≡ refuse internal_error (made_anew (volume_path server (t "web") (t "data")) 2 with_volumes)
handle_create_volume-again_example =
    handle_create_volume-again server works (t "web") (t "data") 2 (t "data") with_volumes
      data_asked data_there

other_asked : Asks server (t "web-db") (t "data") 2 (t "data")
unfolding valid_name nat_eq
other_asked = server-Asks (t "web-db") (t "data") refl refl

abbrev victim : Volume
victim = record {
  name = t "db-data";
  app = t "web";
  path = volume_path server (t "web") (t "db-data");
  size_gb = 1;
  node_id = local;
}

abbrev with_victim : World
with_victim = record world { db = record one_app { volumes = victim ∷ [] } }

other_new : has volume_key (t "web-db", t "data") with_victim.db.volumes ≡ false
unfolding has pair_eq
other_new = refl

handle_create_volume-collides_example :
    (w' : World) × (handle_create_volume server (t "web-db") (t "data") with_victim
      ≡ respond 201 [] w')
    × (w'.trace ≡ (made_anew victim.path 2 with_victim).trace)
handle_create_volume-collides_example =
    handle_create_volume-collides server works (t "web") (t "db") (t "data") victim 2 (t "data")
      with_victim other_asked other_new refl

abbrev stranger : Request
stranger = record {
  method = get;
  path = t "/apps";
  query = t "";
  authorization = t "Bearer guess";
  dockerfile = t "";
  build_args = t "";
  body = t "";
}

private_page : is_public stranger ≡ false
unfolding is_public is_get text_eq
private_page = refl

auth_middleware-stranger_example :
    auth_middleware (t "k3y") (λ req. handle_apps server false) stranger world
    ≡ refuse unauthorized world
auth_middleware-stranger_example =
    auth_middleware-stranger (t "k3y") (λ req. handle_apps server false) stranger world private_page
      (λ h. cc)

valid_web : valid_name (t "web") ≡ true
unfolding valid_name nat_eq
valid_web = refl

handle_secrets-listed_example :
    mem (t "KEY") (listed (t "web") (handle_secrets server (t "web") (t "KEY") world).1)
    ≡ (mem (t "KEY") (keys ((t "KEY", t "secret") ∷ [])) || mem (t "KEY") (listed (t "web") world))
handle_secrets-listed_example =
    handle_secrets-listed (λ value. some (b'x' ∷ value)) (λ value. (b'x' ∷ value, refl)) (t "web")
      server (t "age") (t "KEY") ((t "KEY", t "secret") ∷ []) (t "KEY") world refl refl valid_web
      refl

abbrev with_secret : Text → World
with_secret ct = record world {
  db = record one_app { secrets = record { app = t "web"; key = t "KEY"; ciphertext = ct } ∷ [] };
}

handle_list_secrets-blind_example :
    (handle_list_secrets server (t "web") (with_secret (t "one"))).0
    ≡ (handle_list_secrets server (t "web") (with_secret (t "two"))).0
handle_list_secrets-blind_example =
    handle_list_secrets-blind server (t "web") (with_secret (t "one")) (with_secret (t "two")) refl

handle_ssh-Connects_example : Connects server (t "web") world
handle_ssh-Connects_example = handle_ssh-Connects server (t "web") world valid_web

apply_all-view_example :
    view (apply_all (put (t "web") (t "K") (t "1") ∷ forget (t "db") ∷ []) one_app)
    ≡ change_all (put (t "web") (t "K") (t "1") ∷ forget (t "db") ∷ []) (view one_app)
apply_all-view_example =
    apply_all-view (put (t "web") (t "K") (t "1") ∷ forget (t "db") ∷ []) one_app
