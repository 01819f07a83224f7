-- ===== src/Tests/Daemons.antt =====
-- oakd with a token, on a host that refuses its TCP port.
use oakberryio.Prelude.{refl, Option, none, some, [], t, nat_eq, text_eq}
use oakberryio.Prelude.Int.{pos}
use oakberryio.Prelude.Results.{ok}
use oakberryio.Host.{Errno, other_errno, Call, listen_tcp}
use oakberryio.Host.Daemon.{Daemon, run}
use oakberryio.Host.Daemon.Closed.{IsClosed, holds_unix, holds_tcp, any_exposes, run-IsClosed}
use oakberryio.Host.Bridge.Listening.{started_host}
use oakberryio.Tests.Hosts.{answers}

abbrev refuses_tcp : Call → Option Errno
refuses_tcp (listen_tcp port) = some other_errno
refuses_tcp c = none

abbrev oakd : Daemon
oakd = record {
  settings = record {
    data_dir = t "/d";
    registry = t "localhost:5000";
    domain = t "e.org";
    tunnel_id = t "";
    tunnel_config = t "";
    tunnel_creds = t "";
    static_routes = [];
    key_file = t "";
    socket = t "/run/oak/oak.sock";
    log_dir = t "/l";
    api_token = t "k3y";
    api_port = pos 7000;
  };
  routes = [];
}

run-IsClosed_example :
    IsClosed
      (t "k3y")
      (run
        (record answers { to = λ w c. refuses_tcp c })
        (λ path. t "/run/oak")
        oakd
        (ok tt)
        started_host).1
unfolding holds_unix holds_tcp any_exposes
run-IsClosed_example =
    run-IsClosed (record answers { to = λ w c. refuses_tcp c }) (λ path. t "/run/oak") oakd (ok tt)
      started_host (record { unix = refl; tcp = refl; safe = refl })
