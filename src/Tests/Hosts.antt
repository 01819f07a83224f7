-- ===== src/Tests/Hosts.antt =====
-- A host whose tap is there at first, and whose Firecracker does not start.
use oakberryio.Prelude.{
  ◌≡◌, refl, true, Option, none, some, List, [], ◌∷◌, Text, t, nat_eq, text_eq, any,
}
use oakberryio.Prelude.Results.{ok}
use oakberryio.Prelude.Int.{pos}
use oakberryio.Effects.{◌>>=◌, pure, gets, modify}
use oakberryio.Text.Decimal.{itoa}
use oakberryio.Mmds.{Guest}
use oakberryio.Vm.{Spec}
use oakberryio.Host.{
  Answers, Event, Errno, eexist, other_errno, Call, add_tap, start_machine, note, ask, must,
}
use oakberryio.Host.Bridge.{
  must_or_there, ensure_bridge_link, listen_once, ensure_bridge, bridge_name, gateway_ip, dns_addr,
}
use oakberryio.Host.Bridge.Listening.{listeners, ensure_all, started_host}
use oakberryio.Host.Bridge.Listeners.{ensure_bridge-listeners}

abbrev replies : List Event → Call → Option Errno
replies [] (add_tap name) = some eexist
replies (e ∷ es) (add_tap name) = none
replies log (start_machine cfg guest) = some other_errno
replies log c = none

abbrev pub answers : Answers
answers = record {
  to = λ w c. replies w.log c;
  addrs = λ w name. [];
  pid = λ w cfg. 7;
  parse_cidr = λ s. some (t "10.200.1.2", t "255.255.255.0");
  valid_ip = λ s. true;
}

abbrev spec : Spec
spec = record {
  id = t "aa";
  kernel = t "/k";
  rootfs = t "/r";
  volumes = [];
  tap = t "oak-aa";
  bridge = t "oak1";
  mac = t "06:00:0a:c8:01:02";
  ip = t "10.200.1.2/24";
  gateway = t "10.200.1.1";
  memory_mb = pos 256;
  cpus = pos 1;
  log_path = t "/l/aa.log";
  socket_dir = t "/s";
  vsock_uds = t "/s/aa_vsock.sock";
  guest_cid = 3;
}

abbrev pub guest : Guest
guest = record {
  machine_id = t "aa";
  app = t "web";
  ip = t "10.200.1.2/24";
  gateway = t "10.200.1.1";
  dns = t "10.200.1.1";
  env = [];
  entrypoint = [];
  cmd = t "/app" ∷ [];
  working_dir = t "/";
  mounts = [];
}

runs :
    (ensure_bridge answers 1 (ensure_all answers (1 ∷ 0 ∷ []) started_host)).0
    ≡ ok (bridge_name 1, gateway_ip 1)
unfolding ensure_all ensure_bridge ensure_bridge_link listen_once must_or_there must ask note
    bridge_name gateway_ip any nat_eq text_eq itoa ◌>>=◌ pure gets modify oakberryio.Effects.fail
runs = refl

ensure_bridge-listeners_example :
    (◌≡◌ {A = Text × Text} (bridge_name 1, gateway_ip 1) (bridge_name 1, gateway_ip 1))
    × (listeners
          (dns_addr 1)
          (ensure_all answers
            (1 ∷ 2 ∷ 1 ∷ [])
            (ensure_bridge answers 1 (ensure_all answers (1 ∷ 0 ∷ []) started_host)).1).log
        ≡ 1)
ensure_bridge-listeners_example =
    ensure_bridge-listeners answers (1 ∷ 0 ∷ []) (1 ∷ 2 ∷ 1 ∷ []) 1 (bridge_name 1, gateway_ip 1)
      (ensure_bridge answers 1 (ensure_all answers (1 ∷ 0 ∷ []) started_host)).1
      (λ i. (runs i, (ensure_bridge answers 1 (ensure_all answers (1 ∷ 0 ∷ []) started_host)).1))
