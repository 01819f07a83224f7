-- ===== src/Host/Config.antt =====
-- BuildConfig of internal/vm/config_linux.go: the configuration that the SDK is given.
use oakberryio.Prelude.{
  ℕ, Option, none, some, Bool, true, List, [], ◌∷◌, ◌++◌, Text, t, ◌==◌, nat_eq, text_eq,
  if◌then◌else◌,
}
use oakberryio.Prelude.Int.{ℤ}
use oakberryio.Prelude.Results.{Result, ok, err, bad_ip, bad_gateway, ◌>>=◌}
use oakberryio.Paths.{join}
use oakberryio.Vm.{Spec}

pub record IpConfig : Type 0 where
  pub addr : Text
  pub mask : Text
  -- nil where the specification has no gateway
  pub gateway : Option Text
  pub nameservers : List Text

pub record Vsock : Type 0 where
  pub id : Text
  pub path : Text
  pub cid : ℕ

-- The fields of firecracker.Config that are set. The drives are those that are added to the builder,
-- read-write and in this order, beside the one of the root.
pub record VmConfig : Type 0 where
  pub id : Text
  pub socket_path : Text
  pub kernel : Text
  pub kernel_args : Text
  pub root_drive : Text
  pub drives : List Text
  pub mac : Text
  pub host_dev : Text
  pub ip : Option IpConfig
  pub allow_mmds : Bool
  pub vcpus : ℤ
  pub memory_mib : ℤ
  pub vsocks : List Vsock

abbrev pub kernel_args : Text
kernel_args = t "console=ttyS0 reboot=k panic=1 pci=off init=/sbin/oak-init"

-- `parse_cidr` is net.ParseCIDR, and `valid_ip` net.ParseIP.
module _ (parse_cidr : Text → Option (Text × Text)) (valid_ip : Text → Bool) where
  unfoldable pub gateway_of : Text → Result (Option Text)
  gateway_of gateway =
      if gateway == t ""
      then ok none
      else if valid_ip gateway
      then ok (some gateway)
      else err bad_gateway

  unfoldable pub ip_config : Spec → Result (Option IpConfig)
  ip_config spec = if spec.ip == t "" then ok none else elim (parse_cidr spec.ip) [
    | none ↦ err bad_ip
    | some (addr, mask) ↦ do
      gateway ← gateway_of spec.gateway
      ok (
          some (record {
            addr = addr;
            mask = mask;
            gateway = gateway;
            nameservers = spec.gateway ∷ [];
          }))
  ]

  unfoldable pub vsocks : Spec → List Vsock
  vsocks spec =
      if spec.vsock_uds == t ""
      then []
      else record { id = t "vsock0"; path = spec.vsock_uds; cid = spec.guest_cid } ∷ []

  unfoldable pub build_config : Spec → Result VmConfig
  build_config spec = do
    ip ← ip_config spec
    ok (record {
      id = spec.id;
      socket_path = join spec.socket_dir (spec.id ++ t ".sock");
      kernel = spec.kernel;
      kernel_args = kernel_args;
      root_drive = spec.rootfs;
      drives = spec.volumes;
      mac = spec.mac;
      host_dev = spec.tap;
      ip = ip;
      allow_mmds = true;
      vcpus = spec.cpus;
      memory_mib = spec.memory_mb;
      vsocks = vsocks spec;
    })
