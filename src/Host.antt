-- ===== src/Host.antt =====
-- The parts of oakd that call the host for a microVM or for the daemon itself: internal/vm/vm_linux.go and
-- config_linux.go, and ensureBridge, New and Run of internal/daemon. Their calls of netlink, of the file system and of Firecracker's SDK
-- are recorded with their errors; how they are answered is a parameter, which may look at the calls
-- before.
pub mod Config
pub mod Noted
pub mod Machine
pub mod Bridge
pub mod Daemon
use oakberryio.Prelude.{ℕ, Bool, Option, none, some, List, [], ◌∷◌, Text}
use oakberryio.Prelude.Int.{ℤ}
use oakberryio.Prelude.Results.{Error, Result, ok, err}
use oakberryio.Effects.{Exec, pure, fail, modify, ◌>>=◌, ◌>>◌}
use oakberryio.Mmds.{Guest}
use oakberryio.Host.Config.{VmConfig}

-- The errors that the code tells apart.
pub data Errno : Type 0 where
  eexist other_errno : Errno

pub data Call : Type 0 where
  add_tap add_bridge find_link set_up delete_link : Text → Call
  -- a link and the bridge that it is attached to
  set_master : Text → Text → Call
  list_addrs : Text → Call
  -- an address and its link
  add_addr : Text → Text → Call
  listen_udp : Text → Call
  open_log close_log : Text → Call
  new_machine : VmConfig → Call
  -- the SDK's handlers, the last of which sets the metadata, and then the boot of the guest
  start_machine : VmConfig → Guest → Call
  shut_down : Text → Call
  -- for ten seconds, and until the end
  wait_briefly wait : Text → Call
  stop_vmm : Text → Call
  -- oakd's database, the file of its age identity, directories and files
  open_store load_identity make_dir remove_file : Text → Call
  close_store : Call
  -- the listeners of its API, and http.Serve on them: behind this token for TCP
  listen_unix : Text → Call
  listen_tcp : ℤ → Call
  serve_tcp : Text → Call
  serve_unix close_unix close_tcp : Call

pub record Event : Type 0 where
  pub call : Call
  pub error : Option Errno

-- The calls so far, the last first, and the subnets whose DNS listener runs.
pub record Host : Type 0 where
  pub log : List Event
  pub dns_listening : List ℕ

pub record Answers : Type 0 where
  pub to : Host → Call → Option Errno
  pub addrs : Host → Text → List Text
  -- the SDK's PID, which the code takes as 0 on an error
  pub pid : Host → VmConfig → ℕ
  -- net.ParseCIDR, as the address and the mask, and net.ParseIP
  pub parse_cidr : Text → Option (Text × Text)
  pub valid_ip : Text → Bool

module _ (h : Answers) where
  unfoldable pub note : Call → Host → Host
  note c w = record w { log = record { call = c; error = h.to w c } ∷ w.log }

  -- A call whose error the code looks at.
  unfoldable pub ask : Call → Exec Host (Option Errno)
  ask c w = (ok (h.to w c), note c w)

  -- if err != nil { return err }
  unfoldable pub must : Error → Call → Exec Host (Unit {0})
  must why c = ask c >>= λ r. elim r [ none ↦ pure tt | some e ↦ fail why ]

  -- _ = call()
  unfoldable pub ignore : Call → Exec Host (Unit {0})
  ignore c = modify (note c)
