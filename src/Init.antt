-- ===== src/Init.antt =====
-- cmd/oak-init: process 1 of a guest. Its calls of the kernel, of netlink and of Firecracker's metadata
-- service are recorded in their order; how they are answered is a parameter.
pub mod Env
pub mod Reap
pub mod Boot
pub mod Outcome
pub mod Handover
use oakberryio.Prelude.{ℕ, Bool, Option, List, Text}
use oakberryio.Prelude.Int.{ℤ}
use oakberryio.Mmds.{Guest}

-- The errors that the code tells apart.
pub data Errno : Type 0 where
  ebusy eexist eaddrnotavail eintr other_errno : Errno

pub data Call : Type 0 where
  cad_off : Call
  mkdir : Text → Call
  -- source, target, type
  mount : Text → Text → Text → Call
  check_fd : ℕ → Call
  open_console : Call
  dup_console : ℕ → Call
  close_console : Call
  find_link link_up : Text → Call
  list_addrs : Call
  add_addr del_addr : Text → Call
  add_route : Text → Call
  default_route : Text → Call
  write_file : Text → Text → Call
  set_path : Text → Call
  -- argv, environment, working directory
  start_child : List Text → List Text → Text → Call
  kill_all reap_all : Call
  unmount : Text → Call
  print_line : Text → Call
  sync restart : Call

-- One attempt to get the configuration: no answer, one that does not decode, or the payload.
pub data Attempt : Type 0 where
  no_answer garbled : Attempt
  answer : Guest → Attempt

-- The status of a child that a wait returned.
pub data Status : Type 0 where
  exited signaled : ℕ → Status

-- One return of wait4(-1).
pub data Wait : Type 0 where
  interrupted failed : Wait
  child : ℕ → Status → Wait

pub record Kernel : Type 0 where
  pub answers : Call → Option Errno
  -- the addresses that eth0 has already
  pub addrs : List Text
  -- the file descriptor of /dev/console
  pub console : ℕ
  -- netlink.ParseAddr and net.ParseIP accept the text
  pub valid_addr : Text → Bool
  pub valid_ip : Text → Bool
  pub mmds : ℕ → Attempt
  pub child_pid : ℕ
  -- what wait4 returns, one after another, until the child is gone
  pub waits : List Wait
  -- devpts, /dev/ptmx and the links of /dev, which may fail
  pub dev_is_set_up : Bool

-- A call and its answer.
pub record Event : Type 0 where
  pub call : Call
  pub error : Option Errno

-- The calls so far, the last first.
abbrev pub Log : Type 0
Log = List Event
