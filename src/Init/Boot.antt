-- ===== src/Init/Boot.antt =====
-- main and run of cmd/oak-init/main.go and the steps that run goes through. The agent for oak ssh,
-- which runs beside them, is left out.
use oakberryio.Prelude.{
  ℕ, zero, suc, Bool, true, false, Option, none, some, List, [], ◌∷◌, ◌++◌, Text, t, ltb,
  if◌then◌else◌,
}
use oakberryio.Prelude.Results.{
  Error, Result, ok, err, call_failed, bad_ip, bad_json, unreachable, child_not_started,
}
use oakberryio.Effects.{Exec, pure, lift, modify, ◌>>=◌, ◌>>◌}
use oakberryio.Text.Decimal.{itoa}
use oakberryio.Mmds.{Guest, Mount, argv}
use oakberryio.Deploy.ReleaseCommand.{marker}
use oakberryio.Init.{
  Errno, ebusy, eexist, eaddrnotavail, Call, Event, cad_off, mkdir, mount, check_fd, open_console,
  dup_console, close_console, find_link, link_up, list_addrs, add_addr, del_addr, add_route,
  default_route, write_file, set_path, start_child, kill_all, reap_all, unmount, print_line, sync,
  restart, no_answer, garbled, answer, Kernel, Log,
}
use oakberryio.Init.Env.{resolv_conf, hosts_file, default_path, env_or, child_env}
use oakberryio.Init.Reap.{reap}

unfoldable pub tolerates : Errno → Errno → Bool
tolerates ebusy ebusy = true
tolerates eexist eexist = true
tolerates eaddrnotavail eaddrnotavail = true
tolerates e f = false

unfoldable pub unless : Option Errno → (Errno → Bool) → Result (Unit {0})
unless none fine = ok tt
unless (some e) fine = if fine e then ok tt else err call_failed

module _ (k : Kernel) where
  abbrev pub made : Call → Event
  made c = record { call = c; error = k.answers c }

  -- A call whose error is not looked at here
  unfoldable pub recorded : Call → Exec Log (Unit {0})
  recorded c = modify (λ log. made c ∷ log)

  -- A call whose errors are fatal, but for those that are fine
  unfoldable pub call_but : (Errno → Bool) → Call → Exec Log (Unit {0})
  call_but fine c = do recorded c; lift (unless (k.answers c) fine)

  unfoldable pub call : Call → Exec Log (Unit {0})
  call = call_but (λ e. false)

  unfoldable pub mount_each : List (Text × Text × Text) → Exec Log (Unit {0})
  mount_each [] = pure tt
  mount_each ((source, target, kind) ∷ ms) = do
    call (mkdir target)
    call_but (tolerates ebusy) (mount source target kind)
    mount_each ms

  abbrev pub pseudo : List (Text × Text × Text)
  pseudo =
      (t "proc", t "/proc", t "proc")
      ∷ (t "sysfs", t "/sys", t "sysfs")
      ∷ (t "devtmpfs", t "/dev", t "devtmpfs")
      ∷ (t "tmpfs", t "/tmp", t "tmpfs")
      ∷ (t "tmpfs", t "/run", t "tmpfs")
      ∷ []

  unfoldable pub mount_all : Exec Log (Unit {0})
  mount_all = mount_each pseudo

  -- The console takes the place of all three descriptors.
  unfoldable pub use_console : Exec Log (Unit {0})
  use_console = do
    call open_console
    call (dup_console 0)
    call (dup_console 1)
    call (dup_console 2)
    if ltb 2 k.console then recorded close_console else pure tt

  unfoldable pub ensure_fds : List ℕ → Exec Log (Unit {0})
  ensure_fds [] = pure tt
  ensure_fds (fd ∷ fds) = do
    recorded (check_fd fd)
    let rest = ensure_fds fds
    elim (k.answers (check_fd fd)) [ none ↦ rest | some e ↦ use_console ]

  unfoldable pub ensure_stdio : Exec Log (Unit {0})
  ensure_stdio = ensure_fds (0 ∷ 1 ∷ 2 ∷ [])

  unfoldable pub bring_up : Text → Exec Log (Unit {0})
  bring_up name = do call (find_link name); call (link_up name)

  abbrev pub fallback_addr : Text
  fallback_addr = t "169.254.0.2/16"

  unfoldable pub add_fallback : List Text → Exec Log Bool
  add_fallback (a ∷ as') = pure false
  add_fallback [] = do call_but (tolerates eexist) (add_addr fallback_addr); pure true

  -- Whether an address was added
  unfoldable pub ensure_fallback_addr : Exec Log Bool
  ensure_fallback_addr = do call (find_link (t "eth0")); call list_addrs; add_fallback k.addrs

  unfoldable pub remove_fallback_addr : Exec Log (Unit {0})
  remove_fallback_addr = do
    call (find_link (t "eth0"))
    call_but (tolerates eaddrnotavail) (del_addr fallback_addr)

  unfoldable pub route_to_mmds : Exec Log (Unit {0})
  route_to_mmds = do
    call (find_link (t "eth0"))
    call_but (tolerates eexist) (add_route (t "169.254.169.254/32"))

  -- The attempts from this one on; the first argument is how many are left.
  unfoldable pub fetch_from : ℕ → ℕ → Result Guest
  fetch_from zero i = err unreachable
  fetch_from (suc left) i = elim (k.mmds i) [
    | no_answer ↦ fetch_from left (suc i)
    | garbled ↦ err bad_json
    | answer g ↦ ok g
  ]

  unfoldable pub fetch_guest : Result Guest
  fetch_guest = fetch_from 20 0

  unfoldable pub configure_addr : Guest → Exec Log (Unit {0})
  configure_addr g = do
    call (find_link (t "eth0"))
    lift (if k.valid_addr g.ip then ok tt else err bad_ip)
    call_but (tolerates eexist) (add_addr g.ip)
    lift (if k.valid_ip g.gateway then ok tt else err bad_ip)
    call_but (tolerates eexist) (default_route g.gateway)

  unfoldable pub remove_if : Bool → Exec Log (Unit {0})
  remove_if added = if added then remove_fallback_addr else pure tt

  unfoldable pub write_network_files : Guest → Exec Log (Unit {0})
  write_network_files g = do
    call (write_file (t "/etc/resolv.conf") (resolv_conf g.dns))
    call (write_file (t "/etc/hosts") (hosts_file g.machine_id))

  unfoldable pub mount_volumes : List Mount → Exec Log (Unit {0})
  mount_volumes [] = pure tt
  mount_volumes (m ∷ ms) = do
    call (mkdir m.dest)
    call (mount m.device m.dest (t "ext4"))
    mount_volumes ms

  unfoldable pub note_dev : Exec Log (Unit {0})
  note_dev =
      if k.dev_is_set_up
      then pure tt
      else recorded (print_line (t "oak-init: dev setup incomplete"))

  unfoldable pub run_child : List Text → Guest → Exec Log ℕ
  run_child args g = do
    recorded (set_path (env_or (t "PATH") default_path g.env))
    recorded (start_child args (child_env g) g.working_dir)
    lift (elim (k.answers (start_child args (child_env g) g.working_dir)) [
      | none ↦ ok tt
      | some e ↦ err child_not_started
    ])
    lift (reap k.child_pid k.waits)

  unfoldable pub unmount_all : List Mount → Exec Log (Unit {0})
  unmount_all [] = pure tt
  unmount_all (m ∷ ms) = do recorded (unmount m.dest); unmount_all ms

  -- The network, before the payload is known; whether the fallback address was added
  unfoldable pub prepare : Exec Log Bool
  prepare = do
    recorded cad_off
    mount_all
    call (mkdir (t "/etc"))
    ensure_stdio
    bring_up (t "lo")
    bring_up (t "eth0")
    added ← ensure_fallback_addr
    route_to_mmds
    pure added

  unfoldable pub set_up : Bool → Guest → Exec Log (Unit {0})
  set_up added g = do
    configure_addr g
    remove_if added
    write_network_files g
    mount_volumes g.mounts

  -- After the child: the orphans, the volumes, the status for oakd, and the reboot
  unfoldable pub finish : Guest → ℕ → Exec Log (Unit {0})
  finish g code = do
    recorded kill_all
    recorded reap_all
    unmount_all g.mounts
    recorded (print_line (marker ++ itoa code))
    recorded sync
    call restart

  unfoldable pub run : Exec Log (Unit {0})
  run = do
    added ← prepare
    g ← lift fetch_guest
    set_up added g
    args ← lift (argv g)
    note_dev
    code ← run_child args g
    finish g code

  abbrev pub fatal_text : Text
  fatal_text = t "oak-init: fatal: "

  -- fatal, on an error of run; `words` are those of the error.
  unfoldable pub main : (Error → Text) → Log → Log
  main words log =
      let (outcome, log') = run log in
      elim outcome [
        | ok _ ↦ log'
        | err e ↦ made restart ∷ made (print_line (fatal_text ++ words e)) ∷ log'
      ]
