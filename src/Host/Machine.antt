-- ===== src/Host/Machine.antt =====
-- Start, Stop and their parts of internal/vm/vm_linux.go.
pub mod Held
pub mod Process
pub mod Released
use oakberryio.Prelude.{ℕ, Option, none, some, Text, t, ◌==◌, nat_eq, text_eq, if◌then◌else◌}
use oakberryio.Prelude.Results.{
  Result, link_failed, log_failed, machine_failed, stop_failed, wait_failed,
}
use oakberryio.Effects.{Exec, pure, fail, lift, gets, on_error, finally, ◌>>=◌, ◌>>◌}
use oakberryio.Mmds.{Guest}
use oakberryio.Vm.{Spec}
use oakberryio.Host.{
  Answers, Host, Errno, eexist, other_errno, add_tap, find_link, delete_link, set_master, set_up,
  open_log, close_log, new_machine, shut_down, wait_briefly, wait, stop_vmm, note, ask, must,
  ignore,
}
use oakberryio.Host
use oakberryio.Host.Config.{VmConfig, build_config}

-- A running machine, with the tap and the console's log that are released with it.
pub record Machine : Type 0 where
  pub id : Text
  pub tap : Text
  pub log_file : Text
  pub pid : ℕ

module _ (h : Answers) where
  -- A tap that was left behind is deleted, and the call tried once more.
  unfoldable pub replace_link : Text → Exec Host (Unit {0})
  replace_link name = do
    found ← ask h (find_link name)
    elim found [ none ↦ ignore h (delete_link name) | some e ↦ pure tt ]
    must h link_failed (add_tap name)

  unfoldable pub after_add : Text → Option Errno → Exec Host (Unit {0})
  after_add name none = pure tt
  after_add name (some eexist) = replace_link name
  after_add name (some other_errno) = fail link_failed

  unfoldable pub add_link : Text → Exec Host (Unit {0})
  add_link name = ask h (add_tap name) >>= after_add name

  unfoldable pub attach : Text → Text → Exec Host (Unit {0})
  attach name bridge = do
    must h link_failed (find_link bridge)
    must h link_failed (set_master name bridge)
    must h link_failed (set_up name)

  unfoldable pub create_tap : Text → Text → Exec Host (Unit {0})
  create_tap name bridge = do
    add_link name
    on_error (attach name (if bridge == t "" then t "oak0" else bridge)) (note h (delete_link name))

  unfoldable pub boot : VmConfig → Guest → Exec Host (Unit {0})
  boot cfg guest = do
    must h machine_failed (new_machine cfg)
    must h machine_failed (Host.start_machine cfg guest)

  unfoldable pub start_machine : Spec → Guest → Exec Host Machine
  start_machine spec guest = do
    cfg ← lift (build_config h.parse_cidr h.valid_ip spec)
    must h log_failed (open_log spec.log_path)
    on_error (boot cfg guest) (note h (close_log spec.log_path))
    pid ← gets (λ w. h.pid w cfg)
    pure (record { id = spec.id; tap = spec.tap; log_file = spec.log_path; pid = pid })

  unfoldable pub start : Spec → Guest → Exec Host Machine
  start spec guest = do
    create_tap spec.tap spec.bridge
    on_error (start_machine spec guest) (note h (delete_link spec.tap))

  unfoldable pub release : Machine → Host → Host
  release m w = note h (close_log m.log_file) (note h (delete_link m.tap) w)

  -- A guest that does not shut down in ten seconds is stopped by force.
  unfoldable pub end_process : Machine → Exec Host (Unit {0})
  end_process m = do
    ignore h (shut_down m.id)
    r ← ask h (wait_briefly m.id)
    elim r [
      | none ↦ pure tt
      | some e ↦ must h stop_failed (stop_vmm m.id) >> must h wait_failed (wait m.id)
    ]

  unfoldable pub stop : Machine → Exec Host (Unit {0})
  stop m = finally (end_process m) (release m)
