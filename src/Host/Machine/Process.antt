-- ===== src/Host/Machine/Process.antt =====
-- The VMM's process over Start and Stop of internal/vm/vm_linux.go: whether it may still run.
use oakberryio.Prelude.{
  ◌≡◌, ◌⊎◌, refl, inl, inr, Bool, true, false, Option, none, some, List, [], ◌∷◌, Text, ◌==◌,
  text_eq, ==_refl, if◌then◌else◌, Option-cases, subst,
}
use oakberryio.Prelude.Results.{Error, Result, ok, err, stop_failed, wait_failed, link_failed}
use oakberryio.Effects.{pure, fail, gets, modify, finally, continue, ◌>>=◌, ◌>>◌}
use oakberryio.Effects.Keeps.{
  Keeps, Keeps-bind, Keeps-on_error, Keeps-pure, Keeps-fail, Keeps-lift, Restores, Restores-bind,
}
use oakberryio.Effects.Mends.{Restores-then, Restores-on_error}
use oakberryio.Mmds.{Guest}
use oakberryio.Vm.{Spec}
use oakberryio.Host.{
  Answers, Host, Event, Errno, eexist, other_errno, Call, start_machine, wait_briefly, wait,
  stop_vmm, shut_down, add_tap, find_link, delete_link, set_master, set_up, note, ask, must, ignore,
}
use oakberryio.Host.Config.{VmConfig}
use oakberryio.Host.Noted.{Keeps-must, Keeps-ignore, Restores-must}
use oakberryio.Host.Machine.{
  Machine, replace_link, after_add, add_link, attach, create_tap, boot, start, release, end_process,
  stop,
}
use oakberryio.Host.Machine

unfoldable vmm_after : Text → Call → Option Errno → Bool → Bool
vmm_after id (start_machine cfg guest) none before = if cfg.id == id then true else before
vmm_after id (wait_briefly i) none before = if i == id then false else before
vmm_after id (wait i) none before = if i == id then false else before
vmm_after id c r before = before

-- A VMM of this machine was started, and no wait for its end has returned without an error since.
unfoldable pub holds_vmm : Text → List Event → Bool
unfolding vmm_after
holds_vmm id [] = false
holds_vmm id (e ∷ es) = vmm_after id e.call e.error (holds_vmm id es)

unfoldable pub VmmGone : Text → Host → Type 0
VmmGone id w = holds_vmm id w.log ≡ false

-- The VMM is gone, or the end of it has failed: it could not be told to stop, or the wait for it failed.
abbrev pub Ended : {A : Type 0} → Text → Result A × Host → Type 0
Ended id p = VmmGone id p.1 ⊎ ((p.0 ≡ err stop_failed) ⊎ (p.0 ≡ err wait_failed))

module _ (h : Answers) where
  -- What the calls of netlink keep, the set-up of the tap keeps.
  pub record KeepsTap (P : Host → Type 0) (tap bridge : Text) : Type 0 where
    pub adds : (w : Host) → P w → P (note h (add_tap tap) w)
    pub finds : (name : Text) (w : Host) → P w → P (note h (find_link name) w)
    pub deletes : (w : Host) → P w → P (note h (delete_link tap) w)
    pub attaches : (name : Text) (w : Host) → P w → P (note h (set_master tap name) w)
    pub sets : (w : Host) → P w → P (note h (set_up tap) w)

  pub Keeps-create_tap :
      {P : Host → Type 0} (tap bridge : Text)
      → KeepsTap P tap bridge
      → Keeps P (create_tap h tap bridge)
  unfolding create_tap add_link replace_link attach ask
  Keeps-create_tap {P = P} tap bridge k =
      Keeps-bind _ _ (Keeps-bind _ _ (record { at = λ w p. k.adds w p }) added) (λ _.
        Keeps-on_error _ _
          (Keeps-bind _ _ (Keeps-must h _ _ (λ w p. k.finds _ w p)) (λ _.
            Keeps-bind _ _ (Keeps-must h _ _ (λ w p. k.attaches _ w p))
              (λ _. Keeps-must h _ _ (λ w p. k.sets w p))))
          (λ w p. k.deletes w p))
    where
      cleared :
          (found : Option Errno)
          → Keeps P (elim found [ none ↦ ignore h (delete_link tap) | some e ↦ pure tt ])
      cleared none = Keeps-ignore h (delete_link tap) (λ w p. k.deletes w p)
      cleared (some e) = Keeps-pure tt

      added : (r : Option Errno) → Keeps P (after_add h tap r)
      added none = unfold after_add in Keeps-pure tt
      added (some eexist) =
          unfold after_add in
          Keeps-bind _ _ (record { at = λ w p. k.finds tap w p })
            (λ found. Keeps-bind _ _ (cleared found) (λ _. Keeps-must h _ _ (λ w p. k.adds w p)))
      added (some other_errno) = unfold after_add in Keeps-fail link_failed

  vmm_refused :
      (id : Text) (cfg : VmConfig) (guest : Guest) (w : Host) (e : Errno)
      → h.to w (start_machine cfg guest) ≡ some e
      → VmmGone id w
      → VmmGone id (note h (start_machine cfg guest) w)
  unfolding VmmGone note holds_vmm vmm_after
  vmm_refused id cfg guest w e bad p = rw bad p

  Restores-boot :
      (id : Text) (cfg : VmConfig) (guest : Guest) → Restores (VmmGone id) (boot h cfg guest)
  unfolding boot VmmGone note holds_vmm vmm_after
  Restores-boot id cfg guest =
      Restores-bind _ _ (Keeps-must h _ _ (λ w p. p))
        (λ u. Restores-must h _ _ (λ w e bad p. vmm_refused id cfg guest w e bad p))

  -- A start that fails leaves no VMM of its own.
  pub Restores-start-vmm :
      (id : Text) (spec : Spec) (guest : Guest) → Restores (VmmGone id) (start h spec guest)
  unfolding start Machine.start_machine VmmGone note holds_vmm vmm_after gets pure ◌>>=◌
  Restores-start-vmm id spec guest =
      Restores-bind _ _
        (Keeps-create_tap spec.tap spec.bridge (record {
          adds = λ w p. p;
          finds = λ name w p. p;
          deletes = λ w p. p;
          attaches = λ name w p. p;
          sets = λ w p. p;
        }))
        (λ u.
          Restores-on_error _ _
            (Restores-bind _ _ (Keeps-lift _) (λ cfg.
              Restores-bind _ _ (Keeps-must h _ _ (λ w p. p)) (λ v.
                Restores-then _ _ (Restores-on_error _ _ (Restores-boot id cfg guest) (λ w p. p))
                  (λ t. record { at = λ w e x. cc x }))))
            (λ w p. p))

  vmm_waited :
      (id : Text) (w : Host)
      → ((h.to w (wait_briefly id) ≡ none) → VmmGone id (note h (wait_briefly id) w))
        × ((h.to w (wait id) ≡ none) → VmmGone id (note h (wait id) w))
  unfolding VmmGone note holds_vmm vmm_after
  vmm_waited id w = (λ fine. rw (fine, ==_refl id) refl, λ fine. rw (fine, ==_refl id) refl)

  forced :
      (id : Text) (w : Host)
      → Ended id ((must h stop_failed (stop_vmm id) >> must h wait_failed (wait id)) w)
  unfolding must ask ◌>>=◌ pure fail
  forced id w = elim (Option-cases (h.to w (stop_vmm id))) [
    | inr (e, bad) ↦ rw bad (inr (inl refl))
    | inl fine ↦
        let v = note h (stop_vmm id) w in
        elim (Option-cases (h.to v (wait id))) [
          | inr (e, bad) ↦ rw (fine, bad) (inr (inr refl))
          | inl over ↦ rw (fine, over) (inl ((vmm_waited id v).1 over))
        ]
  ]

  Ended-end_process : (m : Machine) (w : Host) → Ended m.id (end_process h m w)
  unfolding end_process ignore modify ask ◌>>=◌ pure
  Ended-end_process m w =
      let v = note h (shut_down m.id) w in
      elim (Option-cases (h.to v (wait_briefly m.id))) [
        | inl fine ↦ rw fine (inl ((vmm_waited m.id v).0 fine))
        | inr (e, bad) ↦ rw bad (forced m.id (note h (wait_briefly m.id) v))
      ]

  -- The release of the tap and of the log file changes nothing of that.
  pub Ended-stop : (m : Machine) (w : Host) → Ended m.id (stop h m w)
  unfolding stop finally release VmmGone note holds_vmm vmm_after
  Ended-stop m w = Ended-end_process m w

  -- From the start to the stop.
  pub Ended-bracket :
      (id : Text) (spec : Spec) (guest : Guest) (w : Host)
      → VmmGone id w
      → ((m : Machine) → (start h spec guest w).0 ≡ ok m → m.id ≡ id)
      → Ended id ((start h spec guest >>= stop h) w)
  unfolding ◌>>=◌
  Ended-bracket id spec guest w p same =
      go (start h spec guest w).0 (start h spec guest w).1
        (λ e x. (Restores-start-vmm id spec guest).at w p e x) same
    where
      go :
          (r : Result Machine) (v : Host)
          → ((e : Error) → r ≡ err e → VmmGone id v)
          → ((m : Machine) → r ≡ ok m → m.id ≡ id)
          → Ended id (continue r (stop h) v)
      go (ok m) v bad good =
          subst (λ (n : Text). Ended n (stop h m v)) (good m refl) (Ended-stop m v)
      go (err e) v bad good = inl (bad e refl)
