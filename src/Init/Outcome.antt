-- ===== src/Init/Outcome.antt =====
-- How a boot of oak-init ends, and what was done before.
use oakberryio.Prelude.{
  ◌≡◌, ◌∙◌, ap, refl, sym, subst, arith, ℕ, Bool, Option, none, List, [], ◌∷◌, ◌++◌, All, Text, t,
}
use mathlib.Core.List.{Mem, mem-cons_self, mem-cons_of_mem}
use oakberryio.Table.Laws.{All-imp}
use oakberryio.Prelude.Results.{Error, ok, Result-cases}
use oakberryio.Prelude.{Bool-cases, inl, inr}
use oakberryio.Effects.{pure, lift, modify, ◌>>=◌, ◌>>◌}
use oakberryio.Effects.Keeps.{bind-eq-ok}
use oakberryio.Text.Decimal.{itoa}
use oakberryio.Mmds.{Guest, Mount, argv}
use oakberryio.Deploy.ReleaseCommand.{marker}
use oakberryio.Init.{
  Errno, Event, Call, mkdir, mount, set_path, start_child, kill_all, reap_all, unmount, print_line,
  sync, restart, Kernel, Log,
}
use oakberryio.Init.Env.{default_path, env_or, child_env}
use oakberryio.Init.Reap.{reap}
use oakberryio.Init.Boot.{
  made, recorded, unless, call_but, call, mount_volumes, fetch_guest, prepare, set_up, note_dev,
  run_child, unmount_all, finish, run, main, configure_addr, remove_if, write_network_files,
}

module _ (k : Kernel) where
  -- A call whose errors are fatal, and that did not end the boot.
  call_fine : (c : Call) (log : Log) → (call k c log).0 ≡ ok tt → k.answers c ≡ none
  unfolding call call_but recorded ◌>>=◌ modify lift unless
  call_fine c log e = ground (arith, e)

  run_child_inv :
      (args : List Text) (g : Guest) (log : Log) {code : ℕ} {log' : Log}
      → run_child k args g log ≡ (ok code, log')
      → (reap k.child_pid k.waits ≡ ok code)
        × (log'
            ≡ made k (start_child args (child_env g) g.working_dir)
              ∷ made k (set_path (env_or (t "PATH") default_path g.env))
              ∷ log)
  unfolding run_child recorded ◌>>=◌ modify lift
  run_child_inv args g log {code} {log'} e = ground arith

  abbrev pub unmounted : List Mount → Log → Log
  unmounted [] log = log
  unmounted (m ∷ ms) log = unmounted ms (made k (unmount m.dest) ∷ log)

  unmount_all_ran : (ms : List Mount) (log : Log) → unmount_all k ms log ≡ (ok tt, unmounted ms log)
  unfolding unmount_all pure recorded ◌>>=◌ modify
  unmount_all_ran [] log = refl
  unmount_all_ran (m ∷ ms) log = unmount_all_ran ms (made k (unmount m.dest) ∷ log)

  -- The calls after the child, on a boot that reaches the reboot
  abbrev pub finished : Guest → ℕ → Log → Log
  finished g code log =
      made k restart
      ∷ made k sync
      ∷ made k (print_line (marker ++ itoa code))
      ∷ unmounted g.mounts (made k reap_all ∷ made k kill_all ∷ log)

  finish_ran : (g : Guest) (code : ℕ) (log : Log) → (finish k g code log).1 ≡ finished g code log
  unfolding finish call call_but recorded ◌>>=◌ modify lift
  finish_ran g code log =
      rw (unmount_all_ran g.mounts (made k reap_all ∷ made k kill_all ∷ log), finish) refl

  finish_inv :
      (g : Guest) (code : ℕ) (log : Log) {u : Unit {0}} {log' : Log}
      → finish k g code log ≡ (ok u, log')
      → log' ≡ finished g code log
  finish_inv g code log {u} {log'} e = ap (λ p. p.1) (sym e) ∙ finish_ran g code log

  -- The volume's device was mounted at its destination, without an error.
  abbrev pub Mounted : Log → Mount → Type 0
  Mounted log m = Mem (record { call = mount m.device m.dest (t "ext4"); error = none }) log

  mount_volumes_inv :
      (ms : List Mount) (log : Log) {u : Unit {0}} {log' : Log}
      → mount_volumes k ms log ≡ (ok u, log')
      → All (Mounted log') ms × ((c : Event) → Mem c log → Mem c log')
  unfolding mount_volumes pure call call_but recorded ◌>>=◌ modify lift
  mount_volumes_inv [] log {log' = l} e =
      let same : log ≡ l = ap (λ p. p.1) e in (tt, λ c h. subst (Mem c) same h)
  mount_volumes_inv (m ∷ ms) log {log' = l} e =
      let mounting = mount m.device m.dest (t "ext4") in
      let (u1, e1, f1) = bind-eq-ok (call k (mkdir m.dest)) _ log e in
      let (u2, e2, f2) = bind-eq-ok (call k mounting) _ (made k (mkdir m.dest) ∷ log) f1 in
      let (there, keeps) =
        mount_volumes_inv ms (made k mounting ∷ made k (mkdir m.dest) ∷ log) f2 in
      let fine = call_fine mounting (made k (mkdir m.dest) ∷ log) e2 in
      (
        (
          subst (λ (r : Option Errno). Mem {A = Event} (record { call = mounting; error = r }) l)
              fine (keeps (made k mounting) mem-cons_self),
          there,
        ),
        λ c h. keeps c (mem-cons_of_mem _ (mem-cons_of_mem _ h)),
      )

  set_up_inv :
      (added : Bool) (g : Guest) (log : Log) {u : Unit {0}} {log' : Log}
      → set_up k added g log ≡ (ok u, log')
      → All (Mounted log') g.mounts
  unfolding set_up
  set_up_inv added g log e =
      let (u1, e1, f1) = bind-eq-ok (configure_addr k g) _ log e in
      let (u2, e2, f2) = bind-eq-ok (remove_if k added) _ _ f1 in
      let (u3, e3, f3) = bind-eq-ok (write_network_files k g) _ _ f2 in
      (mount_volumes_inv g.mounts _ f3).0

  Mounted-note_dev :
      (ms : List Mount) (log : Log) → All (Mounted log) ms → All (Mounted (note_dev k log).1) ms
  unfolding note_dev pure recorded modify
  Mounted-note_dev ms log h = elim (Bool-cases k.dev_is_set_up) [
    | inl e ↦ rw (e, note_dev) h
    | inr e ↦ rw (e, note_dev) (All-imp ms (λ m p. mem-cons_of_mem _ p) h)
  ]

-- A boot that came to its end: what was done last, in this order, for the payload and the status, and
-- that the volumes had been mounted by then.
pub record Booted (k : Kernel) (log : Log) : Type 0 where
  pub guest : Guest
  pub args : List Text
  pub code : ℕ
  pub earlier : Log
  pub fetched : fetch_guest k ≡ ok guest
  pub built : argv guest ≡ ok args
  pub reaped : reap k.child_pid k.waits ≡ ok code
  pub mounts : All (Mounted k earlier) guest.mounts
  pub order :
      log
      ≡ finished k guest code (
          made k (start_child args (child_env guest) guest.working_dir)
          ∷ made k (set_path (env_or (t "PATH") default_path guest.env))
          ∷ earlier)

launched :
    (k : Kernel) (g : Guest) (log log' : Log)
    → fetch_guest k ≡ ok g
    → All (Mounted k log) g.mounts
    → (lift (argv g) >>= λ args. note_dev k >> (run_child k args g >>= finish k g)) log
      ≡ (ok tt, log')
    → Booted k log'
unfolding lift
launched k g log log' fetched mounts e =
    let (args, built, f4) = bind-eq-ok (lift (argv g)) _ log e in
    let (u, e5, f5) = bind-eq-ok (note_dev k) _ log f4 in
    let noted = (note_dev k log).1 in
    let (code, e6, f6) = bind-eq-ok (run_child k args g) _ noted f5 in
    let after = (run_child k args g noted).1 in
    let (reaped, ran) =
      run_child_inv k args g noted {code = code} {log' = after} (λ i. (e6 i, after)) in
    record {
      guest = g;
      args = args;
      code = code;
      earlier = noted;
      fetched = fetched;
      built = built;
      reaped = reaped;
      mounts = Mounted-note_dev k g.mounts log mounts;
      order = finish_inv k g code after f6 ∙ ap (finished k g code) ran;
    }

-- A run of oak-init without an error has mounted every volume of the payload, each by a mount that the
-- kernel answered without an error, before it starts the child; and after the child's exit kills and reaps the rest, unmounts the volumes, prints the child's
-- status, syncs and restarts the machine, in this order.
pub run-Booted : (k : Kernel) (log log' : Log) → run k log ≡ (ok tt, log') → Booted k log'
unfolding run lift
run-Booted k log log' e =
    let (added, e1, f1) = bind-eq-ok (prepare k) _ log e in
    let (g, fetched, f2) = bind-eq-ok (lift (fetch_guest k)) _ (prepare k log).1 f1 in
    let ready = (prepare k log).1 in
    let (u, e3, f3) = bind-eq-ok (set_up k added g) _ ready f2 in
    let set = (set_up k added g ready).1 in
    launched k g set log' fetched (set_up_inv k added g ready (λ i. (e3 i, set))) f3

-- However the boot goes, oak-init asks the kernel to restart the machine in the end, which is what ends
-- the VMM that oakd waits for.
pub main-restarts :
    (k : Kernel) (words : Error → Text) (log : Log)
    → (earlier : Log) × (main k words log ≡ made k restart ∷ earlier)
unfolding main
main-restarts k words log = elim (Result-cases (run k log).0) [
  | inl (e, h) ↦
      (made k (print_line (t "oak-init: fatal: " ++ words e)) ∷ (run k log).1, rw (h, main) refl)
  | inr (u, h) ↦
      let b = run-Booted k log (run k log).1 (λ i. (h i, (run k log).1)) in
      (
        made k sync
            ∷ made k (print_line (marker ++ itoa b.code))
            ∷ unmounted k b.guest.mounts (
                made k reap_all
                ∷ made k kill_all
                ∷ made k (start_child b.args (child_env b.guest) b.guest.working_dir)
                ∷ made k (set_path (env_or (t "PATH") default_path b.guest.env))
                ∷ b.earlier),
        rw (h, main) b.order,
      )
]
