-- ===== src/Deploy/Boot/CutOver.antt =====
-- What stopOldMachines leaves of the app's machines.
use oakberryio.Prelude.{
  ◌≡◌, ◌∙◌, ap, refl, Bool, true, false, ◌&&◌, List, [], ◌∷◌, Text, arith, All, any, ◌==◌, ==_refl,
  text_eq, if◌then◌else◌, Bool-cases, inl, inr, any-sort,
}
use oakberryio.Table.{select_by, delete_by, find_by}
use oakberryio.Table.Laws.{
  any-select_by, All-imp, All-zip, All-delete_by, All-deleted, find_by-delete_by,
}
use oakberryio.Store.{Db, Machine}
use oakberryio.Store.Machines.{machines_for_app, newest_first, delete_machine, state_eq}
use oakberryio.Deploy.{World}
use oakberryio.Deploy.State.{with_db, remove_handle, record_effect}
use oakberryio.Deploy.Launch.{delete_row, stop_handle}
use oakberryio.Deploy.Boot.{stop_machine, is_old, stop_where, stop_old_machines}

module _ {A : Type 0} (q : A → A → Bool) (at : A → Bool)
    (self : (r : A) → at r ≡ true → q r r ≡ true) where
  -- Each row is among the rows.
  All-self : (xs : List A) → All (λ r. at r ≡ true → any (q r) xs ≡ true) xs
  unfolding any
  All-self [] = tt
  All-self (x ∷ xs) =
      (λ h. ground (arith, self x h), All-imp xs (λ r f h. ground (arith, f h)) (All-self xs))

-- The machines of the app that would be stopped are covered by the list of them.
abbrev covers : (Machine → Bool) → Machine → Machine → Bool
covers p r m = p m && m.id == r.id

-- A machine of the app that is to be stopped.
abbrev pub ChosenOf : Text → (Machine → Bool) → Machine → Type 0
ChosenOf app p r = (r.app ≡ app) × (p r ≡ true)

module _ (app : Text) (p : Machine → Bool) where
  listed :
      (db : Db)
      → All (λ r. ChosenOf app p r → any (covers p r) (machines_for_app app db) ≡ true) db.machines
  unfolding machines_for_app newest_first
  listed db =
      All-imp db.machines
        (λ r f (a, o).
          any-sort _ _ (select_by (λ (m : Machine). m.app) app db.machines)
          ∙ any-select_by (λ (m : Machine). m.app) app (covers p r) db.machines
          ∙ f (ground (arith, a, o, ==_refl app)))
        (All-self (λ r m. m.app == app && covers p r m) (λ r. r.app == app && p r)
          (λ r h. ground (arith, ==_refl r.id)) db.machines)

  -- One round of the loop leaves the machines that the rest of the list covers.
  stopped_round :
      (m : Machine) (ms rows : List Machine)
      → All (λ r. ChosenOf app p r → any (covers p r) (m ∷ ms) ≡ true) rows
      → All
          (λ r. ChosenOf app p r → any (covers p r) ms ≡ true)
          (if p m then delete_by (λ (m : Machine). m.id) m.id rows else rows)
  unfolding any
  stopped_round m ms rows h = elim (Bool-cases (p m)) [
    | inl old ↦ rw old (
        All-zip _ (λ r f ne o. ground (arith, f o)) (All-delete_by _ _ m.id rows h)
          (All-deleted _ m.id rows))
    | inr kept ↦ rw kept (All-imp rows (λ r f o. ground (arith, f o)) h)
  ]

  stop_machine_rows : (m : Machine) (w : World) → (stop_machine m w).db ≡ delete_machine m.id w.db
  unfolding stop_machine remove_handle delete_row stop_handle with_db record_effect
  stop_machine_rows m w = ground arith

  stopped_rows :
      (m : Machine) (w : World)
      → (if p m then stop_machine m w else w).db.machines
        ≡ (if p m then delete_by (λ (m : Machine). m.id) m.id w.db.machines else w.db.machines)
  unfolding delete_machine
  stopped_rows m w = ground (arith, stop_machine_rows m w)

  stop_where-none :
      (ms : List Machine) (w : World)
      → All (λ r. ChosenOf app p r → any (covers p r) ms ≡ true) w.db.machines
      → All (λ r. ChosenOf app p r → false ≡ true) (stop_where p ms w).db.machines
  unfolding stop_where any
  stop_where-none [] w h = h
  stop_where-none (m ∷ ms) w h =
      stop_where-none ms _ (rw (stopped_rows m w) (stopped_round m ms w.db.machines h))

  -- None of the chosen machines of the app is left.
  pub stop_listed-none :
      (w : World)
      → All
          (λ r. ChosenOf app p r → false ≡ true)
          (stop_where p (machines_for_app app w.db) w).db.machines
  stop_listed-none w = stop_where-none (machines_for_app app w.db) w (listed w.db)

module _ (app new_id : Text) where
  -- No running machine of the app is left but the new one.
  pub stop_old_machines-none :
      (w : World)
      → All
          (λ r. ChosenOf app (is_old new_id) r → false ≡ true)
          (stop_old_machines app new_id w).db.machines
  unfolding stop_old_machines
  stop_old_machines-none w = stop_listed-none app (is_old new_id) w

  spared :
      (m : Machine) (rows : List Machine)
      → find_by
          (λ (m : Machine). m.id)
          new_id
          (if is_old new_id m then delete_by (λ (m : Machine). m.id) m.id rows else rows)
        ≡ find_by (λ (m : Machine). m.id) new_id rows
  unfolding is_old
  spared m rows = ground (arith, find_by-delete_by (λ (m : Machine). m.id) new_id m.id rows)

  stop_where-keeps :
      (ms : List Machine) (w : World)
      → find_by (λ (m : Machine). m.id) new_id (stop_where (is_old new_id) ms w).db.machines
        ≡ find_by (λ (m : Machine). m.id) new_id w.db.machines
  unfolding stop_where
  stop_where-keeps [] w = refl
  stop_where-keeps (m ∷ ms) w =
      stop_where-keeps ms _
      ∙ ap (find_by (λ (m : Machine). m.id) new_id) (stopped_rows app (is_old new_id) m w)
      ∙ spared m w.db.machines

  -- The new machine stays as it is.
  pub stop_old_machines-keeps :
      (w : World)
      → find_by (λ (m : Machine). m.id) new_id (stop_old_machines app new_id w).db.machines
        ≡ find_by (λ (m : Machine). m.id) new_id w.db.machines
  unfolding stop_old_machines
  stop_old_machines-keeps w = stop_where-keeps (machines_for_app app w.db) w
