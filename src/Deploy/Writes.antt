-- ===== src/Deploy/Writes.antt =====
-- The Deployer's writes of the store: what they establish, and what they leave where they fail.
use oakberryio.Prelude.{◌≡◌, subst, sym, arith, inl, inr}
use oakberryio.Prelude.Results.{Error, Result, ok, err, Result-cases}
use oakberryio.Effects.{Exec}
use oakberryio.Effects.Keeps.{Keeps, Ensures, Restores}
use oakberryio.Store.{Db}
use oakberryio.Deploy.{World}
use oakberryio.Deploy.State.{write_db, write_db_with, with_db, new_machine_id}
use oakberryio.Deploy.Frame.{On}

pub write_db_inv :
    (f : Db → Result Db) (w : World) {a : Unit {0}} {w' : World}
    → write_db f w ≡ (ok a, w')
    → f w.db ≡ ok w'.db
unfolding write_db with_db
write_db_inv f w e = ground arith

pub write_db_with_inv :
    {A : Type 0} (f : Db → Result (A × Db)) (w : World) {a : A} {w' : World}
    → write_db_with f w ≡ (ok a, w')
    → f w.db ≡ ok (a, w'.db)
unfolding write_db_with with_db
write_db_with_inv f w {a} {w'} e = elim (Result-cases (f w.db)) [
  | inl (x, h) ↦ ground arith
  | inr ((b, db), h) ↦ ground arith
]

module _ {P : Db → Type 0} where
  pub write_db-Ensures :
      {Q : Db → Type 0} (f : Db → Result Db)
      → ((db db' : Db) → P db → f db ≡ ok db' → Q db')
      → Ensures (On P) (write_db f) (λ _ w. On Q w)
  write_db-Ensures f h = record {
    at = λ w p a w' e. record { store = h w.db w'.db p.store (write_db_inv f w e) };
  }

  pub write_db_with-Ensures :
      {A : Type 0} {Q : A → Db → Type 0} (f : Db → Result (A × Db))
      → ((db : Db) (a : A) (db' : Db) → P db → f db ≡ ok (a, db') → Q a db')
      → Ensures (On P) (write_db_with f) (λ a w. On (Q a) w)
  write_db_with-Ensures f h = record {
    at = λ w p a w' e. record { store = h w.db a w'.db p.store (write_db_with_inv f w e) };
  }

  pub anything : {A : Type 0} (m : Exec World A) → Ensures (On P) m (λ _. On (λ _. Unit))
  anything m = record { at = λ w p a w' e. record { store = tt } }

  pub write_db_with-Restores :
      {A : Type 0} (f : Db → Result (A × Db)) → Restores (On P) (write_db_with f)
  unfolding write_db_with
  write_db_with-Restores f = record { at = λ w p e x. subst (On P) (sym (unchanged f w x)) p }
    where
      unchanged :
          {A : Type 0} (f : Db → Result (A × Db)) (w : World) {e : Error}
          → (write_db_with f w).0 ≡ err e
          → (write_db_with f w).1 ≡ w
      unchanged f w x = ground arith

  pub Keeps-new_machine_id : Keeps (On P) new_machine_id
  unfolding new_machine_id
  Keeps-new_machine_id = record { at = λ w p. record { store = subst P (sym (same w)) p.store } }
    where
      same : (w : World) → (new_machine_id w).1.db ≡ w.db
      same w = ground arith

  pub Keeps-write_db_with :
      {A : Type 0} (f : Db → Result (A × Db))
      → ((db : Db) (a : A) (db' : Db) → P db → f db ≡ ok (a, db') → P db')
      → Keeps (On P) (write_db_with f)
  unfolding write_db_with with_db
  Keeps-write_db_with f h = record {
    at = λ w p. elim (Result-cases (f w.db)) [
      | inl (e, x) ↦ rw (x, write_db_with) p
      | inr ((a, db), x) ↦ rw (x, write_db_with) (record { store = h w.db a db p.store x })
    ];
  }
