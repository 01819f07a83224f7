-- ===== src/Effects.antt =====
-- Go methods that change the state behind a pointer and return an error: what was changed before a
-- failure stays changed, so the state comes back beside the error too.
pub mod Keeps
pub mod Mends
use oakberryio.Prelude.{Bool, true, false, if◌then◌else◌}
use oakberryio.Prelude.Results.{Error, Result, ok, err}

abbrev pub Exec : Type 0 → Type 0 → Type 0
Exec S A = S → Result A × S

module _ {A S : Type 0} where
  unfoldable pub fail : Error → Exec S A
  fail why w = (err why, w)

  unfoldable pub pure : A → Exec S A
  pure value w = (ok value, w)

  unfoldable pub gets : (S → A) → Exec S A
  gets query w = (ok (query w), w)

  -- A value that was computed apart from the state.
  unfoldable pub lift : Result A → Exec S A
  lift outcome w = (outcome, w)

  -- A query that may fail and changes nothing.
  unfoldable pub asks : (S → Result A) → Exec S A
  asks f s = (f s, s)

  -- defer k(): it runs last, whatever `m` returns.
  unfoldable pub finally : Exec S A → (S → S) → Exec S A
  finally m k s = let (r, s') = m s in (r, k s')

  abbrev pub on_error_to : (S → S) → Result A → S → Result A × S
  on_error_to k (ok a) s = (ok a, s)
  on_error_to k (err e) s = (err e, k s)

  -- if err != nil { k(); return err }
  unfoldable pub on_error : Exec S A → (S → S) → Exec S A
  on_error m k s = let (r, s') = m s in on_error_to k r s'

module _ {S : Type 0} where
  unfoldable pub modify : (S → S) → Exec S (Unit {0})
  modify f s = (ok tt, f s)

-- What follows an outcome: nothing, if it is an error.
abbrev pub continue : {A B S : Type 0} → Result A → (A → Exec S B) → Exec S B
continue (err why) rest w = (err why, w)
continue (ok value) rest w = rest value w

module _ {A B S : Type 0} where
  infixl 10 ◌>>=◌ ◌>>◌
  unfoldable pub ◌>>=◌ : Exec S A → (A → Exec S B) → Exec S B
  ◌>>=◌ act rest w = let (outcome, w') = act w in continue outcome rest w'

  abbrev pub ◌>>◌ : Exec S A → Exec S B → Exec S B
  act >> rest = act >>= λ ignored. rest
